-- ===== src/Protocol/Frame.antt =====
-- protocol/frame.go: length-prefixed frames. A reader is the bytes that are left in it. The writer
-- is a parameter: a state, what a call of `Write` returns for it, and the bytes it has taken so far.
-- The JSON scan (`DecodeStrict` and below) drives `encoding/json`'s decoder and is not modelled.
pub mod Roundtrip
use sysc_notify.Base.{
  ℕ, zero, suc, ◌+◌, ◌*◌, ◌/◌, ◌%◌, ◌^◌, ◌≤◌, ◌≡◌, Bool, true, false, ◌||◌, List, [], ◌∷◌, ◌++◌,
  Option, none, some, Text, length, take, drop, ltb, leb, ◌==◌, if◌then◌else◌,
}

abbrev pub max_frame_size : ℕ
max_frame_size = 16 * 2 ^ 20

pub data FrameFault : Type 0 where
  read_length read_payload write_length write_payload : FrameFault
  invalid_length : ℕ → FrameFault

pub data Read : Type 0 where
  frame : Text → Text → Read
  failed : FrameFault → Read

-- `io.ReadFull`: all of the bytes asked for, or an error.
abbrev pub read_full : ℕ → Text → Option (Text × Text)
read_full n bytes = if leb n (length bytes) then some (take n bytes, drop n bytes) else none

-- `binary.BigEndian`.
abbrev pub put_uint32 : ℕ → Text
put_uint32 n = (n / 2 ^ 24 % 2 ^ 8) ∷ (n / 2 ^ 16 % 2 ^ 8) ∷ (n / 2 ^ 8 % 2 ^ 8) ∷ (n % 2 ^ 8) ∷ []

abbrev pub uint32 : Text → ℕ
uint32 (a ∷ b ∷ c ∷ d ∷ _) = a * 2 ^ 24 + b * 2 ^ 16 + c * 2 ^ 8 + d
uint32 _ = 0

read_payload_of : ℕ → Text → Read
read_payload_of n rest = elim (read_full n rest) [
  | none ↦ failed read_payload
  | some (payload, left) ↦ frame payload left
]

unfoldable pub read_frame : Text → Read
unfolding read_payload_of
read_frame bytes = elim (read_full 4 bytes) [
  | none ↦ failed read_length
  | some (header, rest) ↦
      let n = uint32 header in
      if n == 0 || ltb max_frame_size n then failed (invalid_length n) else read_payload_of n rest
]

-- `Write` returns the number of bytes taken, whether an error came with it, and the writer after.
pub record Writer : Type 1 where
  pub State : Type 0
  pub write : State → Text → ℕ × Bool × State
  pub taken : State → Text
  -- The contract of io.Writer: at most the bytes offered, and those from the front.
  pub write_le : (w : State) (p : Text) → (write w p).0 ≤ length p
  pub write_taken : (w : State) (p : Text) → taken (write w p).2 ≡ taken w ++ take (write w p).0 p

module _ (out : Writer) where
  open out use {State, write}

  -- Returns whether all of `p` was written. Each round takes a byte at least, so the fuel
  -- `length p` is enough.
  unfoldable pub write_loop : ℕ → State → Text → Option (Bool × State)
  write_loop fuel w [] = some (true, w)
  write_loop zero w (b ∷ p) = none
  write_loop (suc fuel) w (b ∷ p) =
      let (n, fails, w') = write w (b ∷ p) in
      let rest = write_loop fuel w' (drop n (b ∷ p)) in
      if fails then some (false, w') else if n == 0 then some (false, w') else rest

  unfoldable pub write_all : State → Text → Option (Bool × State)
  write_all w p = write_loop (length p) w p

  write_payload_of : Text → Option (Bool × State) → Option (Option FrameFault × State)
  write_payload_of payload none = none
  write_payload_of payload (some (false, w)) = some (some write_length, w)
  write_payload_of payload (some (true, w)) = elim (write_all w payload) [
    | none ↦ none
    | some (false, w') ↦ some (some write_payload, w')
    | some (true, w') ↦ some (none, w')
  ]

  -- `none` outside means that the loop did not end.
  unfoldable pub write_frame : State → Text → Option (Option FrameFault × State)
  unfolding write_payload_of
  write_frame w payload =
      if length payload == 0 || ltb max_frame_size (length payload)
      then some (some (invalid_length (length payload)), w)
      else write_payload_of payload (write_all w (put_uint32 (length payload)))
