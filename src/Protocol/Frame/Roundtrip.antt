-- ===== src/Protocol/Frame/Roundtrip.antt =====
-- What WriteFrame puts on the wire, ReadFrame takes off again.
use mathlib.Core.List.{append-nil, append_assoc}
use sysc_notify.Base.{
  ℕ, zero, suc, ◌^◌, ◌≤◌, ◌<◌, ◌≡◌, refl, sym, ◌∙◌, ap, inl, inr, Bool, true, false, ◌||◌, [], ◌∷◌,
  ◌++◌, Option, none, some, Text, length, take, drop, length-append, arith, ltb, ◌==◌, Bool-cases,
}
use sysc_notify.Protocol.Frame.{
  Writer, FrameFault, frame, max_frame_size, read_full, put_uint32, uint32, read_frame, write_loop,
  write_all, write_payload_of, write_frame,
}

take-append_exact : (p rest : Text) → take (length p) (p ++ rest) ≡ p
take-append_exact [] rest = refl
take-append_exact (b ∷ p) rest = ap (◌∷◌ b) (take-append_exact p rest)

drop-append_exact : (p rest : Text) → drop (length p) (p ++ rest) ≡ rest
drop-append_exact [] rest = refl
drop-append_exact (b ∷ p) rest = drop-append_exact p rest

take-append-drop : (n : ℕ) (p : Text) → take n p ++ drop n p ≡ p
take-append-drop zero p = refl
take-append-drop (suc n) [] = refl
take-append-drop (suc n) (b ∷ p) = ap (◌∷◌ b) (take-append-drop n p)

length-drop : (n : ℕ) (p : Text) → length (drop n p) ≤ length p
length-drop zero p = omega arith
length-drop (suc n) [] = omega arith
length-drop (suc n) (b ∷ p) = omega (arith, length-drop n p)

length-drop_pos :
    (n b : ℕ) (p : Text) (fuel : ℕ)
    → 0 < n
    → length (b ∷ p) ≤ suc fuel
    → length (drop n (b ∷ p)) ≤ fuel
length-drop_pos zero b p fuel h k = absurd (omega arith)
length-drop_pos (suc n) b p fuel h k = omega (arith, length-drop n p)

taken_rest :
    (before after : Text) (n : ℕ) (p : Text)
    → after ≡ before ++ take n p
    → after ++ drop n p ≡ before ++ p
taken_rest before after n p e =
    rw (e, append_assoc before (take n p) (drop n p), take-append-drop n p)

read_full_exact : (p rest : Text) → read_full (length p) (p ++ rest) ≡ some (p, rest)
read_full_exact p rest =
    ground (arith, length-append p rest, take-append_exact p rest, drop-append_exact p rest)

uint32-put_uint32 : (n : ℕ) → n < 2 ^ 32 → uint32 (put_uint32 n) ≡ n
uint32-put_uint32 n h = omega arith

-- A frame of a payload of legal size, whatever follows it, is read back as that payload, and the
-- reader is left at what follows.
pub read_frame-put_uint32 :
    (payload rest : Text)
    → 0 < length payload
    → length payload ≤ max_frame_size
    → read_frame (put_uint32 (length payload) ++ payload ++ rest) ≡ frame payload rest
unfolding read_frame
read_frame-put_uint32 payload rest h k =
    ground (arith, uint32-put_uint32 (length payload), read_full_exact payload rest)

module _ (out : Writer) where
  open out use {State, taken}

  -- What a finished call of `writeAll` for `p` has done to the writer `w`.
  abbrev Written : State → Text → Option (Bool × State) → Type 0
  Written w p r =
      (done : Bool) × (w' : State) × (r ≡ some (done, w')) × (done ≡ true → taken w' ≡ taken w ++ p)

  write_loop-Written :
      (fuel : ℕ) (w : State) (p : Text) → length p ≤ fuel → Written w p (write_loop out fuel w p)
  unfolding write_loop
  write_loop-Written fuel w [] h = (true, w, refl, λ _. sym (append-nil (taken w)))
  write_loop-Written zero w (b ∷ p) h = absurd (omega arith)
  write_loop-Written (suc fuel) w (b ∷ p) h = elim (Bool-cases (out.write w (b ∷ p)).1) [
    | inl fails ↦ (false, (out.write w (b ∷ p)).2, ground arith, λ e. cc)
    | inr fine ↦ elim (Bool-cases ((out.write w (b ∷ p)).0 == 0)) [
      | inl none_taken ↦ (false, (out.write w (b ∷ p)).2, ground arith, λ e. cc)
      | inr some_taken ↦
          let n = (out.write w (b ∷ p)).0 in
          let w' = (out.write w (b ∷ p)).2 in
          let later : Written w' (drop n (b ∷ p)) (write_loop out fuel w' (drop n (b ∷ p))) =
            write_loop-Written fuel w' (drop n (b ∷ p))
              (length-drop_pos n b p fuel (ground arith) h) in
          (
            later.0,
            later.1,
            rw (fine, some_taken) later.2,
            λ e. later.3 e ∙ taken_rest (taken w) (taken w') n (b ∷ p) (out.write_taken w (b ∷ p)),
          )
    ]
  ]

  write_all-Written : (w : State) (p : Text) → Written w p (write_all out w p)
  unfolding write_all
  write_all-Written w p = write_loop-Written (length p) w p (omega arith)

  -- What WriteFrame reports for `payload`.
  abbrev Framed : State → Text → Text → Option (Option FrameFault × State) → Type 0
  Framed w payload rest r =
      (fault : Option FrameFault) × (w' : State) × (r ≡ some (fault, w'))
      × (fault ≡ none
          → (sent : Text) × (taken w' ≡ taken w ++ sent)
            × (read_frame (sent ++ rest) ≡ frame payload rest))

  payload_sent :
      (w w' : State) (payload rest : Text)
      → 0 < length payload
      → length payload ≤ max_frame_size
      → taken w' ≡ taken w ++ put_uint32 (length payload)
      → Written w' payload (write_all out w' payload)
      → Framed w payload rest (write_payload_of out payload (some (true, w')))
  unfolding write_payload_of
  payload_sent w w' payload rest h k e (false, w'', r, t) =
      (some FrameFault.write_payload, w'', rw (r, write_payload_of), λ e. cc)
  payload_sent w w' payload rest h k e (true, w'', r, t) = (
    none,
    w'',
    rw (r, write_payload_of),
    λ _. (
      put_uint32 (length payload) ++ payload,
      t refl
          ∙ ap (λ u. u ++ payload) e
          ∙ append_assoc (taken w) (put_uint32 (length payload)) payload,
      read_frame-put_uint32 payload rest h k,
    ),
  )

  header_sent :
      (w : State) (payload rest : Text)
      → 0 < length payload
      → length payload ≤ max_frame_size
      → Written w (put_uint32 (length payload)) (write_all out w (put_uint32 (length payload)))
      → Framed w payload rest
          (write_payload_of out payload (write_all out w (put_uint32 (length payload))))
  unfolding write_payload_of
  header_sent w payload rest h k (false, w', r, t) =
      (some FrameFault.write_length, w', rw r, λ e. cc)
  header_sent w payload rest h k (true, w', r, t) =
      rw r (payload_sent w w' payload rest h k (t refl) (write_all-Written w' payload))

  -- WriteFrame always ends, and where it reports no error the bytes that it put on the wire are one
  -- frame: ReadFrame takes the payload off again and stops at what follows.
  pub write_frame-read_frame :
      (w : State) (payload rest : Text)
      → (fault : Option FrameFault) × (w' : State) × (write_frame out w payload ≡ some (fault, w'))
        × (fault ≡ none
            → (sent : Text) × (taken w' ≡ taken w ++ sent)
              × (read_frame (sent ++ rest) ≡ frame payload rest))
  unfolding write_frame
  write_frame-read_frame w payload rest =
      elim (Bool-cases (length payload == 0 || ltb max_frame_size (length payload))) [
        | inl illegal ↦ (some (FrameFault.invalid_length (length payload)), w, rw illegal, λ e. cc)
        | inr legal ↦ rw legal (
            header_sent w payload rest (ground arith) (ground arith)
              (write_all-Written w (put_uint32 (length payload))))
      ]
