-- ===== src/Notify/Fresh.antt =====
-- ResolveID finds a new id whenever one is left.
use sysc_notify.Base.{
  ℕ, zero, suc, ◌+◌, ◌-◌, ◌^◌, ◌%◌, ◌≤◌, ◌<◌, ◌≡◌, refl, ◌≢◌, ◌∙◌, inl, inr, false, List, [], ◌∷◌,
  Option, some, arith, contains, remove_first, length, length-remove_first, ◌==◌, if◌then◌else◌,
  Bool-cases,
}
use sysc_notify.Notify.Model.{next_id, resolve_loop, resolve_id}

-- The nonzero ids of 32 bits.
abbrev pub IsId : ℕ → Type 0
IsId n = (0 < n) × (n < 2 ^ 32)

pub next_id-IsId : (n : ℕ) → IsId (next_id n)
unfolding next_id
next_id-IsId n = ground arith

-- How many steps of `next_id` lead from `m` to `n`.
abbrev steps_to : ℕ → ℕ → ℕ
steps_to m n = (n + (2 ^ 32 - 1) - m) % (2 ^ 32 - 1)

steps_to-next_id : (m n : ℕ) → IsId m → IsId n → m ≢ n → steps_to m n ≡ suc (steps_to (next_id m) n)
unfolding next_id
steps_to-next_id m n hm hn ne = ground arith

steps_to_self : (n : ℕ) → IsId n → suc (steps_to (next_id n) n) ≡ 2 ^ 32 - 1
unfolding next_id
steps_to_self n h = ground arith

contains-remove_first_ne :
    (x y : ℕ) (ys : List ℕ) → x ≢ y → contains x (remove_first y ys) ≡ contains x ys
contains-remove_first_ne x y [] ne = refl
contains-remove_first_ne x y (z ∷ ys) ne = ground (arith, contains-remove_first_ne x y ys ne)

-- An id that the search does not reach does not matter to it.
resolve_loop-remove_first :
    (fuel m n : ℕ) (live : List ℕ)
    → IsId m
    → IsId n
    → fuel ≤ steps_to m n
    → resolve_loop fuel m live ≡ resolve_loop fuel m (remove_first n live)
unfolding resolve_loop
resolve_loop-remove_first zero m n live hm hn h = refl
resolve_loop-remove_first (suc fuel) m n live hm hn h =
    let ne : m ≢ n = λ e. omega arith in
    ground (
      arith,
      contains-remove_first_ne m n live ne,
      resolve_loop-remove_first fuel (next_id m) n live (next_id-IsId m) hn
          (omega (arith, steps_to-next_id m n hm hn ne)),
    )

-- What a finished search returns.
abbrev pub Fresh : List ℕ → Option (ℕ × ℕ) → Type 0
Fresh live r =
    (id : ℕ) × (next : ℕ) × (r ≡ some (id, next)) × IsId id × IsId next × (contains id live ≡ false)

resolve_loop-Fresh :
    (fuel n : ℕ) (live : List ℕ)
    → IsId n
    → length live < fuel
    → fuel ≤ 2 ^ 32 - 1
    → (id : ℕ) × (resolve_loop fuel n live ≡ some (id, next_id id))
unfolding resolve_loop
resolve_loop-Fresh zero n live h small big = absurd (omega arith)
resolve_loop-Fresh (suc fuel) n live h small big = elim (Bool-cases (contains n live)) [
  | inr free ↦ (n, rw free)
  | inl taken ↦
      let (id, found) =
        resolve_loop-Fresh fuel (next_id n) (remove_first n live) (next_id-IsId n)
          (omega (arith, length-remove_first n live taken)) (omega arith) in
      (
        id,
        rw taken (
            resolve_loop-remove_first fuel (next_id n) n live (next_id-IsId n) h
              (omega (arith, steps_to_self n h))
            ∙ found),
      )
]

resolve_loop_sound :
    (fuel n : ℕ) (live : List ℕ) {id next : ℕ}
    → IsId n
    → resolve_loop fuel n live ≡ some (id, next)
    → IsId id × IsId next × (contains id live ≡ false)
unfolding resolve_loop
resolve_loop_sound zero n live h e = cc
resolve_loop_sound (suc fuel) n live {id} {next} h e = ground (
  arith,
  next_id-IsId n,
  resolve_loop_sound fuel (next_id n) live {id = id} {next = next} (next_id-IsId n),
)

-- With fewer than 2^32 - 1 live ids the search for a new id ends, and what it returns is an id that
-- is not live and not 0, together with an id to go on from.
pub resolve_id-Fresh :
    (next : ℕ) (live : List ℕ)
    → next < 2 ^ 32
    → length live < 2 ^ 32 - 1
    → Fresh live (resolve_id 0 next live)
unfolding resolve_id
resolve_id-Fresh next live h small =
    let start : ℕ = if next == 0 then 1 else next in
    let begun : IsId start = ground arith in
    let (id, found) =
      resolve_loop-Fresh (suc (length live)) start live begun (omega arith) (omega arith) in
    let (good, after, free) = resolve_loop_sound (suc (length live)) start live begun found in
    (id, next_id id, found, good, after, free)
