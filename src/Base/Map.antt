-- ===== src/Base/Map.antt =====
-- Go maps: lists of pairs in the order of insertion. A key stands at most once: `put` overwrites.
use Prim.Native.Nat.{ℕ, suc}
use mathlib.Core.Path.{◌≡◌, refl, ap, subst}
use mathlib.Core.Bool.{true, false}
use mathlib.Core.List.{List, [], ◌∷◌, ◌++◌}
use mathlib.Core.Option.{Option, none, some}
use mathlib.Core.Logic.{inl, inr}
use native.Mathlib.Omega.{arith}
use sysc_notify.Base.Tests.{◌==◌, ==_iff, Bool-cases, if◌then◌else◌, is_some}
use sysc_notify.Base.Lists.{length, contains, Distinct, remove_first}

module _ {ℓ} {V : Type ℓ} where
  unfoldable pub get : ℕ → List (ℕ × V) → Option V
  get k [] = none
  get k ((j, v) ∷ m) = if j == k then some v else get k m

  unfoldable pub put : ℕ → V → List (ℕ × V) → List (ℕ × V)
  put k v [] = (k, v) ∷ []
  put k v ((j, w) ∷ m) = let rest = put k v m in if j == k then (k, v) ∷ m else (j, w) ∷ rest

  unfoldable pub delete : ℕ → List (ℕ × V) → List (ℕ × V)
  delete k [] = []
  delete k ((j, w) ∷ m) = let rest = delete k m in if j == k then m else (j, w) ∷ rest

  abbrev pub keys : List (ℕ × V) → List ℕ
  keys [] = []
  keys ((k, v) ∷ m) = k ∷ keys m

  pub get-put :
      (k j : ℕ) (v : V) (m : List (ℕ × V))
      → get j (put k v m) ≡ (if k == j then some v else get j m)
  unfolding get put
  get-put k j v [] = refl
  get-put k j v ((i, w) ∷ m) = ground (arith, get-put k j v m)

  pub get_missing : (k : ℕ) (m : List (ℕ × V)) → contains k (keys m) ≡ false → get k m ≡ none
  unfolding get
  get_missing k [] h = refl
  get_missing k ((i, w) ∷ m) h = ground (arith, get_missing k m)

  pub is_some-get : (k : ℕ) (m : List (ℕ × V)) → is_some (get k m) ≡ contains k (keys m)
  unfolding get
  is_some-get k [] = refl
  is_some-get k ((i, w) ∷ m) = ground (arith, is_some-get k m)

  pub get-delete :
      (k j : ℕ) (m : List (ℕ × V))
      → Distinct (keys m)
      → get j (delete k m) ≡ (if k == j then none else get j m)
  unfolding get delete
  get-delete k j [] d = ground arith
  get-delete k j ((i, w) ∷ m) d = ground (arith, get-delete k j m d.1, get_missing j m)

  pub keys-delete : (k : ℕ) (m : List (ℕ × V)) → keys (delete k m) ≡ remove_first k (keys m)
  unfolding delete
  keys-delete k [] = refl
  keys-delete k ((i, w) ∷ m) = ground (arith, keys-delete k m)

  pub keys-put_old :
      (k : ℕ) (v : V) (m : List (ℕ × V)) → contains k (keys m) ≡ true → keys (put k v m) ≡ keys m
  unfolding put
  keys-put_old k v [] h = cc
  keys-put_old k v ((i, w) ∷ m) h = ground (arith, keys-put_old k v m)

  pub keys-put_new :
      (k : ℕ) (v : V) (m : List (ℕ × V))
      → contains k (keys m) ≡ false
      → keys (put k v m) ≡ keys m ++ k ∷ []
  unfolding put
  keys-put_new k v [] h = refl
  keys-put_new k v ((i, w) ∷ m) h = ground (arith, keys-put_new k v m)

  pub length-keys : (m : List (ℕ × V)) → length (keys m) ≡ length m
  length-keys [] = refl
  length-keys ((k, v) ∷ m) = ap suc (length-keys m)

-- A property of every entry.
module _ {ℓ κ} {V : Type ℓ} (P : ℕ → V → Type κ) where
  abbrev pub Entries : List (ℕ × V) → Type κ
  Entries [] = Unit
  Entries ((k, v) ∷ m) = P k v × Entries m

  pub Entries-put : (k : ℕ) (v : V) (m : List (ℕ × V)) → P k v → Entries m → Entries (put k v m)
  unfolding put
  Entries-put k v [] p h = (p, tt)
  Entries-put k v ((j, w) ∷ m) p h = elim (Bool-cases (j == k)) [
    | inl hit ↦ rw hit (p, h.1)
    | inr miss ↦ rw miss (h.0, Entries-put k v m p h.1)
  ]

  pub Entries-delete : (k : ℕ) (m : List (ℕ × V)) → Entries m → Entries (delete k m)
  unfolding delete
  Entries-delete k [] h = tt
  Entries-delete k ((j, w) ∷ m) h = elim (Bool-cases (j == k)) [
    | inl hit ↦ rw hit h.1
    | inr miss ↦ rw miss (h.0, Entries-delete k m h.1)
  ]

  pub Entries-get : (k : ℕ) (m : List (ℕ × V)) {v : V} → Entries m → get k m ≡ some v → P k v
  unfolding get
  Entries-get k [] h e = cc
  Entries-get k ((j, w) ∷ m) {v} h e = elim (Bool-cases (j == k)) [
    | inl hit ↦
        let same_key : j ≡ k = (==_iff j k).0 hit in
        let same_value : w ≡ v = ground arith in
        subst (λ i. P i v) same_key (subst (P j) same_value h.0)
    | inr miss ↦ Entries-get k m h.1 (rw miss at e)
  ]
