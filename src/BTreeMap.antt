-- ===== src/BTreeMap.antt =====
-- `BTreeMap` and `BTreeSet` of the standard library, keyed by numbers: association lists in
-- ascending order of the keys, which is the order in which they are iterated.
use yat_sen_os.Prelude.{
  ℕ, ◌≡◌, refl, Bool, true, false, Option, none, some, List, [], ◌∷◌, arith, ltb, ◌==◌,
  if◌then◌else◌, ◌++◌, ◌≢◌, ◌⊎◌, inl, inr, ℕ_discrete, Option-cases,
}
use mathlib.Core.Option

abbrev pub Map {ℓ} : Type ℓ → Type ℓ
Map V = List (ℕ × V)

module _ {ℓ} {V : Type ℓ} where
  unfoldable pub get : ℕ → Map V → Option V
  get k [] = none
  get k ((j, v) ∷ m) = if j == k then some v else get k m

  -- Replaces the value of a key that is there already.
  unfoldable pub insert : ℕ → V → Map V → Map V
  insert k v [] = (k, v) ∷ []
  insert k v ((j, w) ∷ m) =
      if ltb k j
      then (k, v) ∷ (j, w) ∷ m
      else (if j == k then (k, v) ∷ m else (j, w) ∷ insert k v m)

  unfoldable pub remove : ℕ → Map V → Map V
  remove k [] = []
  remove k ((j, v) ∷ m) = if j == k then remove k m else (j, v) ∷ remove k m

  -- A write through a reference to the value of a key.
  unfoldable pub modify : ℕ → (V → V) → Map V → Map V
  modify k f [] = []
  modify k f ((j, v) ∷ m) = if j == k then (j, f v) ∷ modify k f m else (j, v) ∷ modify k f m

  pub get-insert :
      (k j : ℕ) (v : V) (m : Map V) → get j (insert k v m) ≡ (if k == j then some v else get j m)
  unfolding get insert
  get-insert k j v [] = refl
  get-insert k j v ((i, w) ∷ m) = ground (arith, get-insert k j v m)

  pub get-remove : (k j : ℕ) (m : Map V) → get j (remove k m) ≡ (if k == j then none else get j m)
  unfolding get remove
  get-remove k j [] = ground arith
  get-remove k j ((i, w) ∷ m) = ground (arith, get-remove k j m)

  pub get-modify :
      (k j : ℕ) (f : V → V) (m : Map V)
      → get j (modify k f m) ≡ (if k == j then Option.map f (get j m) else get j m)
  unfolding get modify
  get-modify k j f [] = ground arith
  get-modify k j f ((i, w) ∷ m) = ground (arith, get-modify k j f m)

-- A set is the list of its elements, ascending.
unfoldable pub set_insert : ℕ → List ℕ → List ℕ
set_insert k [] = k ∷ []
set_insert k (j ∷ s) = if ltb k j then k ∷ j ∷ s else (if j == k then j ∷ s else j ∷ set_insert k s)

unfoldable pub has : ℕ → List ℕ → Bool
has k [] = false
has k (j ∷ s) = if j == k then true else has k s

pub has-set_insert :
    (k j : ℕ) (s : List ℕ) → has j (set_insert k s) ≡ (if k == j then true else has j s)
unfolding has set_insert
has-set_insert k j [] = refl
has-set_insert k j (i ∷ s) = ground (arith, has-set_insert k j s)

-- An element at the end, which is how a queue grows.
pub has-snoc : (k j : ℕ) (s : List ℕ) → has j (s ++ k ∷ []) ≡ (if k == j then true else has j s)
unfolding has
has-snoc k j [] = refl
has-snoc k j (i ∷ s) = ground (arith, has-snoc k j s)

module _ {ℓ} {V : Type ℓ} where
  -- What stands at a key after a write: the value written, or the value of before.
  pub get-insert_inv :
      (k j : ℕ) (v w : V) (m : Map V)
      → get j (insert k v m) ≡ some w
      → ((k ≡ j) × (w ≡ v)) ⊎ ((k ≢ j) × (get j m ≡ some w))
  get-insert_inv k j v w m h = elim (ℕ_discrete k j) [
    | yes e ↦ inl (e, ground (arith, get-insert k j v m))
    | no ne ↦ inr (ne, ground (arith, get-insert k j v m))
  ]

  pub get-modify_inv :
      (k j : ℕ) (f : V → V) (w : V) (m : Map V)
      → get j (modify k f m) ≡ some w
      → ((k ≡ j) × (u : V) × (get j m ≡ some u) × (w ≡ f u)) ⊎ ((k ≢ j) × (get j m ≡ some w))
  get-modify_inv k j f w m h = elim (ℕ_discrete k j) [
    | yes e ↦ elim (Option-cases (get j m)) [
      | inl gone ↦ absurd (ground (arith, get-modify k j f m))
      | inr (u, found) ↦ inl (e, u, found, ground (arith, get-modify k j f m))
    ]
    | no ne ↦ inr (ne, ground (arith, get-modify k j f m))
  ]
