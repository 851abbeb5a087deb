-- ===== src/Prelude/Sums.antt =====
-- Sums of weights over the elements of a list.
use Prim.Native.Nat.{ℕ, zero, suc, ◌+◌, ◌≤◌, ◌<◌}
use mathlib.Core.Path.{◌≡◌, refl, ap}
use mathlib.Core.Option.{some}
use mathlib.Core.List.{List, [], ◌∷◌}
use mathlib.Core.Logic.{◌≢◌}
use native.Mathlib.Omega.{arith}
use native.Mathlib.Decide.{ℕ_discrete}
use yat_sen_os.Prelude.Lists.{get_elem?, set}
use yat_sen_os.Prelude.Outcomes.{some_inj}

module _ {ℓ} {A : Type ℓ} where
  abbrev pub total : (A → ℕ) → List A → ℕ
  total weight [] = 0
  total weight (t ∷ ts) = weight t + total weight ts

  pub total-set :
      (weight : A → ℕ) (ts : List A) (i : ℕ) (t t' : A)
      → get_elem? ts i ≡ some t
      → total weight (set ts i t') + weight t ≡ total weight ts + weight t'
  total-set weight [] i t t' e = cc
  total-set weight (x ∷ ts) zero t t' e =
      let same : weight x ≡ weight t = ap weight (some_inj e) in omega arith
  total-set weight (x ∷ ts) (suc i) t t' e = let rest = total-set weight ts i t t' e in omega arith

  pub total_le :
      (small large : A → ℕ) (ts : List A)
      → ((t : A) → small t ≤ large t)
      → total small ts ≤ total large ts
  total_le small large [] le = omega arith
  total_le small large (t ∷ ts) le =
      let head = le t in let rest = total_le small large ts le in omega arith

  -- An element that weighs less by itself leaves room in the sum.
  pub total_room :
      (small large : A → ℕ) (ts : List A) (i : ℕ) (t : A)
      → ((u : A) → small u ≤ large u)
      → get_elem? ts i ≡ some t
      → total small ts + large t ≤ total large ts + small t
  total_room small large [] i t le e = cc
  total_room small large (x ∷ ts) zero t le e =
      let a : small x ≡ small t = ap small (some_inj e) in
      let b : large x ≡ large t = ap large (some_inj e) in
      let rest = total_le small large ts le in omega arith
  total_room small large (x ∷ ts) (suc i) t le e =
      let head = le x in let rest = total_room small large ts i t le e in omega arith

  -- An element that weighs something, where the sum does.
  pub found :
      (weight : A → ℕ) (ts : List A)
      → 0 < total weight ts
      → (i : ℕ) × (t : A) × (get_elem? ts i ≡ some t) × (0 < weight t)
  found weight [] h = absurd (omega arith)
  found weight (x ∷ ts) h = elim (ℕ_discrete (weight x) 0) [
    | yes e ↦ let (i, t, at, pos) = found weight ts (omega arith) in (suc i, t, at, pos)
    | no ne ↦ (zero, x, refl, omega arith)
  ]

  pub weighs :
      (weight : A → ℕ) (ts : List A) (i : ℕ) (t : A)
      → get_elem? ts i ≡ some t
      → weight t ≤ total weight ts
  weighs weight ts i t at =
      let room = total_room (λ u. 0) weight ts i t (λ u. omega arith) at in omega arith

  -- Two elements at different places.
  pub total_two :
      (weight : A → ℕ) (ts : List A) (i j : ℕ) (t u : A)
      → get_elem? ts i ≡ some t
      → get_elem? ts j ≡ some u
      → i ≢ j
      → weight t + weight u ≤ total weight ts
  total_two weight [] i j t u at at' ne = cc
  total_two weight (x ∷ ts) zero zero t u at at' ne = absurd (ne refl)
  total_two weight (x ∷ ts) zero (suc j) t u at at' ne =
      let a : weight x ≡ weight t = ap weight (some_inj at) in
      let rest = total_room (λ u. 0) weight ts j u (λ u. omega arith) at' in omega arith
  total_two weight (x ∷ ts) (suc i) zero t u at at' ne =
      let a : weight x ≡ weight u = ap weight (some_inj at') in
      let rest = total_room (λ u. 0) weight ts i t (λ u. omega arith) at in omega arith
  total_two weight (x ∷ ts) (suc i) (suc j) t u at at' ne =
      let rest = total_two weight ts i j t u at at' (λ e. ne (ap suc e)) in omega arith
