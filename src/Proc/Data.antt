-- ===== src/Proc/Data.antt =====
-- `ProcessData` of src/0x01/pkg/kernel/src/proc/data.rs, which a process shares with its forks. The
-- environment is a map of strings, kept in the order in which the keys were first set.
use yat_sen_os.Prelude.{
  ℕ, ◌≡◌, refl, sym, ap, subst, ◌∙◌, Bool, true, false, Option, some, none, List, [], ◌∷◌, ◌==◌,
  ◌&&◌, if◌then◌else◌, arith, inl, inr, Bool-cases,
}
use yat_sen_os.Sync.SemaphoreSet.{SemaphoreSet}
use yat_sen_os.Sync.SemaphoreSet
use yat_sen_os.Io.Input.{Key}
use yat_sen_os.Io.Resources.{ResourceSet}
use yat_sen_os.Io.Resources

pub record ProcessData : Type 0 where
  pub env_map : List (List ℕ × List ℕ)
  pub resources : ResourceSet
  pub semaphores : SemaphoreSet

abbrev pub same_string : List ℕ → List ℕ → Bool
same_string [] [] = true
same_string [] (d ∷ ds) = false
same_string (c ∷ cs) [] = false
same_string (c ∷ cs) (d ∷ ds) = (c == d) && same_string cs ds

unfoldable pub lookup : List ℕ → List (List ℕ × List ℕ) → Option (List ℕ)
lookup key [] = none
lookup key ((k, val) ∷ m) = if same_string k key then some val else lookup key m

unfoldable pub assign : List ℕ → List ℕ → List (List ℕ × List ℕ) → List (List ℕ × List ℕ)
assign key val [] = (key, val) ∷ []
assign key val ((k, old) ∷ m) =
    if same_string k key then (key, val) ∷ m else (k, old) ∷ assign key val m

unfoldable pub default : ProcessData
default = record { env_map = []; resources = Resources.default; semaphores = SemaphoreSet.empty }

unfoldable pub env : List ℕ → ProcessData → Option (List ℕ)
unfolding lookup
env key d = lookup key d.env_map

unfoldable pub set_env : List ℕ → List ℕ → ProcessData → ProcessData
unfolding assign
set_env key val d = record d { env_map = assign key val d.env_map }

unfoldable pub read : ℕ → ℕ → List Key → ProcessData → ℕ × List ℕ × List Key
read fd size input d = Resources.read fd size input d.resources

unfoldable pub write : ℕ → List ℕ → ProcessData → ℕ
write fd buf d = Resources.write fd buf d.resources

same_string_eq : (xs ys : List ℕ) → same_string xs ys ≡ true → xs ≡ ys
same_string_eq [] [] e = refl
same_string_eq [] (y ∷ ys) e = absurd (ground arith)
same_string_eq (x ∷ xs) [] e = absurd (ground arith)
same_string_eq (x ∷ xs) (y ∷ ys) e = ground (arith, same_string_eq xs ys)

same_string_refl : (xs : List ℕ) → same_string xs xs ≡ true
same_string_refl [] = refl
same_string_refl (x ∷ xs) = ground (arith, same_string_refl xs)

-- Two strings that differ are not both the same as a third.
same_string_other :
    (j key k : List ℕ)
    → same_string j key ≡ false
    → same_string j k ≡ true
    → same_string key k ≡ false
same_string_other j key k other same = elim (Bool-cases (same_string key k)) [
  | inl both ↦
      let e : j ≡ key = same_string_eq j k same ∙ sym (same_string_eq key k both) in
      let clash : same_string key key ≡ false = subst (λ r. same_string r key ≡ false) e other in
      absurd (ground (arith, same_string_refl key, clash))
  | inr no_more ↦ no_more
]

lookup-assign :
    (key k val : List ℕ) (m : List (List ℕ × List ℕ))
    → lookup k (assign key val m) ≡ (if same_string key k then some val else lookup k m)
unfolding lookup assign
lookup-assign key k val [] = refl
lookup-assign key k val ((j, old) ∷ m) = elim (Bool-cases (same_string j key)) [
  | inl same ↦
      let sw : same_string j k ≡ same_string key k =
        ap (λ r. same_string r k) (same_string_eq j key same) in
      rw same (ground (arith, sw))
  | inr other ↦ elim (Bool-cases (same_string j k)) [
    | inl hit ↦
        let miss : same_string key k ≡ false = same_string_other j key k other hit in
        rw (other, hit, miss)
    | inr miss ↦ rw (other, miss) (lookup-assign key k val m)
  ]
]

-- After a variable was set, it has that value, and every other variable is as it was.
pub env-set_env :
    (key k val : List ℕ) (d : ProcessData)
    → env k (set_env key val d) ≡ (if same_string key k then some val else env k d)
unfolding env set_env
env-set_env key k val d = lookup-assign key k val d.env_map
