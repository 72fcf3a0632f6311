-- ===== src/Prelude/Lists.antt =====
-- Lists measured by native numbers, and tests on them.
use Prim.Native.Nat.{ℕ, suc, ◌+◌}
use mathlib.Core.Path.{◌≡◌, refl, ap}
use mathlib.Core.Bool.{Bool, true, false, ◌&&◌, ◌||◌}
use mathlib.Core.Option.{Option, none, some}
use mathlib.Core.List.{
  List, [], ◌∷◌, ◌++◌, map, Mem, Nodup, mem-cons, not-mem-nil, concat-eq-append, Nodup-concat,
}
use mathlib.Core.Logic.Or
use mathlib.Core.HLevel.{⊥_prop}
use native.Mathlib.Omega.{arith}
use call_sign.Prelude.Tests.{if◌then◌else◌, Comparable, ◌==◌}

-- A predicate that computes to a tuple.
abbrev pub All {ℓ κ} : {A : Type ℓ} → (A → Type κ) → List A → Type κ
All P [] = Unit
All P (x ∷ xs) = P x × All P xs

module _ {ℓ} {A : Type ℓ} where
  abbrev pub length : List A → ℕ
  length [] = 0
  length (x ∷ xs) = suc (length xs)

  -- `xs.some(test)` and `xs.every(test)`
  unfoldable pub any : (A → Bool) → List A → Bool
  any p [] = false
  any p (x ∷ xs) = p x || any p xs

  unfoldable pub every : (A → Bool) → List A → Bool
  every p [] = true
  every p (x ∷ xs) = p x && every p xs

  -- `xs.find(test)`
  unfoldable pub find : (A → Bool) → List A → Option A
  find p [] = none
  find p (x ∷ xs) = if p x then some x else find p xs

  -- `xs.filter(test)`
  unfoldable pub select : (A → Bool) → List A → List A
  select p [] = []
  select p (x ∷ xs) = let rest = select p xs in if p x then x ∷ rest else rest

  pub length-append : (xs ys : List A) → length (xs ++ ys) ≡ length xs + length ys
  length-append [] ys = omega arith
  length-append (x ∷ xs) ys = omega (arith, length-append xs ys)

module _ {ℓ} {A : Type ℓ} where
  pub find-test : (p : A → Bool) (xs : List A) {a : A} → find p xs ≡ some a → p a ≡ true
  unfolding find
  find-test p [] h = cc
  find-test p (x ∷ xs) {a} h = ground (arith, find-test p xs {a = a})

pub length-map {ℓ κ} :
    {A : Type ℓ} {B : Type κ} (xs : List A) (f : A → B) → length (map f xs) ≡ length xs
length-map [] f = refl
length-map (x ∷ xs) f = ap suc (length-map xs f)

-- Membership in the sense of the library, for a test by equality.
module _ {ℓ} {A : Type ℓ} ⦃e : Comparable A⦄ where
  pub not-mem_of_any-false : (a : A) (xs : List A) → any (λ x. x == a) xs ≡ false → ¬ Mem a xs
  unfolding any
  not-mem_of_any-false a [] h m = not-mem-nil m
  not-mem_of_any-false a (x ∷ xs) h m =
      Or.elim ⊥_prop (mem-cons.0 m) (λ p. ground (arith, e.same_iff x a))
        (not-mem_of_any-false a xs (ground arith))

pub Nodup-snoc {ℓ} :
    {A : Type ℓ} (xs : List A) (a : A) → Nodup xs → ¬ Mem a xs → Nodup (xs ++ a ∷ [])
Nodup-snoc xs a n m = rw (← concat-eq-append) ((Nodup-concat xs a).1 (m, n))

pub All-snoc {ℓ κ} :
    {A : Type ℓ} (P : A → Type κ) (xs : List A) (a : A) → All P xs → P a → All P (xs ++ a ∷ [])
All-snoc P [] a h p = (p, tt)
All-snoc P (x ∷ xs) a h p = (h.0, All-snoc P xs a h.1 p)
