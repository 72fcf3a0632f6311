-- ===== src/Prelude/Filter.antt =====
-- What a filter and a search leave of a predicate on all elements.
use mathlib.Core.Path.{◌≡◌, refl}
use mathlib.Core.Bool.{Bool, true, false}
use mathlib.Core.Logic.{inl, inr}
use mathlib.Core.List.{List, [], ◌∷◌}
use native.Mathlib.Omega.{arith}
use call_sign.Prelude.Tests.{if◌then◌else◌, Bool-cases}
use call_sign.Prelude.Lists.{All, any, select}

module _ {ℓ κ} {A : Type ℓ} (P : A → Type κ) where
  -- An element that a filter keeps passes its test.
  kept :
      (p : A → Bool) (x : A) (xs : List A) (b : Bool)
      → p x ≡ b
      → P x
      → All (λ y. (p y ≡ true) × P y) xs
      → All (λ y. (p y ≡ true) × P y) (if b then x ∷ xs else xs)
  kept p x xs true e h k = ((e, h), k)
  kept p x xs false e h k = k

  pub All-select :
      (p : A → Bool) (xs : List A) → All P xs → All (λ x. (p x ≡ true) × P x) (select p xs)
  unfolding select
  All-select p [] h = tt
  All-select p (x ∷ xs) (h, k) = kept p x (select p xs) (p x) refl h (All-select p xs k)

  pub All-any :
      (q : A → Bool) (xs : List A) → All P xs → any q xs ≡ true → (x : A) × P x × (q x ≡ true)
  unfolding any
  All-any q [] h e = cc
  All-any q (x ∷ xs) (h, k) e = elim (Bool-cases (q x)) [
    | inl t ↦ (x, h, t)
    | inr f ↦ All-any q xs k (ground arith)
  ]

module _ {ℓ} {A : Type ℓ} where
  pub All-unit : (xs : List A) → All {ℓ, 0} (λ x. Unit) xs
  All-unit [] = tt
  All-unit (x ∷ xs) = (tt, All-unit xs)

module _ {ℓ κ κ'} {A : Type ℓ} (P : A → Type κ) (Q : A → Type κ') where
  pub All-map : ((x : A) → P x → Q x) → (xs : List A) → All P xs → All Q xs
  All-map f [] h = tt
  All-map f (x ∷ xs) (h, k) = (f x h, All-map f xs k)

-- What `shows` keeps of `xs` satisfies `Q`, when `P` holds of all of `xs`.
pub All-shown {ℓ κ κ'} :
    {A : Type ℓ} (P : A → Type κ) (Q : A → Type κ') (shows : A → Bool) (xs : List A)
    → All P xs
    → ((x : A) → shows x ≡ true → P x → Q x)
    → All Q (select shows xs)
All-shown P Q shows xs h f =
    All-map (λ x. (shows x ≡ true) × P x) Q (λ x w. f x w.0 w.1) (select shows xs)
      (All-select P shows xs h)
