-- ===== src/Prelude/Maps.antt =====
-- `Record<string, V>` and `Map<string, V>` of the source, in insertion order.
use Prim.Native.String.{String}
use mathlib.Core.Path.{◌≡◌, refl}
use mathlib.Core.Option
use mathlib.Core.Option.{Option, none, some}
use mathlib.Core.List.{List, [], ◌∷◌, map}
use native.Mathlib.Omega.{arith}
use text.Mathlib.TextEquality.{eq_iff}
use text.Mathlib.TextPositions.{eq_refl}
use call_sign.Prelude.Tests.{if◌then◌else◌, ◌==◌, string_eq}

abbrev pub Dict {ℓ} : Type ℓ → Type ℓ
Dict V = List (String × V)

module _ {ℓ} {V : Type ℓ} where
  -- `d[k]`, `d.get(k)`
  unfoldable pub lookup : Dict V → String → Option V
  lookup [] k = none
  lookup ((j, v) ∷ d) k = if j == k then some v else lookup d k

  -- `d[k] = v`, `d.set(k, v)`
  unfoldable pub insert : Dict V → String → V → Dict V
  insert [] k v = (k, v) ∷ []
  insert ((j, w) ∷ d) k v = if j == k then (j, v) ∷ d else (j, w) ∷ insert d k v

  -- `Object.values(d)`
  unfoldable pub values : Dict V → List V
  values d = map (λ e. e.1) d

  -- A loop over `Object.values(d)` that assigns to the fields of each value.
  unfoldable pub update_values : (V → V) → Dict V → Dict V
  update_values f [] = []
  update_values f ((k, v) ∷ d) = (k, f v) ∷ update_values f d

  pub lookup-insert :
      (d : Dict V) (k j : String) (v : V)
      → lookup (insert d k v) j ≡ (if k == j then some v else lookup d j)
  unfolding lookup insert
  lookup-insert [] k j v = refl
  lookup-insert ((i, w) ∷ d) k j v =
      ground (arith, eq_iff k j, eq_iff i k, eq_iff i j, lookup-insert d k j v)

  pub lookup-insert_self : (d : Dict V) (k : String) (v : V) → lookup (insert d k v) k ≡ some v
  lookup-insert_self d k v = simp (lookup-insert, eq_refl)

  pub lookup-update_values :
      (f : V → V) (d : Dict V) (k : String)
      → lookup (update_values f d) k ≡ Option.map f (lookup d k)
  unfolding lookup update_values
  lookup-update_values f [] k = refl
  lookup-update_values f ((j, v) ∷ d) k = ground (arith, lookup-update_values f d k)
