-- ===== src/Prelude/Kept.antt =====
-- What a dictionary keeps from one state to the next: every entry of the old one has an entry of the
-- new one that it is related to.
use Prim.Native.String.{String}
use mathlib.Core.Path.{◌≡◌, refl}
use mathlib.Core.Bool.{Bool, true, false}
use mathlib.Core.Option.{Option, none, some}
use native.Mathlib.Omega.{arith}
use text.Mathlib.TextEquality.{eq_iff}
use call_sign.Prelude.Tests.{if◌then◌else◌, ◌==◌, string_eq}
use call_sign.Prelude.Maps.{
  Dict, lookup, insert, update_values, lookup-insert, lookup-update_values,
}

module _ {ℓ} {V : Type ℓ} (R : V → V → Type 0) where
  abbrev pub Related : V → Option V → Type 0
  Related v none = ⊥
  Related v (some w) = R v w

  unfoldable pub Kept : Dict V → Dict V → Type ℓ
  Kept d e = (k : String) (v : V) → lookup d k ≡ some v → Related v (lookup e k)

  pub Kept-refl : ((v : V) → R v v) → (d : Dict V) → Kept d d
  unfolding Kept
  Kept-refl p d k v h = rw (h) (p v)

  Related-trans :
      ((u v w : V) → R u v → R v w → R u w)
      → (u : V) (o : Option V) (q : Option V) → Related u o
      → ((v : V) → o ≡ some v → Related v q)
      → Related u q
  Related-trans t u none q p f = elim p [ ]
  Related-trans t u (some v) (some w) p f = t u v w p (f v refl)
  Related-trans t u (some v) none p f = f v refl

  pub Kept-trans :
      ((u v w : V) → R u v → R v w → R u w) → (d e f : Dict V) → Kept d e → Kept e f → Kept d f
  unfolding Kept
  Kept-trans t d e f p q k u h =
      Related-trans t u (lookup e k) (lookup f k) (p k u h) (λ v i. q k v i)

  either :
      (b : Bool) (o : Option V) (w v : V)
      → (b ≡ true → R w v)
      → Related w o
      → Related w (if b then some v else o)
  either true o w v f q = f refl
  either false o w v f q = q

  -- An assignment to a key that is free, or whose value the new one is related to.
  pub Kept-insert :
      ((v : V) → R v v)
      → (d : Dict V) (k : String) (v : V) → ((w : V) → lookup d k ≡ some w → R w v)
      → Kept d (insert d k v)
  unfolding Kept
  Kept-insert p d k v f j w h =
      rw (lookup-insert d k j v)
        (either (k == j) (lookup d j) w v (λ e. f w (ground (arith, eq_iff k j))) (rw (h) (p w)))

  pub Kept-update_values :
      (f : V → V) → ((v : V) → R v (f v)) → (d : Dict V) → Kept d (update_values f d)
  unfolding Kept
  Kept-update_values f p d k v h = rw (lookup-update_values f d k) (rw (h) (p v))

  Related-some : (v : V) (o : Option V) → Related v o → (w : V) × (o ≡ some w) × R v w
  Related-some v none h = elim h [ ]
  Related-some v (some w) h = (w, refl, h)

  -- The entry of the new dictionary.
  pub Kept-lookup :
      (d e : Dict V) (k : String) (v : V)
      → Kept d e
      → lookup d k ≡ some v
      → (w : V) × (lookup e k ≡ some w) × R v w
  unfolding Kept
  Kept-lookup d e k v h p = Related-some v (lookup e k) (h k v p)
