-- ===== src/Verifier/Bundle/Keys.antt =====
-- The trusted keys: the map from witnesses to keys, and the test that no key is listed twice.
use mathlib.Core.List.{Nodup-nil, Nodup-cons, mem-cons, mem-cons_self}
use mathlib.Core.Logic.Or
use call_sign.Prelude.{
  ◌≤◌, ◌≡◌, refl, sym, ◌∙◌, ◌⊎◌, inl, inr, String, some, false, List, [], ◌∷◌, map, Mem, Nodup,
  arith, eq_iff, ok, Dict, lookup, insert, lookup-insert, Bool-cases, any, length, ◌==◌, string_eq,
  not-mem_of_any-false, length-map,
}
use call_sign.Verifier.Bundle.{WitnessKey, TrustBundle, set_size, map_of_keys, check_trust}

pub lookup-map_of_keys :
    (m : Dict WitnessKey) (keys : List WitnessKey) (w : String) (e : WitnessKey)
    → lookup (map_of_keys m keys) w ≡ some e
    → (lookup m w ≡ some e) ⊎ (Mem e keys × (e.witness_id ≡ w))
unfolding map_of_keys
lookup-map_of_keys m [] w e h = inl h
lookup-map_of_keys m (k ∷ keys) w e h =
    elim (lookup-map_of_keys (insert m k.witness_id k) keys w e h) [
      | inl l ↦ elim (Bool-cases (k.witness_id == w)) [
        | inl same ↦
            let hit : some k ≡ some e = rw (lookup-insert, same) at l in
            let p : k ≡ e = cc in
            inr (rw (← p) mem-cons_self, rw (← p) ((eq_iff k.witness_id w).0 same))
        | inr other ↦ inl (rw (lookup-insert, other) at l)
      ]
      | inr (mem, id) ↦ inr (mem-cons.1 (Or.inr mem), id)
    ]

set_size-le-length : (xs : List String) → set_size xs ≤ length xs
unfolding set_size
set_size-le-length [] = omega arith
set_size-le-length (x ∷ xs) = ground (arith, set_size-le-length xs)

any_sym : (a : String) (xs : List String) → any (λ y. a == y) xs ≡ any (λ y. y == a) xs
unfolding any
any_sym a [] = refl
any_sym a (x ∷ xs) = ground (arith, any_sym a xs, eq_iff a x, eq_iff x a)

-- A set is as large as the list that it is made from only if the list repeats nothing.
pub set_size-Nodup : (xs : List String) → set_size xs ≡ length xs → Nodup xs
unfolding set_size
set_size-Nodup [] h = Nodup-nil
set_size-Nodup (x ∷ xs) h =
    let fresh : any (λ y. x == y) xs ≡ false = ground (arith, set_size-le-length xs) in
    let rest : set_size xs ≡ length xs = ground (arith, set_size-le-length xs) in
    Nodup-cons.1 (not-mem_of_any-false x xs (sym (any_sym x xs) ∙ fresh), set_size-Nodup xs rest)

-- A trust bundle that is accepted asks for at least one witness and lists enough distinct keys.
pub trust-parts :
    (trust : TrustBundle)
    → check_trust trust ≡ ok tt
    → (1 ≤ trust.witness_threshold)
      × (trust.witness_threshold ≤ length trust.witness_public_keys)
      × (set_size (map (λ k. k.jwk.x) trust.witness_public_keys)
          ≡ length (map (λ k. k.jwk.x) trust.witness_public_keys))
unfolding check_trust
trust-parts trust h =
    ground (arith, length-map trust.witness_public_keys (λ (k : WitnessKey). k.jwk.x))
