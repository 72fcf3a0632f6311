-- ===== src/Protocol/Sdp/Canonical.antt =====
-- `extractSingleSdpFingerprint` and `normalizeFingerprint` of packages/protocol/src/index.ts.
use call_sign.Prelude.{
  ℕ, zero, suc, ◌*◌, ◌≡◌, ◌≢◌, refl, ap, sym, ◌∙◌, true, List, [], ◌∷◌, arith, every, length, All,
  ok,
}
use call_sign.Prelude.Text.{is_upper_hex, codes_eq}
use call_sign.Protocol.Schemas.{hex_groups, matches_fingerprint}
use call_sign.Protocol.Sdp.{
  compact, join_pairs, normalize_fingerprint, captures, normalize_all, single,
  extract_single_sdp_fingerprint,
}

pairs :
    (n : ℕ) (xs : List ℕ)
    → length xs ≡ 2 * suc n
    → every is_upper_hex xs ≡ true
    → (a : ℕ) × (b : ℕ) × (t : List ℕ) × (join_pairs xs ≡ a ∷ b ∷ t)
      × (is_upper_hex a ≡ true)
      × (is_upper_hex b ≡ true)
      × (hex_groups n t ≡ true)
unfolding join_pairs every hex_groups
pairs n [] l h = absurd (omega arith)
pairs n (a ∷ []) l h = absurd (omega arith)
pairs zero (a ∷ b ∷ []) l h = (a, b, [], refl, ground arith, ground arith, refl)
pairs zero (a ∷ b ∷ c ∷ s) l h = absurd (omega arith)
pairs (suc n) (a ∷ b ∷ []) l h = absurd (omega arith)
pairs (suc n) (a ∷ b ∷ c ∷ s) l h =
    let (a', b', t, e, ha, hb, g) = pairs n (c ∷ s) (omega arith) (ground arith) in
    (a, b, b':' ∷ a' ∷ b' ∷ t, rw (e) refl, ground arith, ground arith, ground arith)

pub codes_eq-eq : (xs ys : List ℕ) → codes_eq xs ys ≡ true → xs ≡ ys
unfolding codes_eq
codes_eq-eq [] [] h = refl
codes_eq-eq [] (y ∷ ys) h = cc
codes_eq-eq (x ∷ xs) [] h = cc
codes_eq-eq (x ∷ xs) (y ∷ ys) h = ground (arith, codes_eq-eq xs ys)

normalize-parts :
    (s value : List ℕ)
    → normalize_fingerprint s ≡ ok value
    → (length (compact s) ≡ 64)
      × (every is_upper_hex (compact s) ≡ true)
      × (join_pairs (compact s) ≡ value)
unfolding normalize_fingerprint
normalize-parts s value h = ground arith

normalized :
    (s value : List ℕ) → normalize_fingerprint s ≡ ok value → matches_fingerprint value ≡ true
unfolding matches_fingerprint
normalized s value h =
    let (size, hex, same) = normalize-parts s value h in
    let (a, b, t, e, ha, hb, g) = pairs 31 (compact s) (omega arith) hex in
    rw (← same, e) (ground arith)

normalize-cons :
    (x : List ℕ) (xs ys : List (List ℕ))
    → normalize_all (x ∷ xs) ≡ ok ys
    → (y : List ℕ) × (zs : List (List ℕ)) × (normalize_fingerprint x ≡ ok y)
      × (normalize_all xs ≡ ok zs)
      × (ys ≡ y ∷ zs)
unfolding normalize_all
normalize-cons x xs ys h = ground arith

-- Every fingerprint attribute of the description stands for this one fingerprint, of which there is at
-- least one, and it has the form that the schema of a binding asks for.
pub record IsFingerprintOf (sdp value : List ℕ) : Type 0 where
  pub form : matches_fingerprint value ≡ true
  pub attributes : All (λ c. normalize_fingerprint c ≡ ok value) (captures true sdp)
  pub present : captures true sdp ≢ []

same-All :
    (value : List ℕ) (xs ys : List (List ℕ))
    → normalize_all xs ≡ ok ys
    → every (codes_eq value) ys ≡ true
    → All (λ c. normalize_fingerprint c ≡ ok value) xs
unfolding normalize_all every
same-All value [] ys h e = tt
same-All value (x ∷ xs) ys h e =
    let (y, zs, first, rest, split) = normalize-cons x xs ys h in
    let e' : every (codes_eq value) (y ∷ zs) ≡ true = ap (every (codes_eq value)) (sym split) ∙ e in
    (
      first ∙ ap ok (sym (codes_eq-eq value y (ground arith))),
      same-All value xs zs rest (ground arith),
    )

single-cons :
    (x : List ℕ) (xs : List (List ℕ)) (value : List ℕ)
    → single (x ∷ xs) ≡ ok value
    → (every (codes_eq x) xs ≡ true) × (x ≡ value)
unfolding single
single-cons x xs value h = ground arith

single-parts :
    (xs : List (List ℕ)) (value : List ℕ)
    → single xs ≡ ok value
    → (ys : List (List ℕ)) × (xs ≡ value ∷ ys) × (every (codes_eq value) ys ≡ true)
unfolding single
single-parts [] value h = cc
single-parts (x ∷ xs) value h =
    let (other, same) = single-cons x xs value h in
    (xs, ap (λ y. y ∷ xs) same, ap (λ y. every (codes_eq y) xs) (sym same) ∙ other)

extract-parts :
    (sdp value : List ℕ)
    → extract_single_sdp_fingerprint sdp ≡ ok value
    → (ys : List (List ℕ)) × (normalize_all (captures true sdp) ≡ ok ys) × (single ys ≡ ok value)
unfolding extract_single_sdp_fingerprint
extract-parts sdp value h = ground arith

codes_eq_refl : (xs : List ℕ) → codes_eq xs xs ≡ true
unfolding codes_eq
codes_eq_refl [] = refl
codes_eq_refl (x ∷ xs) = ground (arith, codes_eq_refl xs)

module _ (value : List ℕ) where
  first-form :
      (xs ys : List (List ℕ))
      → normalize_all xs ≡ ok (value ∷ ys)
      → (matches_fingerprint value ≡ true) × (xs ≢ [])
  unfolding normalize_all
  first-form [] ys h = cc
  first-form (x ∷ xs) ys h =
      let (y, zs, first, rest, split) = normalize-cons x xs (value ∷ ys) h in
      (normalized x value (first ∙ ap ok (cc split)), λ e. cc)

-- The fingerprint that is returned is in the form of a binding, it stands for every fingerprint
-- attribute of the description, and there is one.
pub extract_single_sdp_fingerprint-IsFingerprintOf :
    (sdp value : List ℕ) → extract_single_sdp_fingerprint sdp ≡ ok value → IsFingerprintOf sdp value
unfolding every
extract_single_sdp_fingerprint-IsFingerprintOf sdp value h =
    let (ys, all, one) = extract-parts sdp value h in
    let (zs, split, same) = single-parts ys value one in
    let all' : normalize_all (captures true sdp) ≡ ok (value ∷ zs) = all ∙ ap ok split in
    let (form, present) = first-form value (captures true sdp) zs all' in
    record {
      form = form;
      attributes =
          same-All value (captures true sdp) (value ∷ zs) all'
            (ground (arith, codes_eq_refl value));
      present = present;
    }
