-- ===== src/Verifier/Bytes.antt =====
-- `equalBytes` of packages/verifier/src/index.ts: a comparison of two byte arrays without early exit.
use Prim.Native.Nat.{bit_or, bit_xor, digits, bit_or-bitwise, bit_xor-bitwise, max, differ}
use call_sign.Prelude.{
  ℕ, zero, suc, ◌/◌, ◌%◌, ◌≤◌, ◌≡◌, refl, ◌↔◌, Bool, true, false, List, [], ◌∷◌, arith, ◌==◌, ◌!=◌,
  nat_eq, length, if◌then◌else◌, ap,
}

-- `difference |= a[index] ^ b[index]`, over the indices of `a`
unfoldable pub bytes_difference : ℕ → List ℕ → List ℕ → ℕ
bytes_difference difference (x ∷ a) (y ∷ b) = bytes_difference (bit_or difference (bit_xor x y)) a b
bytes_difference difference _ _ = difference

unfoldable pub equal_bytes : List ℕ → List ℕ → Bool
unfolding bytes_difference
equal_bytes a b = if length a != length b then false else bytes_difference 0 a b == 0

or_digits-zero : (n a b : ℕ) → a ≤ n → digits (λ b. b) max n a b ≡ 0 → (a ≡ 0) × (b ≡ 0)
or_digits-zero zero zero b p h = (refl, h)
or_digits-zero zero (suc a) b p h = absurd (omega arith)
or_digits-zero (suc n) zero b p h = (refl, h)
or_digits-zero (suc n) (suc a) b p h =
    let r = or_digits-zero n (suc a / 2) (b / 2) (omega arith) (omega arith) in omega arith

differ-zero : (a b : ℕ) → differ a b ≡ 0 → a ≡ b
differ-zero zero b h = omega arith
differ-zero (suc a) zero h = omega arith
differ-zero (suc a) (suc b) h = ap suc (differ-zero a b h)

xor_digits-zero : (n a b : ℕ) → a ≤ n → digits (λ b. b) differ n a b ≡ 0 → a ≡ b
xor_digits-zero zero zero b p h = omega arith
xor_digits-zero zero (suc a) b p h = absurd (omega arith)
xor_digits-zero (suc n) zero b p h = omega arith
xor_digits-zero (suc n) (suc a) b p h =
    let r = xor_digits-zero n (suc a / 2) (b / 2) (omega arith) (omega arith) in
    let s = differ-zero (suc a % 2) (b % 2) (omega arith) in omega arith

bit_or-zero : (a b : ℕ) → bit_or a b ≡ 0 → (a ≡ 0) × (b ≡ 0)
bit_or-zero a b h = or_digits-zero a a b (omega arith) (omega (arith, bit_or-bitwise a b))

bit_xor-zero : (a b : ℕ) → bit_xor a b ≡ 0 → a ≡ b
bit_xor-zero a b h = xor_digits-zero a a b (omega arith) (omega (arith, bit_xor-bitwise a b))

difference-zero :
    (d : ℕ) (a b : List ℕ) → length a ≡ length b → bytes_difference d a b ≡ 0 → (d ≡ 0) × (a ≡ b)
unfolding bytes_difference
difference-zero d [] [] l h = (h, refl)
difference-zero d [] (y ∷ b) l h = absurd (omega arith)
difference-zero d (x ∷ a) [] l h = absurd (omega arith)
difference-zero d (x ∷ a) (y ∷ b) l h =
    let r = difference-zero (bit_or d (bit_xor x y)) a b (omega arith) h in
    let s = bit_or-zero d (bit_xor x y) r.0 in let t = bit_xor-zero x y s.1 in (s.0, cc)

differ_self : (a : ℕ) → differ a a ≡ 0
differ_self zero = refl
differ_self (suc a) = differ_self a

xor_digits_self : (n a : ℕ) → a ≤ n → digits (λ b. b) differ n a a ≡ 0
xor_digits_self zero a p = omega arith
xor_digits_self (suc n) zero p = refl
xor_digits_self (suc n) (suc a) p =
    omega (arith, xor_digits_self n (suc a / 2) (omega arith), differ_self (suc a % 2))

bit_xor_self : (a : ℕ) → bit_xor a a ≡ 0
bit_xor_self a = omega (arith, bit_xor-bitwise a a, xor_digits_self a a (omega arith))

difference_self : (a : List ℕ) → bytes_difference 0 a a ≡ 0
unfolding bytes_difference
difference_self [] = refl
difference_self (x ∷ a) = rw bit_xor_self (difference_self a)

same-equal_bytes : (a b : List ℕ) → a ≡ b → equal_bytes a b ≡ true
unfolding equal_bytes
same-equal_bytes a b e = rw (← e) (ground (arith, difference_self a))

equal_bytes-same : (a b : List ℕ) → equal_bytes a b ≡ true → a ≡ b
unfolding equal_bytes
equal_bytes-same a b h =
    let l : length a ≡ length b = ground arith in
    let d : bytes_difference 0 a b ≡ 0 = ground arith in (difference-zero 0 a b l d).1

-- The comparison that never stops early returns true exactly on equal arrays.
pub equal_bytes_iff : (a b : List ℕ) → (equal_bytes a b ≡ true) ↔ (a ≡ b)
equal_bytes_iff a b = (equal_bytes-same a b, same-equal_bytes a b)
