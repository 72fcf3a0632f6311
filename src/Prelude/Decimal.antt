-- ===== src/Prelude/Decimal.antt =====
-- `String(n)` of a whole number, as services/api/src/ledger.ts and services/witness/src/server.ts print
-- what they read from the ledger.
use Prim.Native.Nat.{ℕ, zero, suc, ◌+◌, ◌-◌, ◌*◌, ◌/◌, ◌%◌, ◌^◌, ◌<◌}
use Prim.Native.Char.{char}
use Prim.Native.String.{String}
use mathlib.Core.Path.{◌≡◌, refl, ap, ◌∙◌}
use mathlib.Core.Logic.{inl, inr}
use mathlib.Core.List.{◌∷◌}
use native.Mathlib.Omega.{arith}
use call_sign.Prelude.Tests.{ltb, Bool-cases, if◌then◌else◌, nat_beq}
use call_sign.Prelude.Text.{codes, big_int_from, big_int}

unfoldable digit : ℕ → String → String
digit d s =
    if nat_beq d 0
    then String.◌∷◌ (char b'0' tt) s
    else if nat_beq d 1
    then String.◌∷◌ (char b'1' tt) s
    else if nat_beq d 2
    then String.◌∷◌ (char b'2' tt) s
    else if nat_beq d 3
    then String.◌∷◌ (char b'3' tt) s
    else if nat_beq d 4
    then String.◌∷◌ (char b'4' tt) s
    else if nat_beq d 5
    then String.◌∷◌ (char b'5' tt) s
    else if nat_beq d 6
    then String.◌∷◌ (char b'6' tt) s
    else if nat_beq d 7
    then String.◌∷◌ (char b'7' tt) s
    else if nat_beq d 8
    then String.◌∷◌ (char b'8' tt) s
    else String.◌∷◌ (char b'9' tt) s

-- The digits of `n` before `s`, at most `fuel` of them.
unfoldable decimal_from : ℕ → ℕ → String → String
unfolding digit
decimal_from zero n s = s
decimal_from (suc fuel) n s =
    let rest = decimal_from fuel (n / 10) (digit (n % 10) s) in if ltb n 10 then digit n s else rest

-- A word of the ledger has at most 78 digits.
unfoldable pub decimal : ℕ → String
unfolding decimal_from
decimal n = decimal_from 78 n ""

codes-digit : (d : ℕ) (s : String) → d < 10 → codes (digit d s) ≡ (d + b'0') ∷ codes s
unfolding digit codes
codes-digit zero s h = refl
codes-digit (suc zero) s h = refl
codes-digit (suc (suc zero)) s h = refl
codes-digit (suc (suc (suc zero))) s h = refl
codes-digit (suc (suc (suc (suc zero)))) s h = refl
codes-digit (suc (suc (suc (suc (suc zero))))) s h = refl
codes-digit (suc (suc (suc (suc (suc (suc zero)))))) s h = refl
codes-digit (suc (suc (suc (suc (suc (suc (suc zero))))))) s h = refl
codes-digit (suc (suc (suc (suc (suc (suc (suc (suc zero)))))))) s h = refl
codes-digit (suc (suc (suc (suc (suc (suc (suc (suc (suc zero))))))))) s h = refl
codes-digit (suc (suc (suc (suc (suc (suc (suc (suc (suc (suc d)))))))))) s h = ground arith

big_int-digit :
    (m d : ℕ) (s : String)
    → d < 10
    → big_int_from m (codes (digit d s)) ≡ big_int_from (m * 10 + d) (codes s)
unfolding big_int_from
big_int-digit m d s h =
    ap (big_int_from m) (codes-digit d s h)
    ∙ ap (λ n. big_int_from n (codes s)) {x = m * 10 + (d + b'0' - b'0')} (omega arith)

decimal_from_lem :
    (fuel n : ℕ) (s : String)
    → n < 10 ^ fuel
    → big_int_from 0 (codes (decimal_from fuel n s)) ≡ big_int_from n (codes s)
unfolding decimal_from
decimal_from_lem zero n s h = ap (λ m. big_int_from m (codes s)) {x = 0} (omega arith)
decimal_from_lem (suc fuel) n s h = elim (Bool-cases (ltb n 10)) [
  | inl small ↦ rw small (
      big_int-digit 0 n s (ground arith)
      ∙ ap (λ m. big_int_from m (codes s)) {x = 0 * 10 + n} (omega arith))
  | inr large ↦ rw large (
      decimal_from_lem fuel (n / 10) (digit (n % 10) s) (omega arith)
      ∙ big_int-digit (n / 10) (n % 10) s (omega arith)
      ∙ ap (λ m. big_int_from m (codes s)) {x = n / 10 * 10 + n % 10} (omega arith))
]

-- Enough digits: what is printed reads back.
pub big_int-decimal : (n : ℕ) → n < 10 ^ 78 → big_int (decimal n) ≡ n
unfolding decimal big_int
big_int-decimal n h = decimal_from_lem 78 n "" h
