-- ===== src/Prelude/Text.antt =====
-- Texts as lists of code points, where the source looks inside them.
use Prim.Native.Nat.{ℕ, ◌+◌, ◌-◌, ◌*◌}
use Prim.Native.Char.{code}
use Prim.Native.String.{String}
use mathlib.Core.Bool.{Bool, true, false, ◌&&◌, ◌||◌}
use mathlib.Core.List.{List, [], ◌∷◌, map}
use text.Mathlib.Text.{starts_with}
use call_sign.Prelude.Tests.{◌==◌, string_eq, if◌then◌else◌, leb, nat_beq}
use call_sign.Prelude.Lists.{every, length}

unfoldable pub codes : String → List ℕ
codes String.[] = []
codes (String.◌∷◌ c s) = code c ∷ codes s

-- `s.length`: UTF-16 code units.
unfoldable pub utf16_length : String → ℕ
utf16_length String.[] = 0
utf16_length (String.◌∷◌ c s) = (if leb 0x10000 (code c) then 2 else 1) + utf16_length s

abbrev pub is_digit : ℕ → Bool
is_digit c = leb b'0' c && leb c b'9'

abbrev pub is_lower_hex : ℕ → Bool
is_lower_hex c = is_digit c || leb b'a' c && leb c b'f'

abbrev pub is_upper_hex : ℕ → Bool
is_upper_hex c = is_digit c || leb b'A' c && leb c b'F'

abbrev pub is_hex : ℕ → Bool
is_hex c = is_lower_hex c || is_upper_hex c

-- `/^[class]{n}$/`
unfoldable pub matches_class : (ℕ → Bool) → ℕ → List ℕ → Bool
unfolding every
matches_class p n s = nat_beq (length s) n && every p s

-- `/^0x[class]{n}$/`
unfoldable pub matches_0x : (ℕ → Bool) → ℕ → List ℕ → Bool
unfolding matches_class
matches_0x p n (z ∷ x ∷ s) = nat_beq z b'0' && nat_beq x b'x' && matches_class p n s
matches_0x p n _ = false

-- `/^\d+$/`
unfoldable pub matches_digits : List ℕ → Bool
unfolding every
matches_digits [] = false
matches_digits (c ∷ s) = every is_digit (c ∷ s)

-- `/^(0|[1-9][0-9]*)$/`
unfoldable pub matches_decimal : List ℕ → Bool
unfolding every
matches_decimal [] = false
matches_decimal (c ∷ []) = is_digit c
matches_decimal (c ∷ d ∷ s) = leb b'1' c && leb c b'9' && every is_digit (d ∷ s)

-- `BigInt(s)` of a text of decimal digits.
unfoldable pub big_int_from : ℕ → List ℕ → ℕ
big_int_from n [] = n
big_int_from n (c ∷ s) = big_int_from (n * 10 + (c - b'0')) s

unfoldable pub big_int : String → ℕ
unfolding codes big_int_from
big_int s = big_int_from 0 (codes s)

-- `c.toLowerCase()` of an ASCII letter.
abbrev pub to_lower : ℕ → ℕ
to_lower c = if leb b'A' c && leb c b'Z' then c + 32 else c

-- `a === b` of two lists of code points.
unfoldable pub codes_eq : List ℕ → List ℕ → Bool
codes_eq [] [] = true
codes_eq (x ∷ xs) (y ∷ ys) = nat_beq x y && codes_eq xs ys
codes_eq _ _ = false

-- `a.toLowerCase() === b.toLowerCase()`
unfoldable pub same_lower : String → String → Bool
unfolding codes codes_eq
same_lower a b = codes_eq (map to_lower (codes a)) (map to_lower (codes b))

-- `z.string().min(lo).max(hi)`
unfoldable pub has_length : ℕ → ℕ → String → Bool
unfolding utf16_length
has_length lo hi s = leb lo (utf16_length s) && leb (utf16_length s) hi

-- `text.includes(part)`
unfoldable pub includes : String → String → Bool
includes String.[] part = part == ""
includes (String.◌∷◌ c s) part =
    let rest = includes s part in starts_with (String.◌∷◌ c s) part || rest
