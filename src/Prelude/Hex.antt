-- ===== src/Prelude/Hex.antt =====
-- The hexadecimal text of a key, as apps/web/src/lib/rtc.ts and packages/verifier/src/finals.ts write it.
use Prim.Native.Nat.{ℕ, ◌+◌, ◌-◌, ◌/◌, ◌%◌}
use mathlib.Core.List.{List, [], ◌∷◌, ◌++◌}
use call_sign.Prelude.Tests.{ltb, nat_beq, if◌then◌else◌}

-- `toString(16)` of one digit, in lower case.
abbrev hex_digit : ℕ → ℕ
hex_digit d = if ltb d 10 then d + b'0' else d - 10 + b'a'

-- `byte.toString(16).padStart(2, "0")`
abbrev hex_byte : ℕ → List ℕ
hex_byte b = hex_digit (b / 16) ∷ hex_digit (b % 16) ∷ []

unfoldable pub hex : List ℕ → List ℕ
hex [] = []
hex (b ∷ s) = hex_byte b ++ hex s

-- `.replace(/-/g, "+").replace(/_/g, "/")`
abbrev pub from_url : ℕ → ℕ
from_url c = if nat_beq c b'-' then b'+' else if nat_beq c b'_' then b'/' else c
