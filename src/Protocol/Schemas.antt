-- ===== src/Protocol/Schemas.antt =====
-- Checks that the schemas of packages/protocol/src/index.ts and packages/protocol/src/finals.ts share.
-- A schema is a record, whose fields have the types of the schema, and a test of its other conditions.
use call_sign.Prelude.{
  ℕ, suc, ◌*◌, String, Bool, true, false, ◌&&◌, ◌||◌, List, [], ◌∷◌, Option, none, some, ◌==◌,
  string_eq, leb,
}
use call_sign.Protocol.Json.{Jwk}
use call_sign.Prelude.Tests.{nat_beq}
use call_sign.Prelude.Text.{codes, is_hex, is_lower_hex, is_upper_hex, matches_0x, matches_class}

-- `MAX_SIGNED_MESSAGE_BYTES`
abbrev pub max_signed_message_bytes : ℕ
max_signed_message_bytes = 32 * 1024

-- `/^0x[0-9a-fA-F]{40}$/`
unfoldable pub is_address : String → Bool
unfolding codes matches_0x
is_address s = matches_0x is_hex 40 (codes s)

-- `/^[0-9a-f]{64}$/`
unfoldable pub is_digest : String → Bool
unfolding codes matches_class
is_digest s = matches_class is_lower_hex 64 (codes s)

-- `n` groups of a colon and two digits.
unfoldable pub hex_groups : ℕ → List ℕ → Bool
hex_groups n [] = nat_beq n 0
hex_groups (suc n) (c ∷ a ∷ b ∷ s) =
    nat_beq c b':' && is_upper_hex a && is_upper_hex b && hex_groups n s
hex_groups _ _ = false

-- `/^[0-9A-F]{2}(?::[0-9A-F]{2}){31}$/`
unfoldable pub matches_fingerprint : List ℕ → Bool
unfolding hex_groups
matches_fingerprint (a ∷ b ∷ s) = is_upper_hex a && is_upper_hex b && hex_groups 31 s
matches_fingerprint _ = false

unfoldable pub is_fingerprint : String → Bool
unfolding codes matches_fingerprint
is_fingerprint s = matches_fingerprint (codes s)

abbrev is_base64url : ℕ → Bool
is_base64url c =
    leb b'A' c && leb c b'Z'
    || leb b'a' c && leb c b'z'
    || leb b'0' c && leb c b'9'
    || nat_beq c b'_'
    || nat_beq c b'-'

abbrev is_absent : Option String → Bool
is_absent none = true
is_absent (some _) = false

-- `publicKeySchema` of packages/protocol/src/finals.ts
unfoldable pub public_key_conforms : Jwk → Bool
unfolding codes matches_class
public_key_conforms k =
    k.kty == "OKP"
    && k.crv == "Ed25519"
    && matches_class is_base64url 43 (codes k.x)
    && is_absent k.d
