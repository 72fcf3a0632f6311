-- ===== src/Protocol/Signing.antt =====
-- `hashCanonical`, `signPayload`, `parseJsonNoDuplicateKeys` and `verifyPayload` of
-- packages/protocol/src/index.ts.
pub mod Sound
use Prim.Native.String.{len, ◌++◌}
use call_sign.Prelude.{
  ℕ, ◌≡◌, refl, String, Option, none, some, Bool, List, arith, ltb, not, ◌||◌, ◌==◌, ◌!=◌,
  string_eq, Result, Checked, ok, err, error, invalid_input, throw_if, or_throw, ◌>>=◌, ◌>>◌,
  eq_refl, if◌then◌else◌,
}
use call_sign.Protocol.Json.{Json, Jwk, Header, Jws, Libraries, is_text}
use call_sign.Protocol.Schemas.{max_signed_message_bytes}

-- `callsign/${type}+jws`
abbrev pub jws_typ : String → String
jws_typ type = "callsign/" ++ type ++ "+jws"

-- The shape that zod reads, and the other conditions of a schema.
abbrev pub checked_by {ℓ} : {A : Type ℓ} → (A → Bool) → Option A → Option A
checked_by p none = none
checked_by p (some a) = if p a then some a else none

-- What `verifyPayload` expects of a message, beside its schema.
pub record Expected : Type 0 where
  pub type : String
  pub kid : String

module _ (lib : Libraries) where
  open lib use {
    canonicalize, sha256_hex, compact_verify, compact_sign, decode_utf8, json_validate, json_parse,
  }

  unfoldable pub hash_canonical : Json → String
  hash_canonical value = sha256_hex (canonicalize value)

  -- The payload is given with its `type`, and the key with the `kid` of its pair.
  unfoldable pub sign_payload : Json → String → Jwk → String → String
  sign_payload payload type key kid =
      compact_sign (canonicalize payload)
        (record { alg = some "EdDSA"; typ = some (jws_typ type); cty = none; kid = some kid }) key

  duplicate_check : Option String → Checked
  duplicate_check none = ok tt
  duplicate_check (some e) = err (error ("INVALID_JSON:" ++ e))

  unfoldable pub parse_json_no_duplicate_keys : List ℕ → Result Json
  unfolding duplicate_check
  parse_json_no_duplicate_keys raw = do
    text ← or_throw (decode_utf8 raw) (error "TypeError")
    throw_if (ltb max_signed_message_bytes (len text)) (error "MESSAGE_TOO_LARGE")
    duplicate_check (json_validate text)
    ok (json_parse text)

  -- `schema` is `expected.schema.parse`, and `type_of` reads the field `type` of its value.
  unfoldable pub verify_payload {ℓ} :
      {A : Type ℓ} → (Json → Option A) → (A → String) → String → Jwk → Expected → Result A
  verify_payload schema type_of jws key expected = do
    throw_if (ltb max_signed_message_bytes (len jws)) (error "MESSAGE_TOO_LARGE")
    result ← or_throw (compact_verify jws key) (error "JWSSignatureVerificationFailed")
    let header = result.protected_header
    throw_if
        (not (is_text header.alg "EdDSA")
          || not (is_text header.typ (jws_typ expected.type))
          || not (is_text header.kid expected.kid))
        (error "INVALID_PROTECTED_HEADER")
    parsed ← parse_json_no_duplicate_keys result.payload
    value ← or_throw (schema parsed) invalid_input
    throw_if (type_of value != expected.type) (error "TYPE_CONFUSION")
    ok value
