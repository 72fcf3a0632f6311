-- ===== src/Protocol/Signing/Sound.antt =====
-- `verifyPayload` of packages/protocol/src/index.ts, alone and after `signPayload`.
use Prim.Native.String.{len}
use call_sign.Prelude.{
  ℕ, ◌≤◌, ◌≡◌, String, Option, none, some, true, List, arith, eq_iff, eq_refl, ok,
}
use call_sign.Protocol.Json.{Json, Jwk, Header, Jws, Libraries, is_text}
use call_sign.Protocol.Schemas.{max_signed_message_bytes}
use call_sign.Protocol.Signing.{
  Expected, jws_typ, sign_payload, parse_json_no_duplicate_keys, verify_payload,
}

is_text-eq : (o : Option String) (s : String) → is_text o s ≡ true → o ≡ some s
is_text-eq none s h = cc
is_text-eq (some t) s h = ground (arith, eq_iff t s)

module _ (lib : Libraries) where
  -- The bytes are those of a text that is valid JSON without duplicate keys, and stands for `value`.
  pub record IsJson (raw : List ℕ) (value : Json) : Type 0 where
    pub text : String
    pub decoded : lib.decode_utf8 raw ≡ some text
    pub fits : len text ≤ max_signed_message_bytes
    pub unique_keys : lib.json_validate text ≡ none
    pub parsed : lib.json_parse text ≡ value

  -- `jws` is a message that `key` signed under the expected headers, and its payload is `value`.
  pub record IsSigned {ℓ} {A : Type ℓ} (schema : Json → Option A) (type_of : A → String)
      (jws : String) (key : Jwk) (expected : Expected) (value : A) : Type ℓ where
    pub message : Jws
    pub signature : lib.compact_verify jws key ≡ some message
    pub alg : message.protected_header.alg ≡ some "EdDSA"
    pub typ : message.protected_header.typ ≡ some (jws_typ expected.type)
    pub kid : message.protected_header.kid ≡ some expected.kid
    pub json : Json
    pub body : IsJson message.payload json
    pub fits_schema : schema json ≡ some value
    pub type : type_of value ≡ expected.type

  json-parts :
      (raw : List ℕ) (v : Json)
      → parse_json_no_duplicate_keys lib raw ≡ ok v
      → (t : String) × (lib.decode_utf8 raw ≡ some t)
        × (len t ≤ max_signed_message_bytes)
        × (lib.json_validate t ≡ none)
        × (lib.json_parse t ≡ v)
  unfolding parse_json_no_duplicate_keys
  json-parts raw v h = ground arith

  message-parts {ℓ} :
      {A : Type ℓ} (schema : Json → Option A) (type_of : A → String) (jws : String) (key : Jwk)
      (expected : Expected) (value : A)
      → verify_payload lib schema type_of jws key expected ≡ ok value
      → (m : Jws) × (lib.compact_verify jws key ≡ some m)
        × (is_text m.protected_header.alg "EdDSA" ≡ true)
        × (is_text m.protected_header.typ (jws_typ expected.type) ≡ true)
        × (is_text m.protected_header.kid expected.kid ≡ true)
        × (j : Json) × (parse_json_no_duplicate_keys lib m.payload ≡ ok j)
        × (schema j ≡ some value)
        × (type_of value ≡ expected.type)
  unfolding verify_payload
  message-parts schema type_of jws key expected value h =
      ground (arith, eq_iff (type_of value) expected.type)

  -- A value that `verifyPayload` returns is the payload of a message that the given key signed, with
  -- the expected `typ` and `kid`, whose bytes are JSON without duplicate keys that fits the schema.
  pub verify_payload-IsSigned {ℓ} :
      {A : Type ℓ} (schema : Json → Option A) (type_of : A → String) (jws : String) (key : Jwk)
      (expected : Expected) (value : A)
      → verify_payload lib schema type_of jws key expected ≡ ok value
      → IsSigned schema type_of jws key expected value
  verify_payload-IsSigned schema type_of jws key expected value h =
      let (m, sig, alg, typ, kid, j, body, fits, type) =
        message-parts schema type_of jws key expected value h in
      let (t, decoded, small, unique, parsed) = json-parts m.payload j body in
      record {
        message = m;
        signature = sig;
        alg = is_text-eq _ _ alg;
        typ = is_text-eq _ _ typ;
        kid = is_text-eq _ _ kid;
        json = j;
        body = record {
          text = t;
          decoded = decoded;
          fits = small;
          unique_keys = unique;
          parsed = parsed;
        };
        fits_schema = fits;
        type = type;
      }

  -- The header that `signPayload` protects.
  abbrev pub signed_header : String → String → Header
  signed_header type kid = record {
    alg = some "EdDSA";
    typ = some (jws_typ type);
    cty = none;
    kid = some kid;
  }

  -- What a signature and the JSON libraries promise of one payload and header: the signature verifies
  -- under the key that made it, and the canonical text of the payload is read back as `value`.
  pub record Reads {ℓ} {A : Type ℓ} (schema : Json → Option A) (payload : Json) (header : Header)
      (key : Jwk) (value : A) : Type ℓ where
    pub verifies :
        lib.compact_verify (lib.compact_sign (lib.canonicalize payload) header key) key
        ≡ some (record { protected_header = header; payload = lib.canonicalize payload })
    pub text : String
    pub decoded : lib.decode_utf8 (lib.canonicalize payload) ≡ some text
    pub fits : len text ≤ max_signed_message_bytes
    pub unique_keys : lib.json_validate text ≡ none
    pub read_back : schema (lib.json_parse text) ≡ some value

  -- What `signPayload` signed, `verifyPayload` returns under the same key, `type` and `kid`, if the
  -- libraries read the signature and the JSON back, without a repeated key and as a value of the schema,
  -- and the signed message and its text are within the size limit.
  pub verify_payload-sign_payload {ℓ} :
      {A : Type ℓ} (schema : Json → Option A) (type_of : A → String) (payload : Json) (key : Jwk)
      (kid : String) (value : A)
      → Reads schema payload (signed_header (type_of value) kid) key value
      → len (sign_payload lib payload (type_of value) key kid) ≤ max_signed_message_bytes
      → verify_payload lib schema type_of
          (sign_payload lib payload (type_of value) key kid)
          key
          (record { type = type_of value; kid = kid })
        ≡ ok value
  unfolding verify_payload sign_payload parse_json_no_duplicate_keys
  verify_payload-sign_payload schema type_of payload key kid value r fits = ground (
    arith,
    r.verifies,
    r.decoded,
    r.fits,
    r.unique_keys,
    r.read_back,
    eq_refl "EdDSA",
    eq_refl (jws_typ (type_of value)),
    eq_refl kid,
    eq_refl (type_of value),
  )
