-- ===== src/Protocol/Json.antt =====
-- JSON values, public keys and signed messages, and the libraries that packages/protocol/src/index.ts
-- takes them to: json-canonicalize, @noble/hashes, jose and json-dup-key-validator.
use call_sign.Prelude.{ℕ, String, Option, none, some, List, [], ◌∷◌, Bool, false, ◌==◌, string_eq}

mutual
  pub data Json : Type 0 where
    null : Json
    bool : Bool → Json
    num : ℕ → Json
    text : String → Json
    -- the text of an instant, `new Date(ms).toISOString()`
    date : ℕ → Json
    arr : Items → Json
    obj : Fields → Json

  pub data Items : Type 0 where
    nil : Items
    cons : Json → Items → Items

  pub data Fields : Type 0 where
    end : Fields
    field : String → Json → Fields → Fields

abbrev pub fields : List (String × Json) → Fields
fields [] = end
fields ((k, v) ∷ m) = field k v (fields m)

-- An object literal.
abbrev pub object : List (String × Json) → Json
object m = obj (fields m)

abbrev pub items : List Json → Items
items [] = nil
items (v ∷ m) = cons v (items m)

-- jose's JWK, in the fields that the source reads.
pub record Jwk : Type 0 where
  pub kty : String
  pub crv : String
  pub x : String
  pub d : Option String

abbrev optional : String → Option String → List (String × Json)
optional k none = []
optional k (some v) = (k, text v) ∷ []

abbrev pub Jwk_json : Jwk → Json
Jwk_json k = object (("kty", text k.kty) ∷ ("crv", text k.crv) ∷ ("x", text k.x) ∷ optional "d" k.d)

pub record Header : Type 0 where
  pub alg : Option String
  pub typ : Option String
  pub cty : Option String
  pub kid : Option String

pub record Jws : Type 0 where
  pub protected_header : Header
  pub payload : List ℕ

-- A header field that is missing equals no text.
abbrev pub is_text : Option String → String → Bool
is_text none s = false
is_text (some t) s = t == s

pub record Libraries : Type 0 where
  -- `new TextEncoder().encode(canonicalize(value))`
  pub canonicalize : Json → List ℕ
  -- `bytesToHex(sha256(bytes))`
  pub sha256_hex : List ℕ → String
  -- `importJWK` and then `compactVerify` with the algorithm EdDSA; `none` where either throws
  pub compact_verify : String → Jwk → Option Jws
  -- `new CompactSign(bytes).setProtectedHeader(header).sign(key)`; a key goes by its public half
  pub compact_sign : List ℕ → Header → Jwk → String
  -- `new TextDecoder("utf-8", { fatal: true }).decode(bytes)`
  pub decode_utf8 : List ℕ → Option String
  -- `validate(text, false)` of json-dup-key-validator, which returns an error or nothing
  pub json_validate : String → Option String
  -- `parse(text, false)` of json-dup-key-validator
  pub json_parse : String → Json
