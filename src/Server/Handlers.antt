-- ===== src/Server/Handlers.antt =====
-- The handlers of services/api/src/server.ts that read or write the database. A handler returns its
-- reply and the database that it leaves; where it throws the database stays as it was, except in
-- `register_gateway` and `consume_authorization`, which may throw after a statement has been committed and
-- return a result beside the database. `now` is `now()` and `now_ms`
-- is the time of `new Date()`, with which sessions are compared.
pub mod Login
pub mod Contact
pub mod Consume
pub mod Safe
pub mod Possession
use call_sign.Prelude.{
  ℕ, String, Option, none, some, Bool, true, false, not, ◌&&◌, ◌||◌, ◌==◌, ◌!=◌, string_eq,
  if◌then◌else◌, Result, Checked, ok, err, http_error, throw_if, ◌>>=◌, ◌>>◌,
}
use call_sign.Prelude.Text.{has_length}
use call_sign.Protocol.Json.{Json, Jwk, Libraries}
use call_sign.Protocol.Signing.{checked_by}
use call_sign.Protocol.Contact.{
  EnrollmentProof, enrollment_proof_conforms, RecipientChallenge, recipient_challenge_conforms,
}
use call_sign.Protocol.Session.{GatewayConsumeRequest, gateway_consume_request_conforms}

-- A signing key by its public half.
pub record KeyPair : Type 0 where
  pub public_jwk : Jwk
  pub kid : String

-- What `ensureLedgerDelegation` is asked for.
pub record DelegationQuery : Type 0 where
  pub delegation_id : String
  pub institution_id : String
  pub gateway_public_jwk : Jwk
  pub purpose_mask : ℕ
  pub now : ℕ

-- The options and the values that `buildServer` computes before its handlers. The hashes, the shapes
-- that zod reads and the ledger are parameters.
pub record ServerOptions : Type 0 where
  pub lib : Libraries
  pub token_hash : String → String
  -- the first 22 characters of the base64url text of the SHA-256 of `x`
  pub thumbprint : String → String
  pub web_origin : String
  pub demo_mode : Bool
  pub network_id : String
  pub registry_address : String
  pub issuer_key : KeyPair
  pub enrollment_key : KeyPair
  pub ensure_delegation : DelegationQuery → Result String
  pub read_enrollment : Json → Option EnrollmentProof
  pub read_challenge : Json → Option RecipientChallenge
  pub read_consume_request : Json → Option GatewayConsumeRequest

abbrev pub enrollment_schema : ServerOptions → Json → Option EnrollmentProof
enrollment_schema o v = checked_by enrollment_proof_conforms (o.read_enrollment v)

abbrev pub challenge_schema : ServerOptions → Json → Option RecipientChallenge
challenge_schema o v = checked_by recipient_challenge_conforms (o.read_challenge v)

abbrev pub consume_request_schema : ServerOptions → Json → Option GatewayConsumeRequest
consume_request_schema o v = checked_by gateway_consume_request_conforms (o.read_consume_request v)

abbrev no_private_part : Option String → Bool
no_private_part none = true
no_private_part (some _) = false

-- `publicKeyBody`
unfoldable pub key_body_conforms : Jwk → String → Bool
key_body_conforms jwk kid =
    jwk.kty == "OKP" && jwk.crv == "Ed25519" && no_private_part jwk.d && has_length 8 64 kid

unfoldable pub assert_kid : ServerOptions → Jwk → String → Checked
assert_kid o jwk kid = do
  throw_if (jwk.kty != "OKP" || jwk.crv != "Ed25519" || not (no_private_part jwk.d))
      (http_error 400 "INVALID_PUBLIC_KEY")
  throw_if (o.thumbprint jwk.x != kid) (http_error 400 "KID_MISMATCH")
