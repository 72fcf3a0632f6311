-- ===== src/Protocol/Finals.antt =====
-- packages/protocol/src/finals.ts: protocol version 2.
pub mod Credential
pub mod Messages
pub mod Binding
pub mod Status
use call_sign.Prelude.{
  String, Option, none, some, Bool, not, ◌||◌, List, ltb, Result, ok, error, invalid_input,
  throw_if, or_throw, ◌>>=◌, ◌>>◌,
}
use call_sign.Prelude.Text.{utf16_length}
use call_sign.Protocol.Json.{Json, Jwk, Libraries, is_text}
use call_sign.Protocol.Signing.{hash_canonical, parse_json_no_duplicate_keys}
use Credential.{
  PurposePolicy, policy_conforms, policy_json, DelegationCredential, credential_conforms,
  credential_json,
}

module _ (lib : Libraries) where
  -- `policyHash`; it throws on a policy outside the schema
  unfoldable pub policy_hash : PurposePolicy → Result String
  policy_hash policy = do
    throw_if (not (policy_conforms policy)) invalid_input
    ok (hash_canonical lib (policy_json policy))

  -- `vcDigest`
  unfoldable pub vc_digest : DelegationCredential → Result String
  vc_digest vc = do
    throw_if (not (credential_conforms vc)) invalid_input
    ok (hash_canonical lib (credential_json vc))

  -- `signDelegationVc`, on a key given with its `kid`
  unfoldable pub sign_delegation_vc : DelegationCredential → Jwk → String → Result String
  sign_delegation_vc vc key kid = do
    throw_if (not (credential_conforms vc)) invalid_input
    ok (
        lib.compact_sign (lib.canonicalize (credential_json vc))
          (record { alg = some "EdDSA"; typ = some "vc+jwt"; cty = some "vc"; kid = some kid }) key)

  -- `verifyDelegationVc`; `schema` is `delegationVcSchema.parse`
  unfoldable pub verify_delegation_vc :
      (Json → Option DelegationCredential) → String → Jwk → String → Result DelegationCredential
  verify_delegation_vc schema jws key kid = do
    throw_if (ltb 32768 (utf16_length jws)) (error "MESSAGE_TOO_LARGE")
    result ← or_throw (lib.compact_verify jws key) (error "JWSSignatureVerificationFailed")
    let header = result.protected_header
    throw_if
        (not (is_text header.typ "vc+jwt")
          || not (is_text header.cty "vc")
          || not (is_text header.kid kid))
        (error "VC_HEADER_MISMATCH")
    parsed ← parse_json_no_duplicate_keys lib result.payload
    or_throw (schema parsed) invalid_input
