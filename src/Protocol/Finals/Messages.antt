-- ===== src/Protocol/Finals/Messages.antt =====
-- The signed messages of protocol version 2: packages/protocol/src/finals.ts.
use call_sign.Prelude.{none, ℕ, String, Bool, ◌&&◌, [], ◌∷◌, leb}
use call_sign.Prelude.Text.{has_length, matches_digits, codes}
use call_sign.Protocol.Json.{Json, text, num, object, Jwk, Jwk_json}
use call_sign.Protocol.Temporal.{Clock, max_safe_integer}
use call_sign.Protocol.Schemas.{is_address, is_digest, public_key_conforms}
use call_sign.Protocol.Finals.Credential.{fraud_confirmation}

-- `permitSchema`
pub record SessionPermit : Type 0 where
  pub network_id : String
  pub registry_address : String
  pub issued_at : ℕ
  pub expires_at : ℕ
  pub institution_id : String
  pub intent_id : String
  pub attempt_id : String
  pub agent_id : String
  pub service_did : String
  pub service_key_version : ℕ
  pub browser_public_key : Jwk
  pub session_id : String
  pub policy_hash : String
  pub vc_digest : String

unfoldable pub session_permit_conforms : SessionPermit → Bool
session_permit_conforms v =
    has_length 3 200 v.network_id
    && is_address v.registry_address
    && leb v.issued_at max_safe_integer
    && leb v.expires_at max_safe_integer
    && has_length 3 200 v.institution_id
    && has_length 3 200 v.intent_id
    && has_length 3 200 v.attempt_id
    && has_length 3 200 v.agent_id
    && has_length 3 200 v.service_did
    && leb 1 v.service_key_version
    && leb v.service_key_version max_safe_integer
    && public_key_conforms v.browser_public_key
    && has_length 3 200 v.session_id
    && is_digest v.policy_hash
    && is_digest v.vc_digest

abbrev pub session_permit_json : SessionPermit → Json
session_permit_json v = object (
    ("protocol", text "callsign")
    ∷ ("version", num 2)
    ∷ ("type", text "SenderSessionPermit")
    ∷ ("networkId", text v.network_id)
    ∷ ("registryAddress", text v.registry_address)
    ∷ ("issuedAt", num v.issued_at)
    ∷ ("expiresAt", num v.expires_at)
    ∷ ("institutionId", text v.institution_id)
    ∷ ("intentId", text v.intent_id)
    ∷ ("attemptId", text v.attempt_id)
    ∷ ("agentId", text v.agent_id)
    ∷ ("serviceDid", text v.service_did)
    ∷ ("serviceKeyVersion", num v.service_key_version)
    ∷ ("browserPublicKey", Jwk_json v.browser_public_key)
    ∷ ("sessionId", text v.session_id)
    ∷ ("policyHash", text v.policy_hash)
    ∷ ("vcDigest", text v.vc_digest)
    ∷ [])

-- `authorizationV2Schema`; its purpose is a literal
pub record ContactAuthorizationV2 : Type 0 where
  pub network_id : String
  pub registry_address : String
  pub issued_at : ℕ
  pub expires_at : ℕ
  pub authorization_id : String
  pub institution_id : String
  pub issuer_did : String
  pub approval_key_version : ℕ
  pub epoch : String
  pub intent_id : String
  pub attempt_id : String
  pub recipient_id : String
  pub policy_hash : String
  pub vc_digest : String
  pub permit_hash : String
  pub session_id : String
  pub browser_key_hash : String

unfoldable pub authorization_v2_conforms : ContactAuthorizationV2 → Bool
authorization_v2_conforms v =
    has_length 3 200 v.network_id
    && is_address v.registry_address
    && leb v.issued_at max_safe_integer
    && leb v.expires_at max_safe_integer
    && has_length 3 200 v.authorization_id
    && has_length 3 200 v.institution_id
    && has_length 3 200 v.issuer_did
    && leb 1 v.approval_key_version
    && leb v.approval_key_version max_safe_integer
    && matches_digits (codes v.epoch)
    && has_length 3 200 v.intent_id
    && has_length 3 200 v.attempt_id
    && has_length 3 200 v.recipient_id
    && is_digest v.policy_hash
    && is_digest v.vc_digest
    && is_digest v.permit_hash
    && has_length 3 200 v.session_id
    && is_digest v.browser_key_hash

abbrev pub authorization_v2_json : ContactAuthorizationV2 → Json
authorization_v2_json v = object (
    ("protocol", text "callsign")
    ∷ ("version", num 2)
    ∷ ("type", text "ContactAuthorization")
    ∷ ("purpose", text fraud_confirmation)
    ∷ ("networkId", text v.network_id)
    ∷ ("registryAddress", text v.registry_address)
    ∷ ("issuedAt", num v.issued_at)
    ∷ ("expiresAt", num v.expires_at)
    ∷ ("authorizationId", text v.authorization_id)
    ∷ ("institutionId", text v.institution_id)
    ∷ ("issuerDid", text v.issuer_did)
    ∷ ("approvalKeyVersion", num v.approval_key_version)
    ∷ ("epoch", text v.epoch)
    ∷ ("intentId", text v.intent_id)
    ∷ ("attemptId", text v.attempt_id)
    ∷ ("recipientId", text v.recipient_id)
    ∷ ("policyHash", text v.policy_hash)
    ∷ ("vcDigest", text v.vc_digest)
    ∷ ("permitHash", text v.permit_hash)
    ∷ ("sessionId", text v.session_id)
    ∷ ("browserKeyHash", text v.browser_key_hash)
    ∷ [])

abbrev pub permit_clock : SessionPermit → Clock
permit_clock v = record { issued_at = v.issued_at; expires_at = v.expires_at; not_before = none }

abbrev pub authorization_v2_clock : ContactAuthorizationV2 → Clock
authorization_v2_clock v = record {
  issued_at = v.issued_at;
  expires_at = v.expires_at;
  not_before = none;
}
