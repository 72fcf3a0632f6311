-- ===== src/Protocol/Session.antt =====
-- The messages of protocol version 1 in packages/protocol/src/index.ts that bind a session.
use call_sign.Prelude.{ℕ, String, Bool, ◌&&◌, [], ◌∷◌, none, leb}
use call_sign.Prelude.Text.{has_length, matches_decimal, codes}
use call_sign.Protocol.Json.{Json, text, num, object}
use call_sign.Protocol.Temporal.{Clock, max_safe_integer}
use call_sign.Protocol.Schemas.{is_address, is_digest, is_fingerprint}

-- `sessionBindingSchema`; its two literal fields are `sha-256` and `webrtc-bundle-v1`
pub record SessionBinding : Type 0 where
  pub network_id : String
  pub registry_address : String
  pub authorization_hash : String
  pub session_id : String
  pub institution_id : String
  pub epoch : String
  pub delegation_id : String
  pub recipient_id : String
  pub recipient_nonce : String
  pub recipient_session_key_hash : String
  pub gateway_fingerprint : String
  pub receiver_fingerprint : String
  pub offer_sdp_hash : String
  pub answer_sdp_hash : String
  pub issued_at : ℕ
  pub expires_at : ℕ

unfoldable pub session_binding_conforms : SessionBinding → Bool
session_binding_conforms v =
    matches_decimal (codes v.network_id)
    && is_address v.registry_address
    && is_digest v.authorization_hash
    && has_length 16 128 v.session_id
    && has_length 16 128 v.institution_id
    && matches_decimal (codes v.epoch)
    && has_length 16 128 v.delegation_id
    && has_length 16 128 v.recipient_id
    && has_length 16 128 v.recipient_nonce
    && is_digest v.recipient_session_key_hash
    && is_fingerprint v.gateway_fingerprint
    && is_fingerprint v.receiver_fingerprint
    && is_digest v.offer_sdp_hash
    && is_digest v.answer_sdp_hash
    && leb v.issued_at max_safe_integer
    && leb v.expires_at max_safe_integer

abbrev pub session_binding_json : SessionBinding → Json
session_binding_json v = object (
    ("protocol", text "callsign")
    ∷ ("version", num 1)
    ∷ ("type", text "SessionBinding")
    ∷ ("fingerprintAlgorithm", text "sha-256")
    ∷ ("transportProfile", text "webrtc-bundle-v1")
    ∷ ("networkId", text v.network_id)
    ∷ ("registryAddress", text v.registry_address)
    ∷ ("authorizationHash", text v.authorization_hash)
    ∷ ("sessionId", text v.session_id)
    ∷ ("institutionId", text v.institution_id)
    ∷ ("epoch", text v.epoch)
    ∷ ("delegationId", text v.delegation_id)
    ∷ ("recipientId", text v.recipient_id)
    ∷ ("recipientNonce", text v.recipient_nonce)
    ∷ ("recipientSessionKeyHash", text v.recipient_session_key_hash)
    ∷ ("gatewayFingerprint", text v.gateway_fingerprint)
    ∷ ("receiverFingerprint", text v.receiver_fingerprint)
    ∷ ("offerSdpHash", text v.offer_sdp_hash)
    ∷ ("answerSdpHash", text v.answer_sdp_hash)
    ∷ ("issuedAt", num v.issued_at)
    ∷ ("expiresAt", num v.expires_at)
    ∷ [])

-- `consumptionReceiptSchema`
pub record ConsumptionReceipt : Type 0 where
  pub network_id : String
  pub registry_address : String
  pub authorization_id : String
  pub authorization_hash : String
  pub binding_hash : String
  pub recipient_id : String
  pub session_id : String
  pub consumed_at : ℕ
  pub expires_at : ℕ

unfoldable pub consumption_receipt_conforms : ConsumptionReceipt → Bool
consumption_receipt_conforms v =
    matches_decimal (codes v.network_id)
    && is_address v.registry_address
    && has_length 16 128 v.authorization_id
    && is_digest v.authorization_hash
    && is_digest v.binding_hash
    && has_length 16 128 v.recipient_id
    && has_length 16 128 v.session_id
    && leb v.consumed_at max_safe_integer
    && leb v.expires_at max_safe_integer

abbrev pub consumption_receipt_json : ConsumptionReceipt → Json
consumption_receipt_json v = object (
    ("protocol", text "callsign")
    ∷ ("version", num 1)
    ∷ ("type", text "ConsumptionReceipt")
    ∷ ("networkId", text v.network_id)
    ∷ ("registryAddress", text v.registry_address)
    ∷ ("authorizationId", text v.authorization_id)
    ∷ ("authorizationHash", text v.authorization_hash)
    ∷ ("bindingHash", text v.binding_hash)
    ∷ ("recipientId", text v.recipient_id)
    ∷ ("sessionId", text v.session_id)
    ∷ ("consumedAt", num v.consumed_at)
    ∷ ("expiresAt", num v.expires_at)
    ∷ [])

-- `gatewayConsumeRequestSchema`; its role is the literal `gateway`
pub record GatewayConsumeRequest : Type 0 where
  pub network_id : String
  pub registry_address : String
  pub authorization_id : String
  pub authorization_hash : String
  pub binding_hash : String
  pub recipient_challenge_hash : String
  pub session_id : String
  pub issued_at : ℕ
  pub expires_at : ℕ

unfoldable pub gateway_consume_request_conforms : GatewayConsumeRequest → Bool
gateway_consume_request_conforms v =
    matches_decimal (codes v.network_id)
    && is_address v.registry_address
    && has_length 16 128 v.authorization_id
    && is_digest v.authorization_hash
    && is_digest v.binding_hash
    && is_digest v.recipient_challenge_hash
    && has_length 16 128 v.session_id
    && leb v.issued_at max_safe_integer
    && leb v.expires_at max_safe_integer

abbrev pub gateway_consume_request_json : GatewayConsumeRequest → Json
gateway_consume_request_json v = object (
    ("protocol", text "callsign")
    ∷ ("version", num 1)
    ∷ ("type", text "GatewayConsumeRequest")
    ∷ ("role", text "gateway")
    ∷ ("networkId", text v.network_id)
    ∷ ("registryAddress", text v.registry_address)
    ∷ ("authorizationId", text v.authorization_id)
    ∷ ("authorizationHash", text v.authorization_hash)
    ∷ ("bindingHash", text v.binding_hash)
    ∷ ("recipientChallengeHash", text v.recipient_challenge_hash)
    ∷ ("sessionId", text v.session_id)
    ∷ ("issuedAt", num v.issued_at)
    ∷ ("expiresAt", num v.expires_at)
    ∷ [])

-- `sessionProofSchema`
pub record SessionProof : Type 0 where
  pub network_id : String
  pub registry_address : String
  pub binding_hash : String
  pub consumption_receipt_hash : String
  pub binding : SessionBinding
  pub issued_at : ℕ
  pub expires_at : ℕ

unfoldable pub session_proof_conforms : SessionProof → Bool
session_proof_conforms v =
    matches_decimal (codes v.network_id)
    && is_address v.registry_address
    && is_digest v.binding_hash
    && is_digest v.consumption_receipt_hash
    && session_binding_conforms v.binding
    && leb v.issued_at max_safe_integer
    && leb v.expires_at max_safe_integer

abbrev pub session_proof_json : SessionProof → Json
session_proof_json v = object (
    ("protocol", text "callsign")
    ∷ ("version", num 1)
    ∷ ("type", text "SessionProof")
    ∷ ("role", text "gateway")
    ∷ ("networkId", text v.network_id)
    ∷ ("registryAddress", text v.registry_address)
    ∷ ("bindingHash", text v.binding_hash)
    ∷ ("consumptionReceiptHash", text v.consumption_receipt_hash)
    ∷ ("binding", session_binding_json v.binding)
    ∷ ("issuedAt", num v.issued_at)
    ∷ ("expiresAt", num v.expires_at)
    ∷ [])

-- `role` of a transcript
pub data TranscriptRole : Type 0 where
  gateway receiver : TranscriptRole

abbrev role_json : TranscriptRole → Json
role_json gateway = text "gateway"
role_json receiver = text "receiver"

-- `transportTranscriptSchema`
pub record TransportTranscript : Type 0 where
  pub network_id : String
  pub registry_address : String
  pub role : TranscriptRole
  pub binding_hash : String
  pub receiver_nonce : String
  pub gateway_nonce : String
  pub issued_at : ℕ
  pub expires_at : ℕ

unfoldable pub transport_transcript_conforms : TransportTranscript → Bool
transport_transcript_conforms v =
    matches_decimal (codes v.network_id)
    && is_address v.registry_address
    && is_digest v.binding_hash
    && has_length 16 128 v.receiver_nonce
    && has_length 16 128 v.gateway_nonce
    && leb v.issued_at max_safe_integer
    && leb v.expires_at max_safe_integer

abbrev pub transport_transcript_json : TransportTranscript → Json
transport_transcript_json v = object (
    ("protocol", text "callsign")
    ∷ ("version", num 1)
    ∷ ("type", text "TransportTranscript")
    ∷ ("networkId", text v.network_id)
    ∷ ("registryAddress", text v.registry_address)
    ∷ ("role", role_json v.role)
    ∷ ("bindingHash", text v.binding_hash)
    ∷ ("receiverNonce", text v.receiver_nonce)
    ∷ ("gatewayNonce", text v.gateway_nonce)
    ∷ ("issuedAt", num v.issued_at)
    ∷ ("expiresAt", num v.expires_at)
    ∷ [])

abbrev pub consume_request_clock : GatewayConsumeRequest → Clock
consume_request_clock v = record {
  issued_at = v.issued_at;
  expires_at = v.expires_at;
  not_before = none;
}
