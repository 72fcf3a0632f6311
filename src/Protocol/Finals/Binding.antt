-- ===== src/Protocol/Finals/Binding.antt =====
-- The session binding, the proofs of possession, the receipt and the status of packages/protocol/src/finals.ts.
use call_sign.Prelude.{none, ℕ, String, Bool, true, false, ◌&&◌, [], ◌∷◌, leb}
use call_sign.Prelude.Text.{has_length}
use call_sign.Protocol.Json.{Json, text, num, object}
use call_sign.Protocol.Temporal.{Clock, max_safe_integer}
use call_sign.Protocol.Schemas.{is_address, is_digest, is_fingerprint}

-- `transportProfile`
pub data TransportProfile : Type 0 where
  webrtc_bundle_v2 pbx_edge_v2 : TransportProfile

abbrev pub is_webrtc_bundle : TransportProfile → Bool
is_webrtc_bundle webrtc_bundle_v2 = true
is_webrtc_bundle pbx_edge_v2 = false

abbrev profile_json : TransportProfile → Json
profile_json webrtc_bundle_v2 = text "webrtc-bundle-v2"
profile_json pbx_edge_v2 = text "pbx-edge-v2"

-- `bindingV2Schema`
pub record BindingV2 : Type 0 where
  pub network_id : String
  pub registry_address : String
  pub issued_at : ℕ
  pub expires_at : ℕ
  pub authorization_hash : String
  pub session_id : String
  pub recipient_id : String
  pub recipient_nonce : String
  pub recipient_key_hash : String
  pub gateway_fingerprint : String
  pub receiver_fingerprint : String
  pub offer_sdp_hash : String
  pub answer_sdp_hash : String
  pub transport_profile : TransportProfile

unfoldable pub binding_conforms : BindingV2 → Bool
binding_conforms v =
    has_length 3 200 v.network_id
    && is_address v.registry_address
    && leb v.issued_at max_safe_integer
    && leb v.expires_at max_safe_integer
    && is_digest v.authorization_hash
    && has_length 3 200 v.session_id
    && has_length 3 200 v.recipient_id
    && has_length 3 200 v.recipient_nonce
    && is_digest v.recipient_key_hash
    && is_fingerprint v.gateway_fingerprint
    && is_fingerprint v.receiver_fingerprint
    && is_digest v.offer_sdp_hash
    && is_digest v.answer_sdp_hash

abbrev pub binding_json : BindingV2 → Json
binding_json v = object (
    ("protocol", text "callsign")
    ∷ ("version", num 2)
    ∷ ("type", text "SessionBinding")
    ∷ ("networkId", text v.network_id)
    ∷ ("registryAddress", text v.registry_address)
    ∷ ("issuedAt", num v.issued_at)
    ∷ ("expiresAt", num v.expires_at)
    ∷ ("authorizationHash", text v.authorization_hash)
    ∷ ("sessionId", text v.session_id)
    ∷ ("recipientId", text v.recipient_id)
    ∷ ("recipientNonce", text v.recipient_nonce)
    ∷ ("recipientKeyHash", text v.recipient_key_hash)
    ∷ ("gatewayFingerprint", text v.gateway_fingerprint)
    ∷ ("receiverFingerprint", text v.receiver_fingerprint)
    ∷ ("offerSdpHash", text v.offer_sdp_hash)
    ∷ ("answerSdpHash", text v.answer_sdp_hash)
    ∷ ("transportProfile", profile_json v.transport_profile)
    ∷ [])

-- `role` of a proof of possession
pub data ProofRole : Type 0 where
  sender recipient : ProofRole

abbrev pub same_role : ProofRole → ProofRole → Bool
same_role sender sender = true
same_role recipient recipient = true
same_role _ _ = false

abbrev role_json : ProofRole → Json
role_json sender = text "sender"
role_json recipient = text "recipient"

-- `possessionSchema`
pub record PossessionProof : Type 0 where
  pub network_id : String
  pub registry_address : String
  pub issued_at : ℕ
  pub expires_at : ℕ
  pub role : ProofRole
  pub authorization_id : String
  pub binding_hash : String
  pub session_id : String

unfoldable pub possession_conforms : PossessionProof → Bool
possession_conforms v =
    has_length 3 200 v.network_id
    && is_address v.registry_address
    && leb v.issued_at max_safe_integer
    && leb v.expires_at max_safe_integer
    && has_length 3 200 v.authorization_id
    && is_digest v.binding_hash
    && has_length 3 200 v.session_id

abbrev pub possession_json : PossessionProof → Json
possession_json v = object (
    ("protocol", text "callsign")
    ∷ ("version", num 2)
    ∷ ("type", text "PossessionProof")
    ∷ ("networkId", text v.network_id)
    ∷ ("registryAddress", text v.registry_address)
    ∷ ("issuedAt", num v.issued_at)
    ∷ ("expiresAt", num v.expires_at)
    ∷ ("role", role_json v.role)
    ∷ ("authorizationId", text v.authorization_id)
    ∷ ("bindingHash", text v.binding_hash)
    ∷ ("sessionId", text v.session_id)
    ∷ [])

-- `receiptV2Schema`
pub record ReceiptV2 : Type 0 where
  pub network_id : String
  pub registry_address : String
  pub authorization_id : String
  pub authorization_hash : String
  pub binding_hash : String
  pub session_id : String
  pub recipient_id : String
  pub approval_key_version : ℕ
  pub consumed_at : ℕ
  pub expires_at : ℕ

unfoldable pub receipt_conforms : ReceiptV2 → Bool
receipt_conforms v =
    has_length 3 200 v.network_id
    && is_address v.registry_address
    && has_length 3 200 v.authorization_id
    && is_digest v.authorization_hash
    && is_digest v.binding_hash
    && has_length 3 200 v.session_id
    && has_length 3 200 v.recipient_id
    && leb 1 v.approval_key_version
    && leb v.approval_key_version max_safe_integer
    && leb v.consumed_at max_safe_integer
    && leb v.expires_at max_safe_integer

abbrev pub receipt_json : ReceiptV2 → Json
receipt_json v = object (
    ("protocol", text "callsign")
    ∷ ("version", num 2)
    ∷ ("type", text "ConsumptionReceipt")
    ∷ ("networkId", text v.network_id)
    ∷ ("registryAddress", text v.registry_address)
    ∷ ("authorizationId", text v.authorization_id)
    ∷ ("authorizationHash", text v.authorization_hash)
    ∷ ("bindingHash", text v.binding_hash)
    ∷ ("sessionId", text v.session_id)
    ∷ ("recipientId", text v.recipient_id)
    ∷ ("approvalKeyVersion", num v.approval_key_version)
    ∷ ("consumedAt", num v.consumed_at)
    ∷ ("expiresAt", num v.expires_at)
    ∷ [])

abbrev pub binding_clock : BindingV2 → Clock
binding_clock v = record { issued_at = v.issued_at; expires_at = v.expires_at; not_before = none }

abbrev pub possession_clock : PossessionProof → Clock
possession_clock v = record {
  issued_at = v.issued_at;
  expires_at = v.expires_at;
  not_before = none;
}
