-- ===== src/Protocol/Contact.antt =====
-- The messages of protocol version 1 in packages/protocol/src/index.ts that name a contact and its parties.
use call_sign.Prelude.{
  ℕ, ◌≡◌, ◌↔◌, String, Bool, true, false, ◌&&◌, [], ◌∷◌, some, none, arith, leb, Comparable,
}
use call_sign.Prelude.Text.{has_length, matches_decimal, codes}
use call_sign.Protocol.Json.{Json, text, num, object}
use call_sign.Protocol.Temporal.{Clock, max_safe_integer}
use call_sign.Protocol.Schemas.{is_address, max_signed_message_bytes}

-- `purposeCode`
pub data PurposeCode : Type 0 where
  civil_reply document_supplement : PurposeCode

abbrev pub purpose_text : PurposeCode → String
purpose_text civil_reply = "CIVIL_REPLY"
purpose_text document_supplement = "DOCUMENT_SUPPLEMENT"

abbrev purpose_beq : PurposeCode → PurposeCode → Bool
purpose_beq civil_reply civil_reply = true
purpose_beq document_supplement document_supplement = true
purpose_beq _ _ = false

pub purpose_beq_iff : (a b : PurposeCode) → (purpose_beq a b ≡ true) ↔ (a ≡ b)
purpose_beq_iff civil_reply civil_reply = ground arith
purpose_beq_iff civil_reply document_supplement = ground arith
purpose_beq_iff document_supplement civil_reply = ground arith
purpose_beq_iff document_supplement document_supplement = ground arith

instance abbrev pub purpose_eq : Comparable PurposeCode
purpose_eq = record { same = purpose_beq; same_iff = purpose_beq_iff }

abbrev purpose_json : PurposeCode → Json
purpose_json p = text (purpose_text p)

-- `contactAuthorizationSchema`
pub record ContactAuthorization : Type 0 where
  pub network_id : String
  pub registry_address : String
  pub authorization_id : String
  pub institution_id : String
  pub epoch : String
  pub delegation_id : String
  pub recipient_id : String
  pub purpose_code : PurposeCode
  pub official_task_opaque_id : String
  pub issued_at : ℕ
  pub not_before : ℕ
  pub expires_at : ℕ

unfoldable pub contact_authorization_conforms : ContactAuthorization → Bool
contact_authorization_conforms v =
    matches_decimal (codes v.network_id)
    && is_address v.registry_address
    && has_length 16 128 v.authorization_id
    && has_length 16 128 v.institution_id
    && matches_decimal (codes v.epoch)
    && has_length 16 128 v.delegation_id
    && has_length 16 128 v.recipient_id
    && has_length 16 128 v.official_task_opaque_id
    && leb v.issued_at max_safe_integer
    && leb v.not_before max_safe_integer
    && leb v.expires_at max_safe_integer

abbrev pub contact_authorization_json : ContactAuthorization → Json
contact_authorization_json v = object (
    ("protocol", text "callsign")
    ∷ ("version", num 1)
    ∷ ("type", text "ContactAuthorization")
    ∷ ("networkId", text v.network_id)
    ∷ ("registryAddress", text v.registry_address)
    ∷ ("authorizationId", text v.authorization_id)
    ∷ ("institutionId", text v.institution_id)
    ∷ ("epoch", text v.epoch)
    ∷ ("delegationId", text v.delegation_id)
    ∷ ("recipientId", text v.recipient_id)
    ∷ ("purposeCode", purpose_json v.purpose_code)
    ∷ ("officialTaskOpaqueId", text v.official_task_opaque_id)
    ∷ ("issuedAt", num v.issued_at)
    ∷ ("notBefore", num v.not_before)
    ∷ ("expiresAt", num v.expires_at)
    ∷ [])

-- `enrollmentProofSchema`
pub record EnrollmentProof : Type 0 where
  pub network_id : String
  pub registry_address : String
  pub recipient_id : String
  pub recipient_session_public_key : String
  pub issued_at : ℕ
  pub expires_at : ℕ

unfoldable pub enrollment_proof_conforms : EnrollmentProof → Bool
enrollment_proof_conforms v =
    matches_decimal (codes v.network_id)
    && is_address v.registry_address
    && has_length 16 128 v.recipient_id
    && has_length 32 128 v.recipient_session_public_key
    && leb v.issued_at max_safe_integer
    && leb v.expires_at max_safe_integer

abbrev pub enrollment_proof_json : EnrollmentProof → Json
enrollment_proof_json v = object (
    ("protocol", text "callsign")
    ∷ ("version", num 1)
    ∷ ("type", text "EnrollmentProof")
    ∷ ("networkId", text v.network_id)
    ∷ ("registryAddress", text v.registry_address)
    ∷ ("recipientId", text v.recipient_id)
    ∷ ("recipientSessionPublicKey", text v.recipient_session_public_key)
    ∷ ("issuedAt", num v.issued_at)
    ∷ ("expiresAt", num v.expires_at)
    ∷ [])

-- `recipientChallengeSchema`
pub record RecipientChallenge : Type 0 where
  pub network_id : String
  pub registry_address : String
  pub recipient_id : String
  pub recipient_session_public_key : String
  pub enrollment_proof : String
  pub session_id : String
  pub recipient_nonce : String
  pub issued_at : ℕ
  pub expires_at : ℕ

unfoldable pub recipient_challenge_conforms : RecipientChallenge → Bool
recipient_challenge_conforms v =
    matches_decimal (codes v.network_id)
    && is_address v.registry_address
    && has_length 16 128 v.recipient_id
    && has_length 32 128 v.recipient_session_public_key
    && has_length 32 max_signed_message_bytes v.enrollment_proof
    && has_length 16 128 v.session_id
    && has_length 16 128 v.recipient_nonce
    && leb v.issued_at max_safe_integer
    && leb v.expires_at max_safe_integer

abbrev pub recipient_challenge_json : RecipientChallenge → Json
recipient_challenge_json v = object (
    ("protocol", text "callsign")
    ∷ ("version", num 1)
    ∷ ("type", text "RecipientChallenge")
    ∷ ("networkId", text v.network_id)
    ∷ ("registryAddress", text v.registry_address)
    ∷ ("recipientId", text v.recipient_id)
    ∷ ("recipientSessionPublicKey", text v.recipient_session_public_key)
    ∷ ("enrollmentProof", text v.enrollment_proof)
    ∷ ("sessionId", text v.session_id)
    ∷ ("recipientNonce", text v.recipient_nonce)
    ∷ ("issuedAt", num v.issued_at)
    ∷ ("expiresAt", num v.expires_at)
    ∷ [])

-- The fields that `assertTemporalValidity` reads.
abbrev pub authorization_clock : ContactAuthorization → Clock
authorization_clock v = record {
  issued_at = v.issued_at;
  expires_at = v.expires_at;
  not_before = some v.not_before;
}

abbrev pub challenge_clock : RecipientChallenge → Clock
challenge_clock v = record { issued_at = v.issued_at; expires_at = v.expires_at; not_before = none }
