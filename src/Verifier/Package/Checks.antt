-- ===== src/Verifier/Package/Checks.antt =====
-- The comparisons of `verifyFinalsPackage` in packages/verifier/src/finals.ts.
use call_sign.Prelude.{
  ◌+◌, ◌*◌, String, not, ◌||◌, ltb, leb, ◌!=◌, string_eq, nat_eq, Checked, error, throw_if, ◌>>=◌,
  ◌>>◌,
}
use call_sign.Prelude.Text.{codes, codes_eq}
use call_sign.Protocol.Json.{Jwk_json}
use call_sign.Protocol.Temporal.{assert_temporal_validity}
use call_sign.Protocol.Signing.{hash_canonical}
use call_sign.Protocol.Sdp.{hash_sdp, extract_single_sdp_fingerprint}
use call_sign.Protocol.Finals.{policy_hash, vc_digest}
use call_sign.Protocol.Finals.Messages.{
  session_permit_json, permit_clock, authorization_v2_json, authorization_v2_clock,
}
use call_sign.Protocol.Finals.Binding.{BindingV2, binding_json, binding_clock, is_webrtc_bundle}
use call_sign.Protocol.Finals.Status.{authorization_status_clock, is_consumed}
use call_sign.Verifier.Package.{FinalsPackage, Platform, FinalsMessages}

module _ (o : Platform) where
  abbrev pub binding_hash_of : FinalsMessages → String
  binding_hash_of m = hash_canonical o.lib (binding_json m.binding)

  abbrev pub authorization_hash_of : FinalsMessages → String
  authorization_hash_of m = hash_canonical o.lib (authorization_v2_json m.authorization)

  -- The status, and the windows of the messages.
  unfoldable pub check_currency : FinalsPackage → FinalsMessages → Checked
  check_currency i m = do
    let a = m.authorization
    let status = m.status
    let receipt = m.receipt
    assert_temporal_validity (authorization_status_clock status) i.now
    throw_if
        (status.nonce != i.status_nonce
          || not (is_consumed status.status)
          || status.authorization_id != a.authorization_id
          || status.binding_hash != binding_hash_of m
          || status.approval_key_version != a.approval_key_version
          || status.network_id != a.network_id
          || status.registry_address != a.registry_address
          || ltb (status.issued_at + 5) status.expires_at)
        (error "AUTHORIZATION_STATUS_INVALID")
    assert_temporal_validity (authorization_v2_clock a) i.now
    assert_temporal_validity (permit_clock m.permit) i.now
    assert_temporal_validity (binding_clock m.binding) i.now
    throw_if
        (ltb i.now receipt.consumed_at
          || leb receipt.expires_at i.now
          || leb receipt.expires_at receipt.consumed_at)
        (error "RECEIPT_EXPIRED")

  -- `AUTHORIZATION_CONTEXT_INVALID`, split where `policyHash` and `vcDigest` may throw; the purposes are
  -- literals.
  unfoldable pub check_authorization : FinalsPackage → FinalsMessages → Checked
  check_authorization i m = do
    let a = m.authorization
    let t = i.trust
    throw_if
        (a.network_id != t.chain.network_id
          || a.registry_address != t.chain.registry_address
          || a.issuer_did != t.issuer_did
          || a.approval_key_version != t.approval_key_version
          || a.recipient_id != i.recipient_id
          || a.session_id != i.session_id)
        (error "AUTHORIZATION_CONTEXT_INVALID")
    policy ← policy_hash o.lib i.policy
    throw_if (a.policy_hash != policy) (error "AUTHORIZATION_CONTEXT_INVALID")
    digest ← vc_digest o.lib m.credential
    throw_if
        (a.vc_digest != digest
          || a.permit_hash != hash_canonical o.lib (session_permit_json m.permit)
          || a.browser_key_hash != hash_canonical o.lib (Jwk_json m.permit.browser_public_key))
        (error "AUTHORIZATION_CONTEXT_INVALID")

  unfoldable pub check_credential : FinalsPackage → FinalsMessages → Checked
  check_credential i m =
      let a = m.authorization in
      let t = i.trust in
      let vc = m.credential in
      let s = vc.subject in
      let status = vc.status in
      throw_if
        (vc.issuer != t.issuer_did
          || s.id != t.service_did
          || s.controller != t.service_did
          || s.institution_id != a.institution_id
          || s.service_key_version != t.service_key_version
          || hash_canonical o.lib (Jwk_json s.public_key)
            != hash_canonical o.lib (Jwk_json t.service_public_key)
          || s.policy_hash != a.policy_hash
          || status.id != vc.id
          || status.epoch != a.epoch
          || status.approval_key_version != a.approval_key_version
          || status.network_id != a.network_id
          || status.registry_address != a.registry_address
          || ltb (i.now * 1000) vc.valid_from
          || leb vc.valid_until (i.now * 1000))
        (error "VC_CONTEXT_INVALID")

  unfoldable pub check_permit : FinalsPackage → FinalsMessages → Checked
  check_permit i m =
      let a = m.authorization in
      let permit = m.permit in
      throw_if
        (permit.institution_id != a.institution_id
          || permit.intent_id != a.intent_id
          || permit.attempt_id != a.attempt_id
          || permit.session_id != a.session_id
          || permit.service_did != i.trust.service_did
          || permit.service_key_version != i.trust.service_key_version
          || permit.policy_hash != a.policy_hash
          || permit.vc_digest != a.vc_digest
          || permit.network_id != a.network_id
          || permit.registry_address != a.registry_address
          || ltb (permit.issued_at + 60) permit.expires_at)
        (error "PERMIT_CONTEXT_INVALID")

  unfoldable pub check_binding : FinalsPackage → FinalsMessages → Checked
  check_binding i m =
      let a = m.authorization in
      let b = m.binding in
      let receipt = m.receipt in
      throw_if
        (b.authorization_hash != authorization_hash_of m
          || b.session_id != a.session_id
          || b.recipient_id != a.recipient_id
          || b.recipient_key_hash != hash_canonical o.lib (Jwk_json i.recipient_public_key)
          || b.network_id != a.network_id
          || b.registry_address != a.registry_address
          || receipt.authorization_id != a.authorization_id
          || receipt.authorization_hash != authorization_hash_of m
          || receipt.binding_hash != binding_hash_of m
          || receipt.session_id != a.session_id
          || receipt.recipient_id != a.recipient_id
          || receipt.approval_key_version != a.approval_key_version
          || receipt.network_id != a.network_id
          || receipt.registry_address != a.registry_address)
        (error "BINDING_CONTEXT_INVALID")

  -- `SDP_BINDING_MISMATCH`, split where a fingerprint is extracted
  unfoldable pub check_sdp : FinalsPackage → BindingV2 → Checked
  check_sdp i b = do
    throw_if
        (not (is_webrtc_bundle b.transport_profile)
          || b.answer_sdp_hash != hash_sdp o.lib i.local_sdp
          || b.offer_sdp_hash != hash_sdp o.lib i.remote_sdp)
        (error "SDP_BINDING_MISMATCH")
    receiver ← extract_single_sdp_fingerprint i.local_sdp
    throw_if (not (codes_eq (codes b.receiver_fingerprint) receiver)) (error "SDP_BINDING_MISMATCH")
    gateway ← extract_single_sdp_fingerprint i.remote_sdp
    throw_if (not (codes_eq (codes b.gateway_fingerprint) gateway)) (error "SDP_BINDING_MISMATCH")

  unfoldable pub check_transport : FinalsPackage → FinalsMessages → Checked
  check_transport i m =
      let transport = i.observed_transport in
      throw_if
        (not transport.connected
          || transport.profile != "chromium-dtls-certificate-v1"
          || transport.remote_fingerprint != m.binding.gateway_fingerprint
          || transport.data_channel_binding_hash != binding_hash_of m)
        (error "TRANSPORT_UNVERIFIABLE")
