-- ===== src/Verifier/Package/Parts.antt =====
-- The comparisons of `verifyFinalsPackage` in packages/verifier/src/finals.ts, one by one.
use call_sign.Prelude.{
  ◌+◌, ◌≤◌, ◌<◌, ◌≡◌, true, false, ◌||◌, ◌==◌, ◌!=◌, string_eq, nat_eq, eq_iff, arith, ok, length,
}
use call_sign.Protocol.Json.{Jwk_json}
use call_sign.Protocol.Signing.{checked_by, hash_canonical, verify_payload}
use call_sign.Protocol.Signing.Sound.{IsSigned, verify_payload-IsSigned}
use call_sign.Protocol.Temporal.{
  assert_temporal_validity, IsCurrent, assert_temporal_validity-IsCurrent,
}
use call_sign.Protocol.Finals.Messages.{
  session_permit_conforms, session_permit_json, authorization_v2_conforms, authorization_v2_clock,
}
use call_sign.Protocol.Finals.Binding.{binding_clock, receipt_conforms}
use call_sign.Protocol.Finals.Status.{
  authorization_status_conforms, authorization_status_clock, is_consumed,
}
use call_sign.Verifier.Package.{FinalsPackage, Platform, FinalsMessages, read_messages}
use call_sign.Verifier.Package.Checks.{
  binding_hash_of, authorization_hash_of, check_currency, check_authorization, check_credential,
  check_permit, check_binding, check_sdp, check_transport,
}
use call_sign.Verifier.Package.Verify.{check_package}

module _ (o : Platform) where
  pub package-parts :
      (i : FinalsPackage) (m : FinalsMessages)
      → check_package o i ≡ ok m
      → ((i.trust.chain.witness_threshold != 3 || length i.trust.chain.witness_public_keys != 4)
          ≡ false)
        × (read_messages o i ≡ ok m)
        × (check_currency o i m ≡ ok tt)
        × (check_authorization o i m ≡ ok tt)
        × (check_credential o i m ≡ ok tt)
        × (check_permit o i m ≡ ok tt)
        × (check_binding o i m ≡ ok tt)
        × (check_sdp o i m.binding ≡ ok tt)
        × (check_transport o i m ≡ ok tt)
  unfolding check_package
  package-parts i m h = ground arith

  -- The four signed messages, the first three under the issuer's key and the permit under the service's.
  pub record AreSigned (i : FinalsPackage) (m : FinalsMessages) : Type 0 where
    pub authorization :
        IsSigned o.lib
          (λ j. checked_by authorization_v2_conforms (o.read_authorization j))
          (λ v. "ContactAuthorization")
          i.authorization_jws
          i.trust.issuer_public_key
          (record { type = "ContactAuthorization"; kid = i.trust.issuer_kid })
          m.authorization
    pub receipt :
        IsSigned o.lib
          (λ j. checked_by receipt_conforms (o.read_receipt j))
          (λ v. "ConsumptionReceipt")
          i.receipt_jws
          i.trust.issuer_public_key
          (record { type = "ConsumptionReceipt"; kid = i.trust.issuer_kid })
          m.receipt
    pub status :
        IsSigned o.lib
          (λ j. checked_by authorization_status_conforms (o.read_status j))
          (λ v. "AuthorizationStatus")
          i.status_jws
          i.trust.issuer_public_key
          (record { type = "AuthorizationStatus"; kid = i.trust.issuer_kid })
          m.status
    pub permit :
        IsSigned o.lib
          (λ j. checked_by session_permit_conforms (o.read_permit j))
          (λ v. "SenderSessionPermit")
          i.permit_jws
          i.trust.service_public_key
          (record { type = "SenderSessionPermit"; kid = i.trust.service_kid })
          m.permit

  message-parts :
      (i : FinalsPackage) (m : FinalsMessages)
      → read_messages o i ≡ ok m
      → (verify_payload o.lib
            (λ j. checked_by authorization_v2_conforms (o.read_authorization j))
            (λ v. "ContactAuthorization")
            i.authorization_jws
            i.trust.issuer_public_key
            (record { type = "ContactAuthorization"; kid = i.trust.issuer_kid })
          ≡ ok m.authorization)
        × (verify_payload o.lib
              (λ j. checked_by receipt_conforms (o.read_receipt j))
              (λ v. "ConsumptionReceipt")
              i.receipt_jws
              i.trust.issuer_public_key
              (record { type = "ConsumptionReceipt"; kid = i.trust.issuer_kid })
            ≡ ok m.receipt)
        × (verify_payload o.lib
              (λ j. checked_by authorization_status_conforms (o.read_status j))
              (λ v. "AuthorizationStatus")
              i.status_jws
              i.trust.issuer_public_key
              (record { type = "AuthorizationStatus"; kid = i.trust.issuer_kid })
            ≡ ok m.status)
        × (verify_payload o.lib
              (λ j. checked_by session_permit_conforms (o.read_permit j))
              (λ v. "SenderSessionPermit")
              i.permit_jws
              i.trust.service_public_key
              (record { type = "SenderSessionPermit"; kid = i.trust.service_kid })
            ≡ ok m.permit)
  unfolding read_messages
  message-parts i m h = ground arith

  pub messages-AreSigned :
      (i : FinalsPackage) (m : FinalsMessages) → read_messages o i ≡ ok m → AreSigned i m
  messages-AreSigned i m h =
      let (a, r, s, p) = message-parts i m h in
      record {
        authorization = verify_payload-IsSigned o.lib _ _ _ _ _ _ a;
        receipt = verify_payload-IsSigned o.lib _ _ _ _ _ _ r;
        status = verify_payload-IsSigned o.lib _ _ _ _ _ _ s;
        permit = verify_payload-IsSigned o.lib _ _ _ _ _ _ p;
      }

  -- The authorization has just been consumed for the binding, and the receipt runs.
  pub record IsConsumedNow (i : FinalsPackage) (m : FinalsMessages) : Type 0 where
    pub fresh : IsCurrent (authorization_status_clock m.status) i.now
    pub short : m.status.expires_at ≤ m.status.issued_at + 5
    pub nonce : m.status.nonce ≡ i.status_nonce
    pub consumed : is_consumed m.status.status ≡ true
    pub authorization : m.status.authorization_id ≡ m.authorization.authorization_id
    pub binding : m.status.binding_hash ≡ binding_hash_of o m
    pub authorization_current : IsCurrent (authorization_v2_clock m.authorization) i.now
    pub binding_current : IsCurrent (binding_clock m.binding) i.now
    pub receipt_runs : i.now < m.receipt.expires_at

  currency-parts :
      (i : FinalsPackage) (m : FinalsMessages)
      → check_currency o i m ≡ ok tt
      → (assert_temporal_validity (authorization_status_clock m.status) i.now ≡ ok tt)
        × (assert_temporal_validity (authorization_v2_clock m.authorization) i.now ≡ ok tt)
        × (assert_temporal_validity (binding_clock m.binding) i.now ≡ ok tt)
        × (i.now < m.receipt.expires_at)
        × (m.status.expires_at ≤ m.status.issued_at + 5)
        × (is_consumed m.status.status ≡ true)
        × ((m.status.nonce == i.status_nonce) ≡ true)
        × ((m.status.authorization_id == m.authorization.authorization_id) ≡ true)
        × ((m.status.binding_hash == binding_hash_of o m) ≡ true)
  unfolding check_currency
  currency-parts i m h = ground arith

  pub currency-IsConsumedNow :
      (i : FinalsPackage) (m : FinalsMessages) → check_currency o i m ≡ ok tt → IsConsumedNow i m
  currency-IsConsumedNow i m h =
      let (s, a, b, runs, short, consumed, nonce, id, hash) = currency-parts i m h in
      record {
        fresh = (assert_temporal_validity-IsCurrent _ i.now).0 s;
        short = short;
        nonce = (eq_iff _ _).0 nonce;
        consumed = consumed;
        authorization = (eq_iff _ _).0 id;
        binding = (eq_iff _ _).0 hash;
        authorization_current = (assert_temporal_validity-IsCurrent _ i.now).0 a;
        binding_current = (assert_temporal_validity-IsCurrent _ i.now).0 b;
        receipt_runs = runs;
      }

  -- The receipt and the binding name the authorization, its recipient and its session, which are the
  -- expected ones, and the receipt names the binding.
  pub record IsBound (i : FinalsPackage) (m : FinalsMessages) : Type 0 where
    pub recipient : m.authorization.recipient_id ≡ i.recipient_id
    pub session : m.authorization.session_id ≡ i.session_id
    pub issuer : m.authorization.issuer_did ≡ i.trust.issuer_did
    pub permit : m.authorization.permit_hash ≡ hash_canonical o.lib (session_permit_json m.permit)
    pub binding : m.binding.authorization_hash ≡ authorization_hash_of o m
    pub binding_session : m.binding.session_id ≡ m.authorization.session_id
    pub recipient_key :
        m.binding.recipient_key_hash ≡ hash_canonical o.lib (Jwk_json i.recipient_public_key)
    pub receipt : m.receipt.authorization_hash ≡ authorization_hash_of o m
    pub receipt_binding : m.receipt.binding_hash ≡ binding_hash_of o m

  authorization-parts :
      (i : FinalsPackage) (m : FinalsMessages)
      → check_authorization o i m ≡ ok tt
      → ((m.authorization.recipient_id == i.recipient_id) ≡ true)
        × ((m.authorization.session_id == i.session_id) ≡ true)
        × ((m.authorization.issuer_did == i.trust.issuer_did) ≡ true)
        × ((m.authorization.permit_hash == hash_canonical o.lib (session_permit_json m.permit))
            ≡ true)
  unfolding check_authorization
  authorization-parts i m h = ground arith

  binding-parts :
      (i : FinalsPackage) (m : FinalsMessages)
      → check_binding o i m ≡ ok tt
      → ((m.binding.authorization_hash == authorization_hash_of o m) ≡ true)
        × ((m.binding.session_id == m.authorization.session_id) ≡ true)
        × ((m.binding.recipient_key_hash == hash_canonical o.lib (Jwk_json i.recipient_public_key))
            ≡ true)
        × ((m.receipt.authorization_hash == authorization_hash_of o m) ≡ true)
        × ((m.receipt.binding_hash == binding_hash_of o m) ≡ true)
  unfolding check_binding
  binding-parts i m h = ground arith

  pub package-IsBound :
      (i : FinalsPackage) (m : FinalsMessages)
      → check_authorization o i m ≡ ok tt
      → check_binding o i m ≡ ok tt
      → IsBound i m
  package-IsBound i m ha hb =
      let (recipient, session, issuer, permit) = authorization-parts i m ha in
      let (binding, binding_session, key, receipt, receipt_binding) = binding-parts i m hb in
      record {
        recipient = (eq_iff _ _).0 recipient;
        session = (eq_iff _ _).0 session;
        issuer = (eq_iff _ _).0 issuer;
        permit = (eq_iff _ _).0 permit;
        binding = (eq_iff _ _).0 binding;
        binding_session = (eq_iff _ _).0 binding_session;
        recipient_key = (eq_iff _ _).0 key;
        receipt = (eq_iff _ _).0 receipt;
        receipt_binding = (eq_iff _ _).0 receipt_binding;
      }
