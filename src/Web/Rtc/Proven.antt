-- ===== src/Web/Rtc/Proven.antt =====
-- `verifyProofPackage` and the transcripts of apps/web/src/lib/rtc.ts.
use Prim.Native.String.{len}
use call_sign.Prelude.{
  ℕ, ◌+◌, ◌≤◌, ◌<◌, ◌≡◌, refl, ap, sym, ◌∙◌, String, true, false, ◌||◌, List, arith, eq_iff,
  eq_refl, ok, ◌!=◌, string_eq, nat_eq,
}
use call_sign.Prelude.Text.{codes, codes_eq}
use call_sign.Protocol.Json.{Jwk}
use call_sign.Protocol.Temporal.{
  assert_temporal_validity, IsCurrent, assert_temporal_validity-IsCurrent, max_safe_integer,
}
use call_sign.Protocol.Schemas.{max_signed_message_bytes}
use call_sign.Protocol.Contact.{contact_authorization_json}
use call_sign.Protocol.Session.{
  session_binding_json, ConsumptionReceipt, consumption_receipt_json, SessionProof,
  TransportTranscript, TranscriptRole, transport_transcript_json,
}
use call_sign.Protocol.Signing.{Expected, hash_canonical, verify_payload}
use call_sign.Protocol.Signing.Sound.{
  IsSigned, verify_payload-IsSigned, Reads, signed_header, verify_payload-sign_payload,
}
use call_sign.Protocol.Sdp.{hash_sdp, extract_single_sdp_fingerprint}
use call_sign.Protocol.Sdp.Canonical.{codes_eq-eq}
use call_sign.Verifier.Context.{
  verify_authorization_context, IsExpected, verify_authorization_context-IsExpected,
}
use call_sign.Web.Rtc.{
  Browser, TrustKeys, ProofPackage, proof_clock, transcript_clock, expected_of, role_eq,
  receipt_schema, proof_schema, transcript_schema, check_sdp, verify_proof_package,
  make_transport_transcript, verify_transport_transcript,
}

module _ (o : Browser) (i : ProofPackage) (now : ℕ) where
  abbrev receipt_kind : Expected
  receipt_kind = record { type = "ConsumptionReceipt"; kid = i.issuer_kid }

  abbrev proof_kind : Expected
  proof_kind = record { type = "SessionProof"; kid = i.gateway_kid }

  -- The session descriptions are those of the binding.
  pub record MatchesSdp : Type 0 where
    pub receiver :
        extract_single_sdp_fingerprint i.local_sdp ≡ ok (codes i.binding.receiver_fingerprint)
    pub gateway :
        extract_single_sdp_fingerprint i.remote_sdp ≡ ok (codes i.binding.gateway_fingerprint)
    pub answer : i.binding.answer_sdp_hash ≡ hash_sdp o.lib i.local_sdp
    pub offer : i.binding.offer_sdp_hash ≡ hash_sdp o.lib i.remote_sdp

  -- The issuer's receipt and the gateway's proof are signed, current, and name one binding, which is that
  -- of the session descriptions, and one authorization, which is the expected one.
  pub record IsProven (binding_hash : String) : Type 0 where
    pub receipt : ConsumptionReceipt
    pub receipt_signed :
        IsSigned o.lib
          (receipt_schema o)
          (λ v. "ConsumptionReceipt")
          i.receipt_jws
          i.issuer_public_key
          receipt_kind
          receipt
    pub proof : SessionProof
    pub proof_signed :
        IsSigned o.lib
          (proof_schema o)
          (λ v. "SessionProof")
          i.session_proof_jws
          i.gateway_public_jwk
          proof_kind
          proof
    pub hash : binding_hash ≡ hash_canonical o.lib (session_binding_json i.binding)
    pub receipt_current : now < receipt.expires_at
    pub proof_current : IsCurrent (proof_clock proof) now
    pub authorization :
        hash_canonical o.lib (contact_authorization_json i.authorization) ≡ i.authorization_hash
    pub receipt_binding : receipt.binding_hash ≡ binding_hash
    pub receipt_authorization : receipt.authorization_hash ≡ i.authorization_hash
    pub proof_binding : proof.binding_hash ≡ binding_hash
    pub proof_receipt :
        proof.consumption_receipt_hash ≡ hash_canonical o.lib (consumption_receipt_json receipt)
    pub sdp : MatchesSdp
    pub expected : IsExpected o.lib i.authorization (expected_of i now)

  package-parts :
      (binding_hash : String)
      → verify_proof_package o i now ≡ ok binding_hash
      → (receipt : ConsumptionReceipt) × (verify_payload o.lib
            (receipt_schema o)
            (λ v. "ConsumptionReceipt")
            i.receipt_jws
            i.issuer_public_key
            receipt_kind
          ≡ ok receipt)
        × (proof : SessionProof) × (verify_payload o.lib
              (proof_schema o)
              (λ v. "SessionProof")
              i.session_proof_jws
              i.gateway_public_jwk
              proof_kind
            ≡ ok proof)
        × (now < receipt.expires_at)
        × (assert_temporal_validity (proof_clock proof) now ≡ ok tt)
        × ((hash_canonical o.lib (contact_authorization_json i.authorization)
                != i.authorization_hash
              || receipt.binding_hash != binding_hash
              || receipt.authorization_hash != i.authorization_hash
              || proof.binding_hash != binding_hash
              || proof.consumption_receipt_hash
                != hash_canonical o.lib (consumption_receipt_json receipt)
              || hash_canonical o.lib (session_binding_json proof.binding) != binding_hash)
            ≡ false)
        × (check_sdp o i.binding i.local_sdp i.remote_sdp ≡ ok tt)
        × (verify_authorization_context o.lib i.authorization (expected_of i now) ≡ ok tt)
        × (binding_hash ≡ hash_canonical o.lib (session_binding_json i.binding))
  unfolding verify_proof_package
  package-parts binding_hash h = ground arith

  sdp-parts :
      check_sdp o i.binding i.local_sdp i.remote_sdp ≡ ok tt
      → (r : List ℕ) × (extract_single_sdp_fingerprint i.local_sdp ≡ ok r)
        × (g : List ℕ) × (extract_single_sdp_fingerprint i.remote_sdp ≡ ok g)
        × (codes_eq (codes i.binding.receiver_fingerprint) r ≡ true)
        × (codes_eq (codes i.binding.gateway_fingerprint) g ≡ true)
        × ((i.binding.answer_sdp_hash != hash_sdp o.lib i.local_sdp
              || i.binding.offer_sdp_hash != hash_sdp o.lib i.remote_sdp)
            ≡ false)
  unfolding check_sdp
  sdp-parts h = ground arith

  sdp-MatchesSdp : check_sdp o i.binding i.local_sdp i.remote_sdp ≡ ok tt → MatchesSdp
  sdp-MatchesSdp h =
      let (r, local, g, remote, r_same, g_same, hashes) = sdp-parts h in
      record {
        receiver = local ∙ ap ok (sym (codes_eq-eq _ _ r_same));
        gateway = remote ∙ ap ok (sym (codes_eq-eq _ _ g_same));
        answer = ground (arith, eq_iff i.binding.answer_sdp_hash (hash_sdp o.lib i.local_sdp));
        offer = ground (arith, eq_iff i.binding.offer_sdp_hash (hash_sdp o.lib i.remote_sdp));
      }

  -- A package that `verifyProofPackage` accepts holds a receipt that the issuer signed and a proof that the
  -- gateway signed, both current, which name the hash of the binding, the receipt and the authorization
  -- of the package; the binding is that of the two session descriptions, and the authorization is
  -- current and made out to the recipient.
  pub verify_proof_package-IsProven :
      (binding_hash : String)
      → verify_proof_package o i now ≡ ok binding_hash
      → IsProven binding_hash
  verify_proof_package-IsProven binding_hash h =
      let (receipt, receipt_ok, proof, proof_ok, fresh, current, context, sdp, expected, hash) =
        package-parts binding_hash h in
      record {
        receipt = receipt;
        receipt_signed = verify_payload-IsSigned o.lib _ _ _ _ _ receipt receipt_ok;
        proof = proof;
        proof_signed = verify_payload-IsSigned o.lib _ _ _ _ _ proof proof_ok;
        hash = hash;
        receipt_current = fresh;
        proof_current = (assert_temporal_validity-IsCurrent (proof_clock proof) now).0 current;
        authorization = ground (
          arith,
          eq_iff (hash_canonical o.lib (contact_authorization_json i.authorization))
              i.authorization_hash,
        );
        receipt_binding = ground (arith, eq_iff receipt.binding_hash binding_hash);
        receipt_authorization =
            ground (arith, eq_iff receipt.authorization_hash i.authorization_hash);
        proof_binding = ground (arith, eq_iff proof.binding_hash binding_hash);
        proof_receipt = ground (
          arith,
          eq_iff proof.consumption_receipt_hash
              (hash_canonical o.lib (consumption_receipt_json receipt)),
        );
        sdp = sdp-MatchesSdp sdp;
        expected =
            (verify_authorization_context-IsExpected o.lib i.authorization (expected_of i now)).0
              expected;
      }

role_eq_refl : (r : TranscriptRole) → role_eq r r ≡ true
role_eq_refl TranscriptRole.gateway = refl
role_eq_refl TranscriptRole.receiver = refl

accepts :
    (o : Browser) (jws : String) (payload : TransportTranscript) (key : Jwk) (kid : String)
    (now : ℕ)
    → verify_payload o.lib
        (transcript_schema o)
        (λ v. "TransportTranscript")
        jws
        key
        (record { type = "TransportTranscript"; kid = kid })
      ≡ ok payload
    → assert_temporal_validity (transcript_clock payload) now ≡ ok tt
    → verify_transport_transcript o jws payload key kid payload.role now ≡ ok tt
unfolding verify_transport_transcript
accepts o jws payload key kid now signed current = rw (signed) (
    ground (
      arith,
      current,
      role_eq_refl payload.role,
      eq_refl (hash_canonical o.lib (transport_transcript_json payload)),
    ))

module _ (o : Browser) (role : TranscriptRole) (binding_hash receiver_nonce gateway_nonce : String)
    (key : Jwk) (kid : String) (trust : TrustKeys) (issued_at now : ℕ) where
  abbrev made : TransportTranscript × String
  made =
      make_transport_transcript o role binding_hash receiver_nonce gateway_nonce key kid trust
        issued_at

  -- A transcript that one side makes is accepted by the other under the same key and role, within a minute
  -- from when it was issued, if the libraries read it back and it is within the size limit.
  pub verify_transport_transcript-make_transport_transcript :
      Reads o.lib
        (transcript_schema o)
        (transport_transcript_json made.0)
        (signed_header o.lib "TransportTranscript" kid)
        key
        made.0
      → len made.1 ≤ max_signed_message_bytes
      → issued_at ≤ now
      → now < issued_at + 60
      → now ≤ max_safe_integer
      → verify_transport_transcript o made.1 made.0 key kid role now ≡ ok tt
  unfolding make_transport_transcript
  verify_transport_transcript-make_transport_transcript reads fits from until safe =
      accepts o made.1 made.0 key kid now
        (verify_payload-sign_payload o.lib (transcript_schema o) (λ v. "TransportTranscript")
          (transport_transcript_json made.0) key kid made.0 reads fits)
        ((assert_temporal_validity-IsCurrent (transcript_clock made.0) now).1
          (record { safe = safe; issued = from; started = tt; unexpired = until }))
