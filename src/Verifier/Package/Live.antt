-- ===== src/Verifier/Package/Live.antt =====
-- The transport and the state of the ledger in `verifyFinalsPackage` of packages/verifier/src/finals.ts.
use Prim.Native.Nat.{bit_and}
use call_sign.Prelude.{
  ℕ, ◌≤◌, ◌<◌, ◌≡◌, ap, sym, ◌∙◌, true, false, List, map, ◌==◌, string_eq, nat_eq, eq_iff, arith,
  ok,
}
use call_sign.Prelude.Text.{codes, codes_eq, to_lower, big_int}
use call_sign.Protocol.Sdp.{hash_sdp, extract_single_sdp_fingerprint}
use call_sign.Protocol.Sdp.Canonical.{codes_eq-eq}
use call_sign.Protocol.Finals.Binding.{BindingV2}
use call_sign.Verifier.Snapshot.{StateSnapshot, is_active}
use call_sign.Verifier.Package.{
  LedgerExpectation, FinalsPackage, Platform, FinalsMessages, mask_of, raw, assert_ledger_binding,
}
use call_sign.Verifier.Package.Checks.{binding_hash_of, check_sdp, check_transport}
use call_sign.Verifier.Package.Verify.{ledger_expectation}

module _ (o : Platform) where
  -- The transport and the session descriptions are those of the binding.
  pub record IsTransported (i : FinalsPackage) (m : FinalsMessages) : Type 0 where
    pub answer : m.binding.answer_sdp_hash ≡ hash_sdp o.lib i.local_sdp
    pub offer : m.binding.offer_sdp_hash ≡ hash_sdp o.lib i.remote_sdp
    pub receiver :
        extract_single_sdp_fingerprint i.local_sdp ≡ ok (codes m.binding.receiver_fingerprint)
    pub gateway :
        extract_single_sdp_fingerprint i.remote_sdp ≡ ok (codes m.binding.gateway_fingerprint)
    pub connected : i.observed_transport.connected ≡ true
    pub remote : i.observed_transport.remote_fingerprint ≡ m.binding.gateway_fingerprint
    pub channel : i.observed_transport.data_channel_binding_hash ≡ binding_hash_of o m

  sdp-parts :
      (i : FinalsPackage) (b : BindingV2)
      → check_sdp o i b ≡ ok tt
      → (r : List ℕ) × (g : List ℕ) × (extract_single_sdp_fingerprint i.local_sdp ≡ ok r)
        × (extract_single_sdp_fingerprint i.remote_sdp ≡ ok g)
        × (codes_eq (codes b.receiver_fingerprint) r ≡ true)
        × (codes_eq (codes b.gateway_fingerprint) g ≡ true)
        × ((b.answer_sdp_hash == hash_sdp o.lib i.local_sdp) ≡ true)
        × ((b.offer_sdp_hash == hash_sdp o.lib i.remote_sdp) ≡ true)
  unfolding check_sdp
  sdp-parts i b h = ground arith

  transport-parts :
      (i : FinalsPackage) (m : FinalsMessages)
      → check_transport o i m ≡ ok tt
      → (i.observed_transport.connected ≡ true)
        × ((i.observed_transport.remote_fingerprint == m.binding.gateway_fingerprint) ≡ true)
        × ((i.observed_transport.data_channel_binding_hash == binding_hash_of o m) ≡ true)
  unfolding check_transport
  transport-parts i m h = ground arith

  pub package-IsTransported :
      (i : FinalsPackage) (m : FinalsMessages)
      → check_sdp o i m.binding ≡ ok tt
      → check_transport o i m ≡ ok tt
      → IsTransported i m
  package-IsTransported i m hs ht =
      let (r, g, local, remote, same_r, same_g, answer, offer) = sdp-parts i m.binding hs in
      let (connected, fingerprint, channel) = transport-parts i m ht in
      record {
        answer = (eq_iff _ _).0 answer;
        offer = (eq_iff _ _).0 offer;
        receiver = local ∙ ap ok (sym (codes_eq-eq _ _ same_r));
        gateway = remote ∙ ap ok (sym (codes_eq-eq _ _ same_g));
        connected = connected;
        remote = (eq_iff _ _).0 fingerprint;
        channel = (eq_iff _ _).0 channel;
      }

  -- The institution is active under the issuer's key, and its delegation to the service's key is valid.
  pub record IsBacked (i : FinalsPackage) (m : FinalsMessages) (s : StateSnapshot) : Type 0 where
    pub exists : s.institution_state.exists ≡ true
    pub active : is_active s.institution_state.status ≡ true
    pub epoch : s.institution_state.epoch ≡ m.authorization.epoch
    pub delegation_epoch : s.delegation_state.epoch ≡ m.authorization.epoch
    pub delegated : s.delegation_state.exists ≡ true
    pub kept : s.delegation_state.revoked ≡ false
    pub started : s.delegation_state.valid_from ≤ i.now
    pub unexpired : i.now < s.delegation_state.valid_until
    pub purpose : bit_and (big_int s.delegation_state.purpose_mask) 4 ≡ 4
    pub issuer_key :
        raw o i.trust.issuer_public_key
        ≡ ok (map to_lower (codes s.institution_state.approval_public_key))
    pub service_key :
        raw o i.trust.service_public_key
        ≡ ok (map to_lower (codes s.delegation_state.gateway_public_key))

  ledger-parts :
      (s : StateSnapshot) (e : LedgerExpectation)
      → assert_ledger_binding o s e ≡ ok tt
      → (a : List ℕ) × (g : List ℕ) × (raw o e.approval_public_key ≡ ok a)
        × (raw o e.service_public_key ≡ ok g)
        × (codes_eq (map to_lower (codes s.institution_state.approval_public_key)) a ≡ true)
        × (codes_eq (map to_lower (codes s.delegation_state.gateway_public_key)) g ≡ true)
        × (s.institution_state.exists ≡ true)
        × (is_active s.institution_state.status ≡ true)
        × ((s.institution_state.epoch == e.epoch) ≡ true)
        × ((s.delegation_state.epoch == e.epoch) ≡ true)
        × (s.delegation_state.exists ≡ true)
        × (s.delegation_state.revoked ≡ false)
        × (s.delegation_state.valid_from ≤ e.now)
        × (e.now < s.delegation_state.valid_until)
        × (bit_and (big_int s.delegation_state.purpose_mask) (mask_of e.purpose_mask)
            ≡ mask_of e.purpose_mask)
  unfolding assert_ledger_binding
  ledger-parts s e h = ground arith

  pub ledger-IsBacked :
      (i : FinalsPackage) (m : FinalsMessages) (s : StateSnapshot)
      → assert_ledger_binding o s (ledger_expectation o i m) ≡ ok tt
      → IsBacked i m s
  ledger-IsBacked i m s h =
      let (
        a, g, raw_a, raw_g, same_a, same_g, exists, active, epoch, delegation_epoch, delegated,
        kept, started, unexpired, bit,
      ) =
        ledger-parts s (ledger_expectation o i m) h in
      record {
        exists = exists;
        active = active;
        epoch = (eq_iff _ _).0 epoch;
        delegation_epoch = (eq_iff _ _).0 delegation_epoch;
        delegated = delegated;
        kept = kept;
        started = started;
        unexpired = unexpired;
        purpose = bit;
        issuer_key = raw_a ∙ ap ok (sym (codes_eq-eq _ _ same_a));
        service_key = raw_g ∙ ap ok (sym (codes_eq-eq _ _ same_g));
      }
