-- ===== src/Web/Rtc/Delegated.antt =====
-- `verifyLedgerAuthorization` of apps/web/src/lib/rtc.ts: the state of the ledger behind a contact.
use Prim.Native.Nat.{bit_and}
use call_sign.Prelude.{
  ℕ, ◌≤◌, ◌<◌, ◌≡◌, refl, ap, sym, ◌∙◌, String, true, false, ◌||◌, List, arith, eq_iff, Result, ok,
  ◌!=◌, string_eq, nat_eq,
}
use call_sign.Prelude.Text.{codes, codes_eq, big_int}
use call_sign.Protocol.Json.{Jwk}
use call_sign.Protocol.Sdp.Canonical.{codes_eq-eq}
use call_sign.Protocol.Contact.{ContactAuthorization}
use call_sign.Verifier.Snapshot.{is_active, LedgerStatus}
use call_sign.Verifier.Bundle.{StateBundle, VerifiedState, verify_state_bundle}
use call_sign.Verifier.Bundle.Sound.{IsQuorum, verify_state_bundle-IsQuorum}
use call_sign.Web.Rtc.{
  Browser, TrustKeys, raw_jwk_hex, lower, purpose_bit, ledger_context, check_ledger,
  verify_ledger_authorization,
}

module _ (o : Browser) where
  -- The text is the hexadecimal form of the key, in letters of either case.
  abbrev pub IsKeyOf : Jwk → String → Type 0
  IsKeyOf key s = (h : List ℕ) × (raw_jwk_hex o key ≡ ok h) × (lower (codes s) ≡ lower h)

  -- A quorum of witnesses attests a state in which the institution is active under the issuer's key, and
  -- has delegated the purpose to the gateway's key, in the epoch of the authorization and for now.
  pub record IsDelegated (bundle : StateBundle) (authorization : ContactAuthorization)
      (gateway : Jwk) (trust : TrustKeys) (now : ℕ) (v : VerifiedState) : Type 0 where
    pub quorum : IsQuorum o.lib bundle trust.chain v
    pub exists : v.snapshot.institution_state.exists ≡ true
    pub active : v.snapshot.institution_state.status ≡ LedgerStatus.active
    pub delegated : v.snapshot.delegation_state.exists ≡ true
    pub kept : v.snapshot.delegation_state.revoked ≡ false
    pub epoch : v.snapshot.institution_state.epoch ≡ authorization.epoch
    pub delegation_epoch : v.snapshot.delegation_state.epoch ≡ authorization.epoch
    pub gateway_key : IsKeyOf gateway v.snapshot.delegation_state.gateway_public_key
    pub issuer_key :
        IsKeyOf trust.issuer_public_key v.snapshot.institution_state.approval_public_key
    pub purpose :
        bit_and
          (big_int v.snapshot.delegation_state.purpose_mask)
          (purpose_bit authorization.purpose_code)
        ≡ purpose_bit authorization.purpose_code
    pub started : v.snapshot.delegation_state.valid_from ≤ now
    pub unexpired : now < v.snapshot.delegation_state.valid_until

  active-eq : (s : LedgerStatus) → is_active s ≡ true → s ≡ LedgerStatus.active
  active-eq LedgerStatus.active h = refl
  active-eq LedgerStatus.suspended h = cc

  ledger-parts :
      (answer : Result StateBundle) (authorization : ContactAuthorization) (gateway : Jwk)
      (trust : TrustKeys) (now now_ms : ℕ) (v : VerifiedState)
      → verify_ledger_authorization o answer authorization gateway trust now now_ms ≡ ok v
      → (bundle : StateBundle) × (answer ≡ ok bundle)
        × (verify_state_bundle o.lib bundle trust.chain (ledger_context authorization now now_ms)
            ≡ ok v)
        × (check_ledger o authorization gateway trust now v ≡ ok tt)
  unfolding verify_ledger_authorization
  ledger-parts answer authorization gateway trust now now_ms v h = ground arith

  check-parts :
      (authorization : ContactAuthorization) (gateway : Jwk) (trust : TrustKeys) (now : ℕ)
      (v : VerifiedState)
      → check_ledger o authorization gateway trust now v ≡ ok tt
      → (g : List ℕ) × (raw_jwk_hex o gateway ≡ ok g)
        × (k : List ℕ) × (raw_jwk_hex o trust.issuer_public_key ≡ ok k)
        × (codes_eq (lower (codes v.snapshot.delegation_state.gateway_public_key)) (lower g) ≡ true)
        × (codes_eq (lower (codes v.snapshot.institution_state.approval_public_key)) (lower k)
            ≡ true)
        × (v.snapshot.institution_state.exists ≡ true)
        × (is_active v.snapshot.institution_state.status ≡ true)
        × (v.snapshot.delegation_state.exists ≡ true)
        × (v.snapshot.delegation_state.revoked ≡ false)
        × ((v.snapshot.institution_state.epoch != authorization.epoch
              || v.snapshot.delegation_state.epoch != authorization.epoch)
            ≡ false)
        × ((bit_and
                (big_int v.snapshot.delegation_state.purpose_mask)
                (purpose_bit authorization.purpose_code)
              != purpose_bit authorization.purpose_code)
            ≡ false)
        × (v.snapshot.delegation_state.valid_from ≤ now)
        × (now < v.snapshot.delegation_state.valid_until)
  unfolding check_ledger
  check-parts authorization gateway trust now v h = ground arith

  -- An authorization that `verifyLedgerAuthorization` passes is backed by a state that a quorum of
  -- witnesses signed, in which the institution is active under the issuer's key, and has a delegation
  -- of the purpose to the gateway's key that is not revoked, both in the epoch of the authorization,
  -- and valid now.
  pub verify_ledger_authorization-IsDelegated :
      (bundle : StateBundle) (authorization : ContactAuthorization) (gateway : Jwk)
      (trust : TrustKeys) (now now_ms : ℕ) (v : VerifiedState)
      → verify_ledger_authorization o (ok bundle) authorization gateway trust now now_ms ≡ ok v
      → IsDelegated bundle authorization gateway trust now v
  verify_ledger_authorization-IsDelegated bundle authorization gateway trust now now_ms v h =
      let (b, same, verified, checked) =
        ledger-parts (ok bundle) authorization gateway trust now now_ms v h in
      let (
        g, g_hex, k, k_hex, g_same, k_same, exists, active, delegated, kept, epochs, bit, from,
        until,
      ) =
        check-parts authorization gateway trust now v checked in
      let at : b ≡ bundle = cc in
      record {
        quorum =
            verify_state_bundle-IsQuorum o.lib bundle trust.chain
              (ledger_context authorization now now_ms) v
              (ap
                  (λ x.
                    verify_state_bundle o.lib x trust.chain
                      (ledger_context authorization now now_ms))
                  (sym at)
                ∙ verified);
        exists = exists;
        active = active-eq v.snapshot.institution_state.status active;
        delegated = delegated;
        kept = kept;
        epoch = ground (arith, eq_iff v.snapshot.institution_state.epoch authorization.epoch);
        delegation_epoch =
            ground (arith, eq_iff v.snapshot.delegation_state.epoch authorization.epoch);
        gateway_key = (g, g_hex, codes_eq-eq _ _ g_same);
        issuer_key = (k, k_hex, codes_eq-eq _ _ k_same);
        purpose = ground arith;
        started = from;
        unexpired = until;
      }
