-- ===== src/Finals/Receipt.antt =====
-- The receipt of `consume` in services/api/src/finals-authority.ts.
use call_sign.Prelude.{ℕ, ◌+◌, ◌≤◌, ◌≡◌, ap, String, Option, none, some, false, arith, lookup, ok}
use call_sign.Protocol.Temporal.{IsCurrent, assert_temporal_validity-IsCurrent}
use call_sign.Protocol.Signing.{hash_canonical}
use call_sign.Protocol.Finals.Messages.{
  SessionPermit, ContactAuthorizationV2, authorization_v2_json, authorization_v2_clock,
}
use call_sign.Protocol.Finals.Binding.{BindingV2, binding_json, binding_clock, ReceiptV2}
use call_sign.Finals.Record.{
  Actor, CallAttempt, IssuedAuthorization, Consumption, InstitutionRecord,
}
use call_sign.Finals.Authority.Options.{AuthorityOptions}
use call_sign.Finals.Authority.Consume.{ConsumeInput, Consumed, settle, consume}
use call_sign.Finals.Effects.Consume.{consume-parts, settle-first, settle-replay}

module _ (options : AuthorityOptions) where
  -- What the receipt says.
  pub record IsReceipt (r : InstitutionRecord) (input : ConsumeInput) (now : ℕ)
      (receipt : ReceiptV2) : Type 0 where
    pub auth : IssuedAuthorization
    pub on_record : lookup r.authorizations input.authorization_id ≡ some auth
    pub names : receipt.authorization_id ≡ auth.payload.authorization_id
    pub authorization_hash :
        receipt.authorization_hash ≡ hash_canonical options.lib (authorization_v2_json auth.payload)
    pub binding_hash :
        receipt.binding_hash ≡ hash_canonical options.lib (binding_json input.binding)
    pub recipient : receipt.recipient_id ≡ auth.payload.recipient_id
    pub session : receipt.session_id ≡ auth.payload.session_id
    pub consumed_at : receipt.consumed_at ≡ now
    pub a_minute : receipt.expires_at ≤ now + 60
    pub attempt : CallAttempt
    pub attempted : lookup r.attempts auth.payload.attempt_id ≡ some attempt
    pub within_attempt : receipt.expires_at ≤ attempt.expires_at
    pub current_authorization : IsCurrent (authorization_v2_clock auth.payload) now
    pub current_binding : IsCurrent (binding_clock input.binding) now

  first :
      (r : InstitutionRecord) (actor : Actor) (a : ContactAuthorizationV2) (attempt : CallAttempt)
      (permit : SessionPermit) (binding : BindingV2) (now : ℕ) (event_id : String)
      (o : Option Consumption) (c : Consumed) (r' : InstitutionRecord)
      → c.replay ≡ false
      → settle options r actor a attempt permit binding now event_id o ≡ ok (c, r')
      → settle options r actor a attempt permit binding now event_id none ≡ ok (c, r')
  first r actor a attempt permit binding now event_id none c r' f h = h
  first r actor a attempt permit binding now event_id (some p) c r' f h =
      let (_, e, _) =
        settle-replay options r actor a attempt permit binding now event_id p c r' h in
      cc

  -- The receipt of a first `consume` names the authorization on record, with its hash, its recipient
  -- and its session, and the hash of the binding; it is dated now, while the authorization and the
  -- binding are current, and it runs for at most a minute and no longer than the attempt.
  pub consume-IsReceipt :
      (r : InstitutionRecord) (actor : Actor) (input : ConsumeInput) (now : ℕ) (event_id : String)
      (c : Consumed) (r' : InstitutionRecord)
      → consume options r actor input now event_id ≡ ok (c, r')
      → c.replay ≡ false
      → IsReceipt r input now c.payload
  consume-IsReceipt r actor input now event_id c r' h f =
      let (auth, found, _, _, _, attempt, m, _, _, _, permit, _, _, _, _, _, _, _, p) =
        consume-parts options r actor input now event_id c r' h in
      let (t, u, _, _, _, e, _, _, _) =
        settle-first options r actor auth.payload attempt permit input.binding now event_id c r'
          (first r actor auth.payload attempt permit input.binding now event_id _ c r' f p) in
      record {
        auth = auth;
        on_record = found;
        names = ap (λ p. p.authorization_id) e;
        authorization_hash = ap (λ p. p.authorization_hash) e;
        binding_hash = ap (λ p. p.binding_hash) e;
        recipient = ap (λ p. p.recipient_id) e;
        session = ap (λ p. p.session_id) e;
        consumed_at = ap (λ p. p.consumed_at) e;
        a_minute = omega (arith, ap (λ p. p.expires_at) e);
        attempt = attempt;
        attempted = m;
        within_attempt = omega (arith, ap (λ p. p.expires_at) e);
        current_authorization =
            (assert_temporal_validity-IsCurrent (authorization_v2_clock auth.payload) now).0 t;
        current_binding =
            (assert_temporal_validity-IsCurrent (binding_clock input.binding) now).0 u;
      }
