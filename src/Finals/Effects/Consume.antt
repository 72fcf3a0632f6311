-- ===== src/Finals/Effects/Consume.antt =====
-- `consume`: what a success says, and what it leaves of the record.
use call_sign.Prelude.{
  ℕ, ◌≤◌, ◌≡◌, refl, String, Option, none, some, true, false, not, ◌||◌, arith, eq_iff, ◌!=◌,
  nat_eq, string_eq, leb, lookup, insert, ok,
}
use call_sign.Prelude.Kept.{Kept-insert}
use call_sign.Protocol.Json.{Jwk}
use call_sign.Protocol.Temporal.{assert_temporal_validity}
use call_sign.Protocol.Signing.{hash_canonical, verify_payload, sign_payload}
use call_sign.Protocol.Finals.Credential.{DelegationCredential}
use call_sign.Protocol.Finals.Messages.{
  SessionPermit, permit_clock, ContactAuthorizationV2, authorization_v2_clock,
}
use call_sign.Protocol.Finals.Binding.{
  BindingV2, binding_clock, binding_json, sender, recipient, receipt_json,
}
use call_sign.Finals.Record.{
  Actor, ContactIntent, AttemptStatus, is_consumable, CallAttempt, Service, IssuedAuthorization,
  Consumption, RecipientKey, InstitutionRecord,
}
use call_sign.Finals.Model.{active_intent}
use call_sign.Finals.Evolution.{
  AttemptKept, AttemptKept-refl, ConsumptionKept, Evolves, Evolves-refl, Evolves-trans, rank,
}
use call_sign.Finals.Evolution.Updates.{Evolves-attempts, Evolves-consumptions, Evolves-event}
use call_sign.Finals.Authority.Options.{
  AuthorityOptions, SigningKey, record_event, permit_schema, credential, issuer_key,
}
use call_sign.Finals.Authority.Consume.{
  ConsumeInput, Consumed, check_possession, other_binding, receipt_of, settle, consume,
}

module _ (options : AuthorityOptions) where
  pub consume-parts :
      (r : InstitutionRecord) (actor : Actor) (input : ConsumeInput) (now : ℕ) (event_id : String)
      (c : Consumed) (r' : InstitutionRecord)
      → consume options r actor input now event_id ≡ ok (c, r')
      → (auth : IssuedAuthorization) × (lookup r.authorizations input.authorization_id ≡ some auth)
        × (intent : ContactIntent) × (active_intent options.lib r auth.payload.intent_id actor now
            ≡ ok intent)
        × (auth.cancelled ≡ false)
        × (attempt : CallAttempt) × (lookup r.attempts auth.payload.attempt_id ≡ some attempt)
        × ((not (is_consumable attempt.status)
              || auth.payload.approval_key_version != r.approval_key_version
              || auth.payload.epoch != r.epoch)
            ≡ false)
        × (d : DelegationCredential × Service) × (credential options r auth.payload.vc_digest
              intent.service_did now
            ≡ ok d)
        × (permit : SessionPermit) × (verify_payload options.lib
              (permit_schema options)
              (λ _. "SenderSessionPermit")
              input.permit_jws
              d.1.public_key
              (record { type = "SenderSessionPermit"; kid = d.1.kid })
            ≡ ok permit)
        × (enrolled : RecipientKey) × (lookup r.recipient_keys auth.payload.session_id
            ≡ some enrolled)
        × ((enrolled.user_id != actor.user_id || leb enrolled.expires_at now) ≡ false)
        × (other_binding options actor auth.payload permit enrolled input.binding ≡ false)
        × (check_possession options auth.payload
              (hash_canonical options.lib (binding_json input.binding))
              now
              sender
              input.sender_proof
              permit.browser_public_key
            ≡ ok tt)
        × (check_possession options auth.payload
              (hash_canonical options.lib (binding_json input.binding))
              now
              recipient
              input.recipient_proof
              enrolled.public_key
            ≡ ok tt)
        × (settle options r actor auth.payload attempt permit input.binding now event_id
              (lookup r.consumptions auth.payload.authorization_id)
            ≡ ok (c, r'))
  unfolding consume
  consume-parts r actor input now event_id c r' h = ground arith

  -- A consumption that is on record comes back as it is.
  pub settle-replay :
      (r : InstitutionRecord) (actor : Actor) (a : ContactAuthorizationV2) (attempt : CallAttempt)
      (permit : SessionPermit) (binding : BindingV2) (now : ℕ) (event_id : String)
      (prior : Consumption) (c : Consumed) (r' : InstitutionRecord)
      → settle options r actor a attempt permit binding now event_id (some prior) ≡ ok (c, r')
      → (prior.payload.binding_hash ≡ hash_canonical options.lib (binding_json binding))
        × (c ≡ record { payload = prior.payload; jws = prior.jws; replay = true })
        × (r' ≡ r)
  unfolding settle
  settle-replay r actor a attempt permit binding now event_id prior c r' h =
      ground (
        arith,
        eq_iff prior.payload.binding_hash (hash_canonical options.lib (binding_json binding)),
      )

  -- A first consumption is issued and put on record.
  pub settle-first :
      (r : InstitutionRecord) (actor : Actor) (a : ContactAuthorizationV2) (attempt : CallAttempt)
      (permit : SessionPermit) (binding : BindingV2) (now : ℕ) (event_id : String) (c : Consumed)
      (r' : InstitutionRecord)
      → settle options r actor a attempt permit binding now event_id none ≡ ok (c, r')
      → (assert_temporal_validity (authorization_v2_clock a) now ≡ ok tt)
        × (assert_temporal_validity (binding_clock binding) now ≡ ok tt)
        × (assert_temporal_validity (permit_clock permit) now ≡ ok tt)
        × (key : SigningKey) × (issuer_key options r ≡ ok key)
        × (c.payload
            ≡ receipt_of options r a attempt
                (hash_canonical options.lib (binding_json binding))
                now)
        × (c.jws
            ≡ sign_payload options.lib
                (receipt_json c.payload)
                "ConsumptionReceipt"
                key.private_key
                key.kid)
        × (c.replay ≡ false)
        × (r'
            ≡ record_event options
                (record r {
                  consumptions =
                      insert r.consumptions a.authorization_id
                        (record { payload = c.payload; jws = c.jws });
                  attempts =
                      insert r.attempts a.attempt_id
                        (record attempt { status = AttemptStatus.consumed });
                })
                actor
                "authorization.consumed"
                a.authorization_id
                now
                event_id)
  unfolding settle
  settle-first r actor a attempt permit binding now event_id c r' h = ground arith

  pub consumable-rank : (s : AttemptStatus) → is_consumable s ≡ true → rank s ≤ 2
  consumable-rank AttemptStatus.authorized h = omega arith
  consumable-rank AttemptStatus.consumed h = omega arith
  consumable-rank AttemptStatus.created h = cc
  consumable-rank AttemptStatus.cancelled h = cc
  consumable-rank AttemptStatus.ended h = cc

  consumed_later :
      (a w : CallAttempt)
      → is_consumable a.status ≡ true
      → w ≡ a
      → AttemptKept w (record a { status = AttemptStatus.consumed })
  consumed_later a w s e = rw (e) (refl, consumable-rank a.status s)

  settle-Evolves :
      (hash : Jwk → String) (r : InstitutionRecord) (actor : Actor) (a : ContactAuthorizationV2)
      (attempt : CallAttempt) (permit : SessionPermit) (binding : BindingV2) (now : ℕ)
      (event_id : String) (o : Option Consumption) (c : Consumed) (r' : InstitutionRecord)
      → lookup r.attempts a.attempt_id ≡ some attempt
      → is_consumable attempt.status ≡ true
      → lookup r.consumptions a.authorization_id ≡ o
      → settle options r actor a attempt permit binding now event_id o ≡ ok (c, r')
      → Evolves hash r r'
  settle-Evolves hash r actor a attempt permit binding now event_id (some p) c r' m s e h =
      rw ((settle-replay r actor a attempt permit binding now event_id p c r' h).2)
        (Evolves-refl hash r)
  settle-Evolves hash r actor a attempt permit binding now event_id none c r' m s e h =
      let (_, _, _, _, _, _, _, _, q) =
        settle-first r actor a attempt permit binding now event_id c r' h in
      rw (q) (
        Evolves-trans hash r _ _
          (Evolves-trans hash r _ _
            (Evolves-consumptions hash r _ (
              Kept-insert ConsumptionKept (λ k. refl) r.consumptions a.authorization_id
                (record { payload = c.payload; jws = c.jws }) (λ w k. cc)))
            (Evolves-attempts hash _ _ (
              Kept-insert AttemptKept AttemptKept-refl r.attempts a.attempt_id
                (record attempt { status = AttemptStatus.consumed })
                (λ w k. consumed_later attempt w s (ground arith)))))
          (Evolves-event options hash _ actor "authorization.consumed" a.authorization_id now
            event_id))

  pub consume-Evolves :
      (hash : Jwk → String) (r : InstitutionRecord) (actor : Actor) (input : ConsumeInput) (now : ℕ)
      (event_id : String) (c : Consumed) (r' : InstitutionRecord)
      → consume options r actor input now event_id ≡ ok (c, r')
      → Evolves hash r r'
  consume-Evolves hash r actor input now event_id c r' h =
      let (auth, _, _, _, _, attempt, m, g, _, _, permit, _, _, _, _, _, _, _, s) =
        consume-parts r actor input now event_id c r' h in
      settle-Evolves hash r actor auth.payload attempt permit input.binding now event_id
        (lookup r.consumptions auth.payload.authorization_id) c r' m (ground arith) refl s
