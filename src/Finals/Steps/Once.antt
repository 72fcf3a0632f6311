-- ===== src/Finals/Steps/Once.antt =====
-- `consume` of services/api/src/finals-authority.ts over the life of a record.
use call_sign.Prelude.{
  ℕ, ◌≡◌, refl, String, Option, none, some, true, arith, lookup, lookup-insert_self, ok,
}
use call_sign.Prelude.Kept.{Kept-lookup}
use call_sign.Protocol.Finals.Messages.{SessionPermit, ContactAuthorizationV2}
use call_sign.Protocol.Finals.Binding.{BindingV2}
use call_sign.Finals.Record.{Actor, CallAttempt, Consumption, InstitutionRecord}
use call_sign.Finals.Authority.Options.{AuthorityOptions, key_hash}
use call_sign.Finals.Authority.Consume.{ConsumeInput, Consumed, settle, consume}
use call_sign.Finals.Evolution.{AuthorizationKept, ConsumptionKept, Evolves-trans}
use call_sign.Finals.Effects.Consume.{consume-parts, settle-replay, settle-first, consume-Evolves}
use call_sign.Finals.Steps.{Later, Later-Evolves}

module _ (options : AuthorityOptions) where
  -- What `settle` returns is on record afterwards.
  settle-lookup :
      (r : InstitutionRecord) (actor : Actor) (a : ContactAuthorizationV2) (attempt : CallAttempt)
      (permit : SessionPermit) (binding : BindingV2) (now : ℕ) (event_id : String)
      (o : Option Consumption) (c : Consumed) (r' : InstitutionRecord)
      → lookup r.consumptions a.authorization_id ≡ o
      → settle options r actor a attempt permit binding now event_id o ≡ ok (c, r')
      → lookup r'.consumptions a.authorization_id
        ≡ some (record { payload = c.payload; jws = c.jws })
  settle-lookup r actor a attempt permit binding now event_id (some p) c r' e h =
      let (_, p', q) =
        settle-replay options r actor a attempt permit binding now event_id p c r' h in
      rw (q, p') e
  settle-lookup r actor a attempt permit binding now event_id none c r' e h =
      let (_, _, _, _, _, _, _, _, q) =
        settle-first options r actor a attempt permit binding now event_id c r' h in
      rw (q) (
        lookup-insert_self r.consumptions a.authorization_id
          (record { payload = c.payload; jws = c.jws }))

  settle-again :
      (s : InstitutionRecord) (actor : Actor) (a : ContactAuthorizationV2) (attempt : CallAttempt)
      (permit : SessionPermit) (binding : BindingV2) (now : ℕ) (event_id : String)
      (o : Option Consumption) (c c' : Consumed) (s' : InstitutionRecord)
      → o ≡ some (record { payload = c.payload; jws = c.jws })
      → settle options s actor a attempt permit binding now event_id o ≡ ok (c', s')
      → (c'.payload ≡ c.payload) × (c'.jws ≡ c.jws) × (c'.replay ≡ true) × (s' ≡ s)
  settle-again s actor a attempt permit binding now event_id none c c' s' e h = cc
  settle-again s actor a attempt permit binding now event_id (some p) c c' s' e h =
      let (_, q, t) =
        settle-replay options s actor a attempt permit binding now event_id p c' s' h in
      ground arith

  -- A second `consume` of an authorization that succeeds, whoever calls it and whatever operations came in
  -- between, returns the payload and the signature of the first one, marked as a replay, and changes
  -- nothing.
  pub consume-once :
      (r r' s s' : InstitutionRecord) (actor actor' : Actor) (input input' : ConsumeInput)
      (now now' : ℕ) (event_id event_id' : String) (c c' : Consumed)
      → consume options r actor input now event_id ≡ ok (c, r')
      → Later options r' s
      → consume options s actor' input' now' event_id' ≡ ok (c', s')
      → input'.authorization_id ≡ input.authorization_id
      → (c'.payload ≡ c.payload) × (c'.jws ≡ c.jws) × (c'.replay ≡ true) × (s' ≡ s)
  consume-once r r' s s' actor actor' input input' now now' event_id event_id' c c' h l h' same =
      let (auth, found, _, _, _, attempt, _, _, _, _, permit, _, _, _, _, _, _, _, p) =
        consume-parts options r actor input now event_id c r' h in
      let (auth', found', _, _, _, attempt', _, _, _, _, permit', _, _, _, _, _, _, _, p') =
        consume-parts options s actor' input' now' event_id' c' s' h' in
      let kept =
        Evolves-trans (key_hash options) r r' s
          (consume-Evolves options (key_hash options) r actor input now event_id c r' h)
          (Later-Evolves options l) in
      let recorded =
        settle-lookup r actor auth.payload attempt permit input.binding now event_id
          (lookup r.consumptions auth.payload.authorization_id) c r' refl p in
      let (stored, there, is_same) =
        Kept-lookup ConsumptionKept r'.consumptions s.consumptions auth.payload.authorization_id
          (record { payload = c.payload; jws = c.jws }) ((Later-Evolves options l).consumptions)
          recorded in
      let (auth2, found2, (same2, _, _)) =
        Kept-lookup AuthorizationKept r.authorizations s.authorizations input.authorization_id auth
          kept.authorizations found in
      settle-again s actor' auth'.payload attempt' permit' input'.binding now' event_id'
        (lookup s.consumptions auth'.payload.authorization_id) c c' s' (cc) p'
