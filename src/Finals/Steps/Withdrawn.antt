-- ===== src/Finals/Steps/Withdrawn.antt =====
-- `cancel`, `revoke` and `activateKey` of services/api/src/finals-authority.ts, and the calls of
-- `activeIntent`, `credential` and `consume` that come later.
use call_sign.Prelude.{
  ℕ, ◌≡◌, ◌≢◌, refl, ap, ◌∙◌, String, some, true, false, arith, lookup, lookup-insert_self, ok,
  lookup-update_values,
}
use call_sign.Prelude.Kept.{Kept-lookup}
use call_sign.Protocol.Finals.Credential.{DelegationCredential}
use call_sign.Finals.Record.{
  Actor, IntentStatus, is_open, ContactIntent, Service, IssuedCredential, IssuedAuthorization,
  InstitutionRecord,
}
use call_sign.Finals.Model.{active_intent}
use call_sign.Finals.Authority.Options.{AuthorityOptions, credential}
use call_sign.Finals.Authority.Consume.{ConsumeInput, Consumed, consume}
use call_sign.Finals.Authority.Lifecycle.{
  revoke_credential, cancel_authorization, cancel, activate_key, revoke,
}
use call_sign.Finals.Evolution.{IntentKept, CredentialKept, AuthorizationKept}
use call_sign.Finals.Effects.Consume.{consume-parts}
use call_sign.Finals.Effects.Lifecycle.{cancel-parts, activate_key-parts, revoke-parts}
use call_sign.Finals.Steps.{Later, Later-Evolves}

active_intent-opened :
    (options : AuthorityOptions) (r : InstitutionRecord) (id : String) (actor : Actor) (now : ℕ)
    (i : ContactIntent)
    → active_intent options.lib r id actor now ≡ ok i
    → (lookup r.intents id ≡ some i) × (is_open i.status ≡ true)
unfolding active_intent
active_intent-opened options r id actor now i h = ground arith

credential-unrevoked :
    (options : AuthorityOptions) (r : InstitutionRecord) (digest service_did : String) (now : ℕ)
    (c : DelegationCredential × Service)
    → credential options r digest service_did now ≡ ok c
    → (item : IssuedCredential) × (lookup r.credentials digest ≡ some item) × (item.revoked ≡ false)
unfolding credential
credential-unrevoked options r digest service_did now c h = ground arith

module _ (options : AuthorityOptions) where
  -- Once an intent is cancelled, no later `activeIntent` returns it, for any actor at any time; so that no attempt, permit, authorization, key or consumption comes of it any more.
  pub cancel-active_intent :
      (r r' s : InstitutionRecord) (actor actor' : Actor) (intent_id : String) (now now' : ℕ)
      (event_id : String) (i : ContactIntent)
      → cancel options r actor intent_id now event_id ≡ ok r'
      → Later options r' s
      → active_intent options.lib s intent_id actor' now' ≢ ok i
  cancel-active_intent r r' s actor actor' intent_id now now' event_id i h l a =
      let (intent, m, e) = cancel-parts options r actor intent_id now event_id r' h in
      let (found, opened) = active_intent-opened options s intent_id actor' now' i a in
      let there : lookup r'.intents intent_id
          ≡ some (record intent { status = IntentStatus.cancelled }) =
        ap (λ q. lookup q.intents intent_id) e
        ∙ lookup-insert_self r.intents intent_id
            (record intent { status = IntentStatus.cancelled }) in
      let (j, found', kept) =
        Kept-lookup IntentKept r'.intents s.intents intent_id _ ((Later-Evolves options l).intents)
          there in
      ground (arith, kept, found, found', opened)

  -- Once a credential is revoked, no later `credential` accepts its digest, and no later `consume` succeeds on an authorization that rests on it.
  pub revoke-consume :
      (r r' s s' : InstitutionRecord) (actor actor' : Actor) (digest : String)
      (input : ConsumeInput) (now now' : ℕ) (event_id event_id' : String)
      (auth : IssuedAuthorization) (c : Consumed)
      → revoke options r actor digest now event_id ≡ ok r'
      → Later options r' s
      → lookup s.authorizations input.authorization_id ≡ some auth
      → auth.payload.vc_digest ≡ digest
      → consume options s actor' input now' event_id' ≢ ok (c, s')
  revoke-consume r r' s s' actor actor' digest input now now' event_id event_id' auth c h l at same
        k =
      let (item, m, e) = revoke-parts options r actor digest now event_id r' h in
      let there : lookup r'.credentials digest ≡ some (revoke_credential item) =
        ap (λ q. lookup q.credentials digest) e
        ∙ lookup-insert_self r.credentials digest (revoke_credential item) in
      let (kept_item, found, (_, _, kept)) =
        Kept-lookup CredentialKept r'.credentials s.credentials digest (revoke_credential item)
          ((Later-Evolves options l).credentials) there in
      let (auth', at', intent, _, _, _, _, _, d, is_ok, _, _, _, _, _, _, _, _, _) =
        consume-parts options s actor' input now' event_id' c s' k in
      let (item', found', unrevoked) =
        credential-unrevoked options s auth'.payload.vc_digest intent.service_did now' d is_ok in
      let dead = kept refl in cc

  -- Once the approval key is rotated, no later `consume` succeeds on an authorization that was on record before.
  pub activate_key-consume :
      (r r' s s' : InstitutionRecord) (actor actor' : Actor) (version : ℕ) (epoch kid : String)
      (input : ConsumeInput) (now now' : ℕ) (event_id event_id' : String)
      (auth : IssuedAuthorization) (c : Consumed)
      → activate_key options r actor version epoch now event_id ≡ ok (kid, r')
      → Later options r' s
      → lookup r.authorizations input.authorization_id ≡ some auth
      → consume options s actor' input now' event_id' ≢ ok (c, s')
  activate_key-consume r r' s s' actor actor' version epoch kid input now now' event_id event_id'
        auth c h l at k =
      let (_, _, _, _, _, _, _, e) =
        activate_key-parts options r actor version epoch now event_id kid r' h in
      let there : lookup r'.authorizations input.authorization_id
          ≡ some (cancel_authorization auth) =
        rw (e, lookup-update_values, at) refl in
      let (auth', found, (_, _, kept)) =
        Kept-lookup AuthorizationKept r'.authorizations s.authorizations input.authorization_id
          (cancel_authorization auth) ((Later-Evolves options l).authorizations) there in
      let (auth2, found', _, _, live, _, _, _, _, _, _, _, _, _, _, _, _, _, _) =
        consume-parts options s actor' input now' event_id' c s' k in
      let dead = kept refl in cc

  -- Once an intent is cancelled, no later `consume` of an authorization for it succeeds.
  pub cancel-consume :
      (r r' s s' : InstitutionRecord) (actor actor' : Actor) (intent_id : String)
      (input : ConsumeInput) (now now' : ℕ) (event_id event_id' : String)
      (auth : IssuedAuthorization) (c : Consumed)
      → cancel options r actor intent_id now event_id ≡ ok r'
      → Later options r' s
      → lookup s.authorizations input.authorization_id ≡ some auth
      → auth.payload.intent_id ≡ intent_id
      → consume options s actor' input now' event_id' ≢ ok (c, s')
  cancel-consume r r' s s' actor actor' intent_id input now now' event_id event_id' auth c h l at
        same k =
      let (auth', at', intent, a, _, _, _, _, _, _, _, _, _, _, _, _, _, _, _) =
        consume-parts options s actor' input now' event_id' c s' k in
      let same_auth : auth'.payload.intent_id ≡ intent_id = cc in
      cancel-active_intent r r' s actor actor' intent_id now now' event_id intent h l
        (rw (← same_auth) a)
