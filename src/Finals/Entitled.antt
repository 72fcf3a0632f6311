-- ===== src/Finals/Entitled.antt =====
-- `consume` of services/api/src/finals-authority.ts: the actor, the record and the receipt.
use call_sign.Prelude.{
  ℕ, ◌+◌, ◌≤◌, ◌<◌, ◌≡◌, String, some, true, false, [], ◌∷◌, arith, eq_iff, nat_eq, string_eq,
  lookup, ok,
}
use call_sign.Protocol.Temporal.{
  IsCurrent, assert_temporal_validity, assert_temporal_validity-IsCurrent,
}
use call_sign.Protocol.Signing.{hash_canonical, verify_payload}
use call_sign.Protocol.Signing.Sound.{IsSigned, verify_payload-IsSigned}
use call_sign.Protocol.Json.{Jwk}
use call_sign.Protocol.Finals.Messages.{
  SessionPermit, session_permit_json, ContactAuthorizationV2, authorization_v2_json,
}
use call_sign.Protocol.Finals.Binding.{
  binding_json, PossessionProof, ProofRole, sender, recipient, same_role, possession_clock,
}
use call_sign.Finals.Record.{
  Actor, is_open, ContactIntent, IssuedAuthorization, RecipientKey, InstitutionRecord,
}
use call_sign.Finals.Model.{membership, may_see, active_intent}
use call_sign.Finals.Authority.Options.{AuthorityOptions, key_hash, possession_schema}
use call_sign.Finals.Authority.Consume.{
  ConsumeInput, Consumed, check_possession, other_proof, consume,
}
use call_sign.Finals.Effects.Consume.{consume-parts}

is_recipient :
    (r : InstitutionRecord) (actor : Actor)
    → membership r actor ("recipient" ∷ []) ≡ ok tt
    → actor.role ≡ "recipient"
unfolding membership
is_recipient r actor h = ground (arith, eq_iff "recipient" actor.role)

sees_own :
    (r : InstitutionRecord) (i : ContactIntent) (actor : Actor)
    → may_see r i actor ≡ true
    → actor.role ≡ "recipient"
    → i.recipient_id ≡ actor.user_id
unfolding may_see
sees_own r i actor h e =
    ground (arith, eq_iff actor.role "recipient", eq_iff i.recipient_id actor.user_id)

active_intent-parts :
    (options : AuthorityOptions) (r : InstitutionRecord) (id : String) (actor : Actor) (now : ℕ)
    (i : ContactIntent)
    → active_intent options.lib r id actor now ≡ ok i
    → (lookup r.intents id ≡ some i)
      × (may_see r i actor ≡ true)
      × (is_open i.status ≡ true)
      × (now < i.expires_at)
unfolding active_intent
active_intent-parts options r id actor now i h = ground arith

module _ (options : AuthorityOptions) where
  -- A proof that the holder of `key` signed, for this authorization and this binding, within the last minute of its validity.
  pub record IsPossession (a : ContactAuthorizationV2) (binding_hash : String) (now : ℕ)
      (role : ProofRole) (jws : String) (key : Jwk) : Type 0 where
    pub proof : PossessionProof
    pub signed :
        IsSigned options.lib
          (possession_schema options)
          (λ _. "PossessionProof")
          jws
          key
          (record { type = "PossessionProof"; kid = key_hash options key })
          proof
    pub current : IsCurrent (possession_clock proof) now
    pub short : proof.expires_at ≤ proof.issued_at + 60
    pub role_matches : same_role proof.role role ≡ true
    pub authorization : proof.authorization_id ≡ a.authorization_id
    pub binding : proof.binding_hash ≡ binding_hash
    pub session : proof.session_id ≡ a.session_id

  possession-parts :
      (a : ContactAuthorizationV2) (binding_hash : String) (now : ℕ) (role : ProofRole)
      (jws : String) (key : Jwk)
      → check_possession options a binding_hash now role jws key ≡ ok tt
      → (proof : PossessionProof) × (verify_payload options.lib
            (possession_schema options)
            (λ _. "PossessionProof")
            jws
            key
            (record { type = "PossessionProof"; kid = key_hash options key })
          ≡ ok proof)
        × (assert_temporal_validity (possession_clock proof) now ≡ ok tt)
        × (other_proof options a binding_hash role proof ≡ false)
  unfolding check_possession
  possession-parts a binding_hash now role jws key h = ground arith

  check_possession-IsPossession :
      (a : ContactAuthorizationV2) (binding_hash : String) (now : ℕ) (role : ProofRole)
      (jws : String) (key : Jwk)
      → check_possession options a binding_hash now role jws key ≡ ok tt
      → IsPossession a binding_hash now role jws key
  check_possession-IsPossession a binding_hash now role jws key h =
      let (proof, v, t, o) = possession-parts a binding_hash now role jws key h in
      record {
        proof = proof;
        signed =
            verify_payload-IsSigned options.lib (possession_schema options) (λ _. "PossessionProof")
              jws key _ proof v;
        current = (assert_temporal_validity-IsCurrent (possession_clock proof) now).0 t;
        short = ground arith;
        role_matches = ground arith;
        authorization = ground (arith, eq_iff proof.authorization_id a.authorization_id);
        binding = ground (arith, eq_iff proof.binding_hash binding_hash);
        session = ground (arith, eq_iff proof.session_id a.session_id);
      }

  -- What `consume` has made sure of before it settles: the recipient of an open intent holds an
  -- authorization under the current key and epoch, which is not cancelled; the permit, the two keys
  -- and the binding are those of the authorization; and both ends have signed the binding.
  pub record IsEntitled (r : InstitutionRecord) (actor : Actor) (input : ConsumeInput) (now : ℕ)
      : Type 0 where
    pub auth : IssuedAuthorization
    pub on_record : lookup r.authorizations input.authorization_id ≡ some auth
    pub live : auth.cancelled ≡ false
    pub key_version : auth.payload.approval_key_version ≡ r.approval_key_version
    pub epoch : auth.payload.epoch ≡ r.epoch
    pub intent : ContactIntent
    pub intended : lookup r.intents auth.payload.intent_id ≡ some intent
    pub opened : is_open intent.status ≡ true
    pub unexpired : now < intent.expires_at
    pub recipient_is_actor : intent.recipient_id ≡ actor.user_id
    pub permit : SessionPermit
    pub permit_hash :
        hash_canonical options.lib (session_permit_json permit) ≡ auth.payload.permit_hash
    pub sender_key : key_hash options permit.browser_public_key ≡ auth.payload.browser_key_hash
    pub enrolled : RecipientKey
    pub enrolled_key : lookup r.recipient_keys auth.payload.session_id ≡ some enrolled
    pub enrolled_by : enrolled.user_id ≡ actor.user_id
    pub enrolled_until : now < enrolled.expires_at
    pub bound_authorization :
        input.binding.authorization_hash
        ≡ hash_canonical options.lib (authorization_v2_json auth.payload)
    pub bound_session : input.binding.session_id ≡ auth.payload.session_id
    pub bound_recipient : input.binding.recipient_id ≡ actor.user_id
    pub bound_key : input.binding.recipient_key_hash ≡ key_hash options enrolled.public_key
    pub sender_possession :
        IsPossession auth.payload
          (hash_canonical options.lib (binding_json input.binding))
          now
          sender
          input.sender_proof
          permit.browser_public_key
    pub recipient_possession :
        IsPossession auth.payload
          (hash_canonical options.lib (binding_json input.binding))
          now
          recipient
          input.recipient_proof
          enrolled.public_key

  consume-membership :
      (r : InstitutionRecord) (actor : Actor) (input : ConsumeInput) (now : ℕ) (event_id : String)
      (c : Consumed) (r' : InstitutionRecord)
      → consume options r actor input now event_id ≡ ok (c, r')
      → membership r actor ("recipient" ∷ []) ≡ ok tt
  unfolding consume
  consume-membership r actor input now event_id c r' h = ground arith

  -- A `consume` that succeeds, whether it is the first one or a replay, was called by the recipient
  -- of an open and unexpired intent, with an authorization on record that is not cancelled and was
  -- issued under the current approval key and epoch; the permit and its browser key, and the session,
  -- the recipient and the enrolled key of the binding, are those of the authorization; and the
  -- browser and the recipient have each signed the hash of the binding with their own key, in proofs
  -- that are current and run for at most a minute.
  pub consume-IsEntitled :
      (r : InstitutionRecord) (actor : Actor) (input : ConsumeInput) (now : ℕ) (event_id : String)
      (c : Consumed) (r' : InstitutionRecord)
      → consume options r actor input now event_id ≡ ok (c, r')
      → IsEntitled r actor input now
  consume-IsEntitled r actor input now event_id c r' h =
      let (
        auth, found, intent, i, live, attempt, _, current, _, _, permit, _, enrolled, key, owner, o,
        p, q, _,
      ) =
        consume-parts options r actor input now event_id c r' h in
      let (intended, sees, opened, unexpired) =
        active_intent-parts options r auth.payload.intent_id actor now intent i in
      let role = is_recipient r actor (consume-membership r actor input now event_id c r' h) in
      record {
        auth = auth;
        on_record = found;
        live = live;
        key_version = ground arith;
        epoch = ground (arith, eq_iff auth.payload.epoch r.epoch);
        intent = intent;
        intended = intended;
        opened = opened;
        unexpired = unexpired;
        recipient_is_actor = sees_own r intent actor sees role;
        permit = permit;
        permit_hash = ground (
          arith,
          eq_iff (hash_canonical options.lib (session_permit_json permit)) auth.payload.permit_hash,
        );
        sender_key = ground (
          arith,
          eq_iff (key_hash options permit.browser_public_key) auth.payload.browser_key_hash,
        );
        enrolled = enrolled;
        enrolled_key = key;
        enrolled_by = ground (arith, eq_iff enrolled.user_id actor.user_id);
        enrolled_until = ground arith;
        bound_authorization = ground (
          arith,
          eq_iff input.binding.authorization_hash
              (hash_canonical options.lib (authorization_v2_json auth.payload)),
        );
        bound_session = ground (arith, eq_iff input.binding.session_id auth.payload.session_id);
        bound_recipient = ground (arith, eq_iff input.binding.recipient_id actor.user_id);
        bound_key =
            ground (
              arith,
              eq_iff input.binding.recipient_key_hash (key_hash options enrolled.public_key),
            );
        sender_possession =
            check_possession-IsPossession auth.payload _ now sender input.sender_proof
              permit.browser_public_key p;
        recipient_possession =
            check_possession-IsPossession auth.payload _ now recipient input.recipient_proof
              enrolled.public_key q;
      }
