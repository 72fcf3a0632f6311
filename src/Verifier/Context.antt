-- ===== src/Verifier/Context.antt =====
-- `verifyAuthorizationContext` of packages/verifier/src/index.ts.
use call_sign.Prelude.{
  ℕ, ◌≡◌, refl, ◌↔◌, ◌⊎◌, String, Option, none, some, Bool, false, ◌&&◌, ◌||◌, arith, eq_iff, ◌!=◌,
  string_eq, Checked, ok, error, throw_if, ◌>>◌,
}
use call_sign.Protocol.Json.{Libraries}
use call_sign.Protocol.Temporal.{
  assert_temporal_validity, assert_temporal_validity-IsCurrent, IsCurrent,
}
use call_sign.Protocol.Contact.{
  ContactAuthorization, PurposeCode, purpose_eq, purpose_beq_iff, contact_authorization_json,
  authorization_clock,
}
use call_sign.Protocol.Session.{SessionBinding}
use call_sign.Protocol.Signing.{hash_canonical}

-- The argument `expected`.
pub record ExpectedContact : Type 0 where
  pub recipient_id : String
  pub session_id : Option String
  pub epoch : String
  pub delegation_id : String
  pub purpose_code : PurposeCode
  pub now_seconds : ℕ
  pub binding : Option SessionBinding

-- `expected.sessionId && actual !== expected.sessionId`; the empty text counts as absent
abbrev other_session : Option String → String → Bool
other_session none actual = false
other_session (some s) actual = s != "" && actual != s

module _ (lib : Libraries) (authorization : ContactAuthorization) (expected : ExpectedContact) where
  unfoldable pub check_binding : Option SessionBinding → Checked
  check_binding none = ok tt
  check_binding (some binding) = do
    throw_if
        (binding.authorization_hash
          != hash_canonical lib (contact_authorization_json authorization))
        (error "AUTHORIZATION_HASH_MISMATCH")
    throw_if
        (binding.recipient_id != expected.recipient_id
          || binding.delegation_id != expected.delegation_id
          || binding.epoch != expected.epoch)
        (error "BINDING_CONTEXT_MISMATCH")
    throw_if (other_session expected.session_id binding.session_id) (error "SESSION_MISMATCH")

  unfoldable pub verify_authorization_context : Checked
  verify_authorization_context = do
    assert_temporal_validity (authorization_clock authorization) expected.now_seconds
    throw_if (authorization.recipient_id != expected.recipient_id) (error "RECIPIENT_MISMATCH")
    throw_if (authorization.epoch != expected.epoch) (error "EPOCH_MISMATCH")
    throw_if (authorization.delegation_id != expected.delegation_id) (error "DELEGATION_MISMATCH")
    throw_if (authorization.purpose_code != expected.purpose_code) (error "PURPOSE_MISMATCH")
    check_binding expected.binding

  abbrev SameSession : Option String → String → Type 0
  SameSession none actual = Unit
  SameSession (some s) actual = (s ≡ "") ⊎ (actual ≡ s)

  -- The session binding names this very authorization and the same parties.
  pub record Binds (binding : SessionBinding) : Type 0 where
    pub hash :
        binding.authorization_hash ≡ hash_canonical lib (contact_authorization_json authorization)
    pub recipient : binding.recipient_id ≡ expected.recipient_id
    pub delegation : binding.delegation_id ≡ expected.delegation_id
    pub epoch : binding.epoch ≡ expected.epoch
    pub session : SameSession expected.session_id binding.session_id

  abbrev BindsIfGiven : Option SessionBinding → Type 0
  BindsIfGiven none = Unit
  BindsIfGiven (some binding) = Binds binding

  pub record IsExpected : Type 0 where
    pub current : IsCurrent (authorization_clock authorization) expected.now_seconds
    pub recipient : authorization.recipient_id ≡ expected.recipient_id
    pub epoch : authorization.epoch ≡ expected.epoch
    pub delegation : authorization.delegation_id ≡ expected.delegation_id
    pub purpose : authorization.purpose_code ≡ expected.purpose_code
    pub binding : BindsIfGiven expected.binding

  check_binding-Binds :
      (o : Option SessionBinding) (s : Option String)
      → expected.session_id ≡ s
      → (check_binding o ≡ ok tt) ↔ BindsIfGiven o
  unfolding check_binding
  check_binding-Binds none s e = ground arith
  check_binding-Binds (some b) none e = ground (
    arith,
    eq_iff b.authorization_hash (hash_canonical lib (contact_authorization_json authorization)),
    eq_iff b.recipient_id expected.recipient_id,
    eq_iff b.delegation_id expected.delegation_id,
    eq_iff b.epoch expected.epoch,
  )
  check_binding-Binds (some b) (some s) e = ground (
    arith,
    eq_iff b.authorization_hash (hash_canonical lib (contact_authorization_json authorization)),
    eq_iff b.recipient_id expected.recipient_id,
    eq_iff b.delegation_id expected.delegation_id,
    eq_iff b.epoch expected.epoch,
    eq_iff s "",
    eq_iff b.session_id s,
  )

  -- `verifyAuthorizationContext` returns exactly for an authorization that is current and names the
  -- expected recipient, epoch, delegation and purpose, together with a session binding, where one is
  -- given, that holds the hash of this authorization, the expected recipient, delegation and epoch,
  -- and the expected session where one is given.
  pub verify_authorization_context-IsExpected : (verify_authorization_context ≡ ok tt) ↔ IsExpected
  unfolding verify_authorization_context
  verify_authorization_context-IsExpected = ground (
    arith,
    assert_temporal_validity-IsCurrent (authorization_clock authorization) expected.now_seconds,
    check_binding-Binds expected.binding expected.session_id refl,
    eq_iff authorization.recipient_id expected.recipient_id,
    eq_iff authorization.epoch expected.epoch,
    eq_iff authorization.delegation_id expected.delegation_id,
    purpose_beq_iff authorization.purpose_code expected.purpose_code,
  )
