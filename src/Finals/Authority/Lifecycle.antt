-- ===== src/Finals/Authority/Lifecycle.antt =====
-- `cancel`, `end`, `activateKey` and `revoke` of FinalsAuthority. An operation that returns only
-- constants returns the record alone.
use call_sign.Prelude.{
  ℕ, ◌+◌, String, Option, none, some, true, ◌||◌, List, [], ◌∷◌, leb, ◌==◌, ◌!=◌, string_eq, nat_eq,
  Dict, lookup, insert, values, update_values, Result, ok, http_error, if◌then◌else◌, throw_if,
  or_throw, ◌>>=◌, ◌>>◌,
}
use call_sign.Prelude.Text.{big_int}
use call_sign.Finals.Record.{
  Actor, IntentStatus, AttemptStatus, is_ended, CallAttempt, IssuedCredential, IssuedAuthorization,
  InstitutionStatus, InstitutionRecord,
}
use call_sign.Finals.Model.{active_intent, membership}
use call_sign.Finals.Authority.Options.{AuthorityOptions, record_event}

-- `if (attempt.status !== "ended") attempt.status = "cancelled"`
abbrev pub cancel_attempt : CallAttempt → CallAttempt
cancel_attempt attempt =
    if is_ended attempt.status then attempt else record attempt { status = AttemptStatus.cancelled }

abbrev pub cancel_authorization : IssuedAuthorization → IssuedAuthorization
cancel_authorization auth = record auth { cancelled = true }

abbrev pub revoke_credential : IssuedCredential → IssuedCredential
revoke_credential item = record item { revoked = true }

-- The two loops of `cancel`.
abbrev pub cancel_attempt_of : String → CallAttempt → CallAttempt
cancel_attempt_of intent_id attempt =
    if attempt.intent_id == intent_id then cancel_attempt attempt else attempt

abbrev pub cancel_authorization_of : String → IssuedAuthorization → IssuedAuthorization
cancel_authorization_of intent_id auth =
    if auth.payload.intent_id == intent_id then cancel_authorization auth else auth

-- The loop of `revoke`: on the authorizations, and on the attempts that they name.
abbrev pub revoke_authorization : String → IssuedAuthorization → IssuedAuthorization
revoke_authorization digest auth =
    if auth.payload.vc_digest == digest then cancel_authorization auth else auth

unfoldable pub cancel_entry : Dict CallAttempt → String → Option CallAttempt → Dict CallAttempt
cancel_entry attempts id none = attempts
cancel_entry attempts id (some attempt) = insert attempts id (cancel_attempt attempt)

unfoldable pub revoke_attempts :
    String → List IssuedAuthorization → Dict CallAttempt → Dict CallAttempt
revoke_attempts digest [] attempts = attempts
revoke_attempts digest (auth ∷ rest) attempts =
    let id = auth.payload.attempt_id in
    revoke_attempts digest rest (
      if auth.payload.vc_digest == digest
      then cancel_entry attempts id (lookup attempts id)
      else attempts)

module _ (options : AuthorityOptions) where
  unfoldable pub cancel : InstitutionRecord → Actor → String → ℕ → String → Result InstitutionRecord
  cancel r actor intent_id now event_id = do
    membership r actor ("institution" ∷ [])
    intent ← or_throw (lookup r.intents intent_id) (http_error 404 "INTENT_NOT_FOUND")
    let r' : InstitutionRecord = record r {
      intents = insert r.intents intent_id (record intent { status = IntentStatus.cancelled });
      attempts = update_values (cancel_attempt_of intent_id) r.attempts;
      authorizations = update_values (cancel_authorization_of intent_id) r.authorizations;
    }
    ok (record_event options r' actor "intent.cancelled" intent_id now event_id)

  unfoldable pub end_attempt :
      InstitutionRecord → Actor → String → ℕ → String → Result InstitutionRecord
  end_attempt r actor attempt_id now event_id = do
    attempt ← or_throw (lookup r.attempts attempt_id) (http_error 404 "ATTEMPT_NOT_FOUND")
    _ ← active_intent options.lib r attempt.intent_id actor now
    let r' : InstitutionRecord = record r {
      attempts = insert r.attempts attempt_id (record attempt { status = AttemptStatus.ended });
    }
    ok (record_event options r' actor "attempt.ended" attempt_id now event_id)

  -- The route hands over an epoch of decimal digits, so that `BigInt` reads it. The result is the
  -- new kid.
  unfoldable pub activate_key :
      InstitutionRecord → Actor → ℕ → String → ℕ → String → Result (String × InstitutionRecord)
  activate_key r actor version epoch now event_id = do
    membership r actor ("institution" ∷ [])
    throw_if (version != r.approval_key_version + 1 || leb (big_int epoch) (big_int r.epoch))
        (http_error 409 "KEY_ROTATION_INVALID")
    assert_rotation ← or_throw options.assert_rotation (http_error 409 "KEY_ROTATION_INVALID")
    key ← options.signing_key version
    public_jwk ← or_throw key.public_jwk (http_error 409 "NEW_APPROVAL_KEY_REQUIRED")
    throw_if (public_jwk.x == r.approval_public_key.x) (http_error 409 "NEW_APPROVAL_KEY_REQUIRED")
    assert_rotation r public_jwk epoch
    let r' : InstitutionRecord = record r {
      approval_key_version = version;
      approval_kid = key.kid;
      approval_public_key = public_jwk;
      epoch = epoch;
      status = InstitutionStatus.active;
      credentials = update_values revoke_credential r.credentials;
      authorizations = update_values cancel_authorization r.authorizations;
      attempts = update_values cancel_attempt r.attempts;
    }
    ok (key.kid, record_event options r' actor "approval-key.rotated" key.kid now event_id)

  unfoldable pub revoke : InstitutionRecord → Actor → String → ℕ → String → Result InstitutionRecord
  revoke r actor digest now event_id = do
    membership r actor ("institution" ∷ [])
    item ← or_throw (lookup r.credentials digest) (http_error 404 "VC_NOT_FOUND")
    let r' : InstitutionRecord = record r {
      credentials = insert r.credentials digest (revoke_credential item);
      authorizations = update_values (revoke_authorization digest) r.authorizations;
      attempts = revoke_attempts digest (values r.authorizations) r.attempts;
    }
    ok (record_event options r' actor "vc.revoked" digest now event_id)
