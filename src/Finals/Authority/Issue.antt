-- ===== src/Finals/Authority/Issue.antt =====
-- `createIntent`, `createAttempt` and `issueCredential` of FinalsAuthority.
use Prim.Native.String.{◌++◌}
use call_sign.Prelude.{
  ℕ, ◌+◌, ◌*◌, min, String, false, not, [], ◌∷◌, lookup, insert, Result, ok, http_error,
  invalid_input, throw_if, or_throw, ◌>>=◌, ◌>>◌,
}
use call_sign.Protocol.Schemas.{public_key_conforms}
use call_sign.Protocol.Finals.{policy_hash, vc_digest, sign_delegation_vc}
use call_sign.Protocol.Finals.Credential.{
  CredentialSubject, CredentialStatus, DelegationCredential, credential_conforms,
}
use call_sign.Finals.Record.{
  Actor, ContactIntent, AttemptStatus, CallAttempt, IssuedCredential, is_active, InstitutionRecord,
}
use call_sign.Finals.Model.{membership, active_intent, MockFds, import_mock_fds}
use call_sign.Finals.Authority.Options.{AuthorityOptions, record_event, issuer_key, assert_did}

module _ (options : AuthorityOptions) where
  unfoldable pub create_intent :
      InstitutionRecord → Actor → MockFds → ℕ → String → Result (ContactIntent × InstitutionRecord)
  create_intent r actor input now event_id = do
    (intent, r') ← import_mock_fds options.lib r actor input now
    ok (intent, record_event options r' actor "intent.created" intent.id now event_id)

  unfoldable pub create_attempt :
      InstitutionRecord
      → Actor
      → String
      → ℕ
      → String
      → String
      → String
      → Result (CallAttempt × InstitutionRecord)
  create_attempt r actor intent_id now attempt_id session_id event_id = do
    membership r actor ("gateway" ∷ [])
    intent ← active_intent options.lib r intent_id actor now
    let attempt : CallAttempt = record {
      id = attempt_id;
      intent_id = intent_id;
      session_id = session_id;
      agent_id = actor.user_id;
      status = AttemptStatus.created;
      expires_at = min intent.expires_at (now + 300);
    }
    let r' : InstitutionRecord = record r { attempts = insert r.attempts attempt_id attempt }
    ok (attempt, record_event options r' actor "attempt.created" attempt_id now event_id)

  -- The result is the item with its digest.
  unfoldable pub issue_credential :
      InstitutionRecord
      → Actor
      → String
      → ℕ
      → String
      → String
      → Result ((IssuedCredential × String) × InstitutionRecord)
  issue_credential r actor service_did now uuid event_id = do
    membership r actor ("institution" ∷ [])
    throw_if (not (is_active r.status)) (http_error 409 "SERVICE_INACTIVE")
    service ← or_throw (lookup r.services service_did) (http_error 409 "SERVICE_INACTIVE")
    throw_if (not service.active) (http_error 409 "SERVICE_INACTIVE")
    assert_did options r service_did
    throw_if (not (public_key_conforms service.public_key)) invalid_input
    current ← policy_hash options.lib r.policy
    let credential_id = "urn:uuid:" ++ uuid
    let subject : CredentialSubject = record {
      id = service_did;
      institution_id = r.id;
      controller = service_did;
      service_key_version = service.key_version;
      public_key = service.public_key;
      policy_hash = current;
    }
    let status : CredentialStatus = record {
      id = credential_id;
      registry_address = options.registry_address;
      network_id = options.network_id;
      epoch = r.epoch;
      approval_key_version = r.approval_key_version;
    }
    let vc : DelegationCredential = record {
      id = credential_id;
      issuer = r.did;
      valid_from = now * 1000;
      valid_until = (now + 3600) * 1000;
      subject = subject;
      status = status;
    }
    throw_if (not (credential_conforms vc)) invalid_input
    key ← issuer_key options r
    jws ← sign_delegation_vc options.lib vc key.private_key key.kid
    digest ← vc_digest options.lib vc
    let item : IssuedCredential = record { vc = vc; jws = jws; revoked = false }
    let r' : InstitutionRecord = record r { credentials = insert r.credentials digest item }
    ok (
      (item, digest),
      record_event options r' actor "vc.issued.pending-ledger" credential_id now event_id,
    )
