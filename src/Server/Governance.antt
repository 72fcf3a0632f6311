-- ===== src/Server/Governance.antt =====
-- The governance handlers of services/api/src/server.ts: suspension, and recovery by two approvers. The
-- ledger is the interface GovernanceLedger, a parameter; a transaction goes by its hash.
pub mod Quorum
pub mod Life
use call_sign.Prelude.{
  ℕ, String, Option, none, some, Bool, true, false, not, ◌&&◌, ◌||◌, List, [], ◌∷◌, ◌++◌, map, ltb,
  ◌==◌, ◌!=◌, string_eq, length, any, find, select, starts_with, if◌then◌else◌, Result, ok, err,
  error, http_error, invalid_input, throw_if, or_throw, ◌>>=◌, ◌>>◌,
}
use call_sign.Prelude.Text.{includes, codes, has_length, is_hex, matches_0x, matches_digits}
use call_sign.Protocol.Schemas.{is_address}
use call_sign.Prelude.Errors.{Failure}
use call_sign.Server.Tables.{RecoveryRequest, GovernanceProposal, ProposalSignature, Database}
use call_sign.Server.Auth.{Request, AuthSession, session_for_request, require_role, protected_write}
use call_sign.Server.Handlers.{ServerOptions}

pub record GovernanceLedger : Type 0 where
  pub suspend : String → Result String
  pub create_recovery : String → ℕ → Result RecoveryRequest
  pub sign_recovery : RecoveryRequest → String → Result String
  pub submit_recovery : RecoveryRequest → List String → Result String

-- `/^0x[0-9a-fA-F]{64}$/`
abbrev is_hash : String → Bool
is_hash s = matches_0x is_hex 64 (codes s)

-- `recoveryRequestSchema`
unfoldable pub recovery_conforms : RecoveryRequest → Bool
recovery_conforms v =
    is_hash v.institution_id
    && matches_digits (codes v.expected_epoch)
    && is_address v.new_administrator
    && is_hash v.new_approval_public_key
    && is_address v.new_emergency_stopper
    && is_hash v.nonce
    && matches_digits (codes v.deadline)

abbrev is_conflict : String → Bool
is_conflict code =
    includes code "NOT_ACTIVE"
    || includes code "NOT_SUSPENDED"
    || includes code "CONFLICT"
    || includes code "FINALIZED"

-- `ledgerHttpError`, on the failures that the ledger throws
unfoldable pub ledger_http_error : Failure → Failure
ledger_http_error (error code) = http_error (if is_conflict code then 409 else 503) code
ledger_http_error (http_error status code) = http_error (if is_conflict code then 409 else 503) code
ledger_http_error invalid_input = http_error 503 "INVALID_INPUT"

-- `.catch((error) => { throw ledgerHttpError(error); })`
abbrev pub from_ledger {ℓ} : {A : Type ℓ} → Result A → Result A
from_ledger (ok a) = ok a
from_ledger (err e) = err (ledger_http_error e)

-- The reply of `sign`: how many have signed, and the transaction once it is executed.
pub record SignReply : Type 0 where
  pub signer_user_id : String
  pub signer_count : ℕ
  pub execution : Option String

abbrev pub signatures_of : List ProposalSignature → String → List ProposalSignature
signatures_of rows id = select (λ s. s.proposal_id == id) rows

-- The primary key of the table of signatures.
abbrev pub has_signed : List ProposalSignature → String → String → Bool
has_signed rows id signer = any (λ s. s.proposal_id == id && s.signer_user_id == signer) rows

abbrev pub execute_row : String → String → GovernanceProposal → GovernanceProposal
execute_row id execution p =
    if p.id == id then record p { status = "executed"; execution = some execution } else p

module _ (o : ServerOptions) (ledger : GovernanceLedger) where
  -- GET /governance/proposals, whose order is left out
  unfoldable pub list_proposals : Database → Request → ℕ → Result (List GovernanceProposal)
  list_proposals db request now_ms = do
    session ← session_for_request o.token_hash db request none now_ms
    require_role session ("approver" ∷ "demo_operator" ∷ [])
    ok db.proposals

  -- POST /governance/institutions/:institutionId/suspend
  unfoldable pub suspend_institution : Database → Request → String → ℕ → Result String
  suspend_institution db request institution_id now_ms = do
    session ← protected_write o.token_hash db request o.web_origin now_ms
    require_role session ("demo_operator" ∷ [])
    throw_if (not o.demo_mode) (http_error 404 "DEMO_CONTROL_DISABLED")
    throw_if (not (has_length 16 128 institution_id)) invalid_input
    from_ledger (ledger.suspend institution_id)

  -- POST /governance/proposals
  unfoldable pub create_proposal :
      Database → Request → String → ℕ → ℕ → String → Result (GovernanceProposal × Database)
  create_proposal db request institution_id now now_ms id = do
    session ← protected_write o.token_hash db request o.web_origin now_ms
    require_role session ("demo_operator" ∷ [])
    throw_if (not o.demo_mode) (http_error 404 "DEMO_CONTROL_DISABLED")
    throw_if (not (has_length 16 128 institution_id)) invalid_input
    payload ← from_ledger (ledger.create_recovery institution_id now)
    let row : GovernanceProposal = record {
      id = id;
      action = "RECOVER";
      institution_id = institution_id;
      payload = payload;
      execution = none;
      status = "collecting";
    }
    ok (row, record db { proposals = db.proposals ++ row ∷ [] })

  -- POST /governance/proposals/:id/sign, up to the insertion of the signature.
  unfoldable pub check_sign :
      Database → Request → String → ℕ → Result (ProposalSignature × RecoveryRequest)
  check_sign db request id now_ms = do
    session ← protected_write o.token_hash db request o.web_origin now_ms
    require_role session ("approver" ∷ [])
    proposal ← or_throw (find (λ p. p.id == id) db.proposals) (http_error 404 "PROPOSAL_NOT_FOUND")
    throw_if (proposal.status != "collecting") (http_error 409 "PROPOSAL_ALREADY_FINALIZED")
    throw_if (not (recovery_conforms proposal.payload)) invalid_input
    signature ← from_ledger (ledger.sign_recovery proposal.payload session.user_id)
    ok (
      record { proposal_id = id; signer_user_id = session.user_id; signature = signature },
      proposal.payload,
    )

  -- The submission; its failure leaves the signature on record.
  abbrev pub submit : Database → ProposalSignature → ℕ → Result String → Result SignReply × Database
  submit db row count (err e) = (err (ledger_http_error e), db)
  submit db row count (ok execution) = (
    ok (record {
      signer_user_id = row.signer_user_id;
      signer_count = count;
      execution = some execution;
    }),
    record db { proposals = map (execute_row row.proposal_id execution) db.proposals },
  )

  -- What follows the insertion, on the signatures that are read back.
  abbrev pub count_signatures :
      Database
      → ProposalSignature
      → RecoveryRequest
      → List ProposalSignature
      → Result SignReply × Database
  count_signatures db row payload signed =
      if ltb (length signed) 2
      then (
        ok (record {
          signer_user_id = row.signer_user_id;
          signer_count = length signed;
          execution = none;
        }),
        db,
      )
      else submit db row (length signed)
          (ledger.submit_recovery payload (map (λ s. s.signature) signed))

  abbrev pub add_signature :
      Database → ProposalSignature → RecoveryRequest → Result SignReply × Database
  add_signature db row payload =
      if has_signed db.signatures row.proposal_id row.signer_user_id
      then (err (http_error 409 "SIGNER_ALREADY_COUNTED"), db)
      else count_signatures (record db { signatures = db.signatures ++ row ∷ [] }) row payload
          (signatures_of (db.signatures ++ row ∷ []) row.proposal_id)

  abbrev pub sign_checked :
      Database → Result (ProposalSignature × RecoveryRequest) → Result SignReply × Database
  sign_checked db (err e) = (err e, db)
  sign_checked db (ok (row, payload)) = add_signature db row payload

  unfoldable pub sign : Database → Request → String → ℕ → Result SignReply × Database
  sign db request id now_ms = sign_checked db (check_sign db request id now_ms)
