-- ===== src/Tests/Governance.antt =====
-- A recovery that one approver has signed and a second one signs.
use mathlib.Core.List.{Nodup-nil}
use call_sign.Prelude.{
  ◌≤◌, ◌≡◌, ◌≢◌, refl, String, some, none, true, false, [], ◌∷◌, arith, ok, err, error, http_error,
  is_ok, Result, any, find, select, lookup, length, ◌==◌, string_eq,
}
use call_sign.Prelude.Text.{codes, matches_0x, matches_class, matches_digits}
use call_sign.Protocol.Schemas.{is_address}
use call_sign.Server.Tables.{RecoveryRequest, GovernanceProposal, ProposalSignature, Database}
use call_sign.Server.Auth.{
  session_for_request, session_row, user_row, require_role, assert_csrf, protected_write,
}
use call_sign.Server.Governance.{
  GovernanceLedger, SignReply, recovery_conforms, ledger_http_error, has_signed, signatures_of,
  check_sign, sign,
}
use call_sign.Server.Governance.Quorum.{IsDistinct, IsQuorum, snoc-IsDistinct, sign-IsQuorum}
use call_sign.Server.Governance.Life.{sign-unsubmitted}
use call_sign.Tests.World.{value_of, address}
use call_sign.Tests.Server.{server, database, request_of, row_for, user_of}

abbrev hash : String
hash = "0xaaaaaaaaaaaaaaaaaaaaaaaaaaaaaaaaaaaaaaaaaaaaaaaaaaaaaaaaaaaaaaaa"

abbrev recovery : RecoveryRequest
recovery = record {
  institution_id = hash;
  expected_epoch = "1";
  new_administrator = address;
  new_approval_public_key = hash;
  new_emergency_stopper = address;
  nonce = hash;
  deadline = "2000";
}

abbrev proposal : GovernanceProposal
proposal = record {
  id = "proposal";
  action = "RECOVER";
  institution_id = "institution-00001";
  payload = recovery;
  execution = none;
  status = "collecting";
}

abbrev signed_by : String → ProposalSignature
signed_by signer = record { proposal_id = "proposal"; signer_user_id = signer; signature = "0x00" }

-- Two approvers, of whom the first has signed.
abbrev council : Database
council = record database {
  users = user_of "first" "approver" ∷ user_of "second" "approver" ∷ [];
  sessions = row_for "first" ∷ row_for "second" ∷ [];
  proposals = proposal ∷ [];
  signatures = signed_by "first" ∷ [];
}

abbrev closed : Database
closed = record council { proposals = record proposal { status = "executed" } ∷ [] }

abbrev ledger : GovernanceLedger
ledger = record {
  suspend = λ i. ok "0x01";
  create_recovery = λ i n. ok recovery;
  sign_recovery = λ r s. ok "0x00";
  submit_recovery = λ r l. ok "0x02";
}

abbrev stopped : GovernanceLedger
stopped = record ledger { submit_recovery = λ r l. err (error "TIMEOUT") }

distinct : IsDistinct council.signatures
unfolding any select
distinct = snoc-IsDistinct [] (signed_by "first") refl (λ id. Nodup-nil)

abbrev sign_run : Result SignReply
sign_run = (sign server ledger council (request_of "second") "proposal" 1000000).0

sign-is_ok : is_ok sign_run ≡ true
unfolding sign check_sign protected_write assert_csrf session_for_request session_row user_row find
    lookup any select require_role recovery_conforms codes matches_0x matches_class matches_digits
    is_address
sign-is_ok = refl

abbrev signed : (r : SignReply) × (sign_run ≡ ok r)
signed = value_of sign_run sign-is_ok

signed-execution : signed.0.execution ≡ some "0x02"
unfolding sign check_sign protected_write assert_csrf session_for_request session_row user_row find
    lookup any select require_role recovery_conforms codes matches_0x matches_class matches_digits
    is_address
signed-execution = refl

sign-IsQuorum_example :
    IsQuorum ledger
      (sign server ledger council (request_of "second") "proposal" 1000000).1.signatures
      "proposal"
      "0x02"
sign-IsQuorum_example =
    sign-IsQuorum server ledger council (request_of "second") "proposal" 1000000 signed.0 "0x02"
      distinct signed.1 signed-execution

closed-found :
    find (λ q. q.id == "proposal") closed.proposals ≡ some (record proposal { status = "executed" })
unfolding find
closed-found = refl

not-collecting : (record proposal { status = "executed" }).status ≢ "collecting"
not-collecting e = cc

abbrev after : Database
after = record council { signatures = signed_by "first" ∷ signed_by "second" ∷ [] }

checked :
    check_sign server stopped council (request_of "second") "proposal" 1000000
    ≡ ok (signed_by "second", recovery)
unfolding check_sign protected_write assert_csrf session_for_request session_row user_row find
    lookup any require_role recovery_conforms codes matches_0x matches_class matches_digits
    is_address
checked = refl

checked_again :
    check_sign server stopped after (request_of "second") "proposal" 1010000
    ≡ ok (signed_by "second", recovery)
unfolding check_sign protected_write assert_csrf session_for_request session_row user_row find
    lookup any require_role recovery_conforms codes matches_0x matches_class matches_digits
    is_address
checked_again = refl

not_yet : has_signed council.signatures "proposal" "second" ≡ false
unfolding any
not_yet = refl

two : 2 ≤ length (signatures_of after.signatures "proposal")
unfolding select
two = omega arith

sign-unsubmitted_example :
    (sign server stopped council (request_of "second") "proposal" 1000000
      ≡ (err (ledger_http_error (error "TIMEOUT")), after))
    × (sign server stopped after (request_of "second") "proposal" 1010000
        ≡ (err (http_error 409 "SIGNER_ALREADY_COUNTED"), after))
sign-unsubmitted_example =
    sign-unsubmitted server stopped council (request_of "second") (request_of "second") "proposal"
      1000000 1010000 (signed_by "second") (signed_by "second") recovery recovery (error "TIMEOUT")
      checked not_yet two refl checked_again refl
