-- ===== src/Server/Governance/Quorum.antt =====
-- The signatures of a recovery in services/api/src/server.ts, up to its submission.
use mathlib.Core.List.{map-append}
use call_sign.Prelude.{
  ℕ, ◌≤◌, ◌≡◌, refl, String, none, some, Bool, true, false, List, [], ◌∷◌, ◌++◌, map, Nodup, arith,
  eq_iff, ltb, ◌==◌, ◌!=◌, string_eq, length, any, find, select, append-nil, if◌then◌else◌,
  not-mem_of_any-false, Nodup-snoc, Result, ok, err, http_error,
}
use call_sign.Server.Tables.{RecoveryRequest, GovernanceProposal, ProposalSignature, Database}
use call_sign.Server.Auth.{Request}
use call_sign.Server.Handlers.{ServerOptions}
use call_sign.Server.Governance.{
  GovernanceLedger, SignReply, signatures_of, has_signed, check_sign, submit, count_signatures,
  sign_checked, sign,
}

-- No approver has signed a proposal twice.
abbrev pub IsDistinct : List ProposalSignature → Type 0
IsDistinct rows = (id : String) → Nodup (map (λ s. s.signer_user_id) (signatures_of rows id))

select-snoc :
    (p : ProposalSignature → Bool) (rows : List ProposalSignature) (row : ProposalSignature)
    → select p (rows ++ row ∷ []) ≡ select p rows ++ (if p row then row ∷ [] else [])
unfolding select
select-snoc p [] row = refl
select-snoc p (r ∷ rows) row = ground (arith, select-snoc p rows row)

unsigned :
    (rows : List ProposalSignature) (id signer : String)
    → has_signed rows id signer ≡ false
    → any (λ x. x == signer) (map (λ s. s.signer_user_id) (signatures_of rows id)) ≡ false
unfolding any select
unsigned [] id signer h = refl
unsigned (r ∷ rows) id signer h = ground (arith, unsigned rows id signer)

snoc-distinct :
    (rows : List ProposalSignature) (row : ProposalSignature) (id : String) (b : Bool)
    → (row.proposal_id == id) ≡ b
    → has_signed rows row.proposal_id row.signer_user_id ≡ false
    → Nodup (map (λ s. s.signer_user_id) (signatures_of rows id))
    → Nodup (map (λ s. s.signer_user_id) (signatures_of rows id ++ (if b then row ∷ [] else [])))
snoc-distinct rows row id false e h n = rw (append-nil (signatures_of rows id)) n
snoc-distinct rows row id true e h n =
    let same : row.proposal_id ≡ id = ground (arith, eq_iff row.proposal_id id) in
    rw (map-append (λ s. s.signer_user_id) (signatures_of rows id) (row ∷ [])) (
      Nodup-snoc (map (λ s. s.signer_user_id) (signatures_of rows id)) row.signer_user_id n (
        not-mem_of_any-false row.signer_user_id
          (map (λ s. s.signer_user_id) (signatures_of rows id))
          (unsigned rows id row.signer_user_id (rw (← same) h))))

pub snoc-IsDistinct :
    (rows : List ProposalSignature) (row : ProposalSignature)
    → has_signed rows row.proposal_id row.signer_user_id ≡ false
    → IsDistinct rows
    → IsDistinct (rows ++ row ∷ [])
snoc-IsDistinct rows row h d id =
    rw (select-snoc (λ s. s.proposal_id == id) rows row)
      (snoc-distinct rows row id (row.proposal_id == id) refl h (d id))

-- The signatures of a proposal that are enough for the ledger, and the submission of them.
pub record IsQuorum (ledger : GovernanceLedger) (rows : List ProposalSignature)
    (id execution : String) : Type 0 where
  pub payload : RecoveryRequest
  pub two : 2 ≤ length (signatures_of rows id)
  pub distinct : Nodup (map (λ s. s.signer_user_id) (signatures_of rows id))
  pub submitted :
      ledger.submit_recovery payload (map (λ s. s.signature) (signatures_of rows id)) ≡ ok execution

module _ (o : ServerOptions) (ledger : GovernanceLedger) where
  -- `count_signatures` by the outcome of its test and of the submission.
  abbrev pub counted :
      Database → ProposalSignature → Bool → Result String → Result SignReply × Database
  counted db row few m =
      if few
      then (
        ok (record {
          signer_user_id = row.signer_user_id;
          signer_count = length (signatures_of db.signatures row.proposal_id);
          execution = none;
        }),
        db,
      )
      else submit o ledger db row (length (signatures_of db.signatures row.proposal_id)) m

  counted-IsQuorum :
      (db : Database) (row : ProposalSignature) (payload : RecoveryRequest) (few : Bool)
      (m : Result String) (reply : SignReply) (execution : String)
      → IsDistinct db.signatures
      → ltb (length (signatures_of db.signatures row.proposal_id)) 2 ≡ few
      → ledger.submit_recovery payload
          (map (λ s. s.signature) (signatures_of db.signatures row.proposal_id))
        ≡ m
      → (counted db row few m).0 ≡ ok reply
      → reply.execution ≡ some execution
      → IsQuorum ledger (counted db row few m).1.signatures row.proposal_id execution
  counted-IsQuorum db row payload true m reply execution d e k h x = cc
  counted-IsQuorum db row payload false (err f) reply execution d e k h x = cc
  counted-IsQuorum db row payload false (ok y) reply execution d e k h x = record {
    payload = payload;
    two = ground arith;
    distinct = d row.proposal_id;
    submitted = ground arith;
  }

  -- `add_signature` by the outcome of its test.
  abbrev pub added :
      Database → ProposalSignature → RecoveryRequest → Bool → Result SignReply × Database
  added db row payload taken =
      if taken
      then (err (http_error 409 "SIGNER_ALREADY_COUNTED"), db)
      else count_signatures o ledger (record db { signatures = db.signatures ++ row ∷ [] }) row
          payload (signatures_of (db.signatures ++ row ∷ []) row.proposal_id)

  added-IsQuorum :
      (db : Database) (row : ProposalSignature) (payload : RecoveryRequest) (taken : Bool)
      (reply : SignReply) (execution : String)
      → IsDistinct db.signatures
      → has_signed db.signatures row.proposal_id row.signer_user_id ≡ taken
      → (added db row payload taken).0 ≡ ok reply
      → reply.execution ≡ some execution
      → IsQuorum ledger (added db row payload taken).1.signatures row.proposal_id execution
  added-IsQuorum db row payload true reply execution d e h x = cc
  added-IsQuorum db row payload false reply execution d e h x =
      counted-IsQuorum (record db { signatures = db.signatures ++ row ∷ [] }) row payload
        (ltb (length (signatures_of (db.signatures ++ row ∷ []) row.proposal_id)) 2)
        (ledger.submit_recovery payload
          (map (λ s. s.signature) (signatures_of (db.signatures ++ row ∷ []) row.proposal_id)))
        reply execution (snoc-IsDistinct db.signatures row e d) refl refl h x

  pub check-parts :
      (db : Database) (request : Request) (id : String) (now_ms : ℕ) (row : ProposalSignature)
      (payload : RecoveryRequest)
      → check_sign o ledger db request id now_ms ≡ ok (row, payload)
      → (p : GovernanceProposal) × (find (λ p. p.id == id) db.proposals ≡ some p)
        × ((p.status != "collecting") ≡ false)
        × (payload ≡ p.payload)
        × (row.proposal_id ≡ id)
  unfolding check_sign
  check-parts db request id now_ms row payload h = ground arith

  checked-IsQuorum :
      (db : Database) (request : Request) (id : String) (now_ms : ℕ)
      (c : Result (ProposalSignature × RecoveryRequest)) (reply : SignReply) (execution : String)
      → check_sign o ledger db request id now_ms ≡ c
      → IsDistinct db.signatures
      → (sign_checked o ledger db c).0 ≡ ok reply
      → reply.execution ≡ some execution
      → IsQuorum ledger (sign_checked o ledger db c).1.signatures id execution
  checked-IsQuorum db request id now_ms (err f) reply execution e d h x = cc
  checked-IsQuorum db request id now_ms (ok (row, payload)) reply execution e d h x =
      let (_, _, _, _, same) = check-parts db request id now_ms row payload e in
      rw (← same) (
        added-IsQuorum db row payload (has_signed db.signatures row.proposal_id row.signer_user_id)
          reply execution d refl h x)

  -- When no approver has signed a proposal twice, a signature that executes a recovery leaves at least
  -- two signatures of the proposal, all of different approvers, and the ledger has accepted exactly
  -- these.
  pub sign-IsQuorum :
      (db : Database) (request : Request) (id : String) (now_ms : ℕ) (reply : SignReply)
      (execution : String)
      → IsDistinct db.signatures
      → (sign o ledger db request id now_ms).0 ≡ ok reply
      → reply.execution ≡ some execution
      → IsQuorum ledger (sign o ledger db request id now_ms).1.signatures id execution
  unfolding sign
  sign-IsQuorum db request id now_ms reply execution d h x =
      checked-IsQuorum db request id now_ms (check_sign o ledger db request id now_ms) reply
        execution refl d h x
