-- ===== src/Server/Governance/Life.antt =====
-- The signatures and the state of a proposal in services/api/src/server.ts, from one `sign` to the next.
use call_sign.Prelude.{
  ℕ, ◌≤◌, ◌≡◌, ◌≢◌, refl, sym, ◌∙◌, String, some, Bool, true, false, List, [], ◌∷◌, ◌++◌, map,
  arith, eq_iff, eq_refl, ltb, ◌==◌, string_eq, length, any, find, Result, ok, err, http_error,
}
use call_sign.Prelude.Errors.{Failure}
use call_sign.Server.Tables.{RecoveryRequest, GovernanceProposal, ProposalSignature, Database}
use call_sign.Server.Auth.{Request}
use call_sign.Server.Handlers.{ServerOptions}
use call_sign.Server.Governance.{
  GovernanceLedger, SignReply, signatures_of, has_signed, check_sign, ledger_http_error,
  sign_checked, sign,
}
use call_sign.Server.Governance.Quorum.{IsDistinct, snoc-IsDistinct, counted, added, check-parts}

module _ (o : ServerOptions) (ledger : GovernanceLedger) where
  counted-same :
      (db : Database) (row : ProposalSignature) (few : Bool) (m : Result String)
      → (counted o ledger db row few m).1.signatures ≡ db.signatures
  counted-same db row true m = refl
  counted-same db row false (err f) = refl
  counted-same db row false (ok y) = refl

  added-IsDistinct :
      (db : Database) (row : ProposalSignature) (payload : RecoveryRequest) (taken : Bool)
      → has_signed db.signatures row.proposal_id row.signer_user_id ≡ taken
      → IsDistinct db.signatures
      → IsDistinct (added o ledger db row payload taken).1.signatures
  added-IsDistinct db row payload true e d = d
  added-IsDistinct db row payload false e d =
      rw
        (counted-same (record db { signatures = db.signatures ++ row ∷ [] }) row
          (ltb (length (signatures_of (db.signatures ++ row ∷ []) row.proposal_id)) 2)
          (ledger.submit_recovery payload
            (map (λ s. s.signature) (signatures_of (db.signatures ++ row ∷ []) row.proposal_id))))
        (snoc-IsDistinct db.signatures row e d)

  checked-IsDistinct :
      (db : Database) (c : Result (ProposalSignature × RecoveryRequest))
      → IsDistinct db.signatures
      → IsDistinct (sign_checked o ledger db c).1.signatures
  checked-IsDistinct db (err f) d = d
  checked-IsDistinct db (ok (row, payload)) d =
      added-IsDistinct db row payload (has_signed db.signatures row.proposal_id row.signer_user_id)
        refl d

  -- When no approver has signed a proposal twice, none has after `sign`, whatever it comes to.
  pub sign-IsDistinct :
      (db : Database) (request : Request) (id : String) (now_ms : ℕ)
      → IsDistinct db.signatures
      → IsDistinct (sign o ledger db request id now_ms).1.signatures
  unfolding sign
  sign-IsDistinct db request id now_ms d =
      checked-IsDistinct db (check_sign o ledger db request id now_ms) d

  refused :
      (db : Database) (c : Result (ProposalSignature × RecoveryRequest))
      → ((x : ProposalSignature × RecoveryRequest) → c ≢ ok x)
      → ((sign_checked o ledger db c).1 ≡ db)
        × ((reply : SignReply) → (sign_checked o ledger db c).0 ≢ ok reply)
  refused db (err f) h = (refl, λ reply e. ground (arith, e))
  refused db (ok x) h = absurd (h x refl)

  -- A proposal that is no longer collecting signatures is refused, and nothing changes.
  pub sign-finalized :
      (db : Database) (request : Request) (id : String) (now_ms : ℕ) (p : GovernanceProposal)
      → find (λ q. q.id == id) db.proposals ≡ some p
      → p.status ≢ "collecting"
      → ((sign o ledger db request id now_ms).1 ≡ db)
        × ((reply : SignReply) → (sign o ledger db request id now_ms).0 ≢ ok reply)
  unfolding sign
  sign-finalized db request id now_ms p found final =
      refused db (check_sign o ledger db request id now_ms) (λ x h.
        let (q, there, status, _, _) = check-parts o ledger db request id now_ms x.0 x.1 h in
        final (ground (arith, eq_iff q.status "collecting")))

  has_signed-snoc :
      (rows : List ProposalSignature) (row : ProposalSignature)
      → has_signed (rows ++ row ∷ []) row.proposal_id row.signer_user_id ≡ true
  unfolding any
  has_signed-snoc [] row = ground (arith, eq_refl row.proposal_id, eq_refl row.signer_user_id)
  has_signed-snoc (r ∷ rows) row = ground (arith, has_signed-snoc rows row)

  unsubmitted :
      (db : Database) (row : ProposalSignature) (few : Bool) (e : Failure)
      → few ≡ false
      → counted o ledger db row few (err e) ≡ (err (ledger_http_error e), db)
  unsubmitted db row true e h = cc
  unsubmitted db row false e h = refl

  again :
      (db : Database) (row : ProposalSignature) (payload : RecoveryRequest) (taken : Bool)
      → taken ≡ true
      → added o ledger db row payload taken ≡ (err (http_error 409 "SIGNER_ALREADY_COUNTED"), db)
  again db row payload true h = refl
  again db row payload false h = cc

  -- When the ledger refuses the submission, the signature stays on record while the proposal goes on
  -- collecting, and a second attempt of the same approver is refused as already counted.
  pub sign-unsubmitted :
      (db : Database) (request request' : Request) (id : String) (now_ms now_ms' : ℕ)
      (row row' : ProposalSignature) (payload payload' : RecoveryRequest) (e : Failure)
      → check_sign o ledger db request id now_ms ≡ ok (row, payload)
      → has_signed db.signatures row.proposal_id row.signer_user_id ≡ false
      → 2 ≤ length (signatures_of (db.signatures ++ row ∷ []) row.proposal_id)
      → ledger.submit_recovery payload
          (map (λ s. s.signature) (signatures_of (db.signatures ++ row ∷ []) row.proposal_id))
        ≡ err e
      → check_sign o ledger
          (record db { signatures = db.signatures ++ row ∷ [] })
          request'
          id
          now_ms'
        ≡ ok (row', payload')
      → row'.signer_user_id ≡ row.signer_user_id
      → (sign o ledger db request id now_ms
          ≡ (err (ledger_http_error e), record db { signatures = db.signatures ++ row ∷ [] }))
        × (sign o ledger (record db { signatures = db.signatures ++ row ∷ [] }) request' id now_ms'
            ≡ (
              err (http_error 409 "SIGNER_ALREADY_COUNTED"),
              record db { signatures = db.signatures ++ row ∷ [] },
            ))
  unfolding sign
  sign-unsubmitted db request request' id now_ms now_ms' row row' payload payload' e h free two
        fails h' same =
      let (_, _, _, _, i) = check-parts o ledger db request id now_ms row payload h in
      let (_, _, _, _, i') =
        check-parts o ledger (record db { signatures = db.signatures ++ row ∷ [] }) request' id
          now_ms' row' payload' h' in
      let counted_twice : has_signed (db.signatures ++ row ∷ []) row'.proposal_id
            row'.signer_user_id
          ≡ true =
        rw (same, i' ∙ sym i) (has_signed-snoc db.signatures row) in
      (
        rw (h, free, fails)
            (unsubmitted (record db { signatures = db.signatures ++ row ∷ [] }) row
              (ltb (length (signatures_of (db.signatures ++ row ∷ []) row.proposal_id)) 2) e
              (ground arith)),
        rw (h') (
            again (record db { signatures = db.signatures ++ row ∷ [] }) row' payload'
              (has_signed (db.signatures ++ row ∷ []) row'.proposal_id row'.signer_user_id)
              counted_twice),
      )
