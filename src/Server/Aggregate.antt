-- ===== src/Server/Aggregate.antt =====
-- services/api/src/witness-aggregate.ts: the collection of a quorum from the witnesses. Whatever has been
-- started and has not come back stands in `waits`, and an event lets one entry of it go on, in any
-- order. A group of signatures is shared and goes by its key, so that it can grow while it is verified
-- and after the promise is resolved with it.
pub mod Decided
pub mod Ended
pub mod Groups
pub mod Resolved
use Prim.Native.String.{◌++◌ as ◌<>◌}
use call_sign.Prelude.{
  ℕ, zero, suc, ◌+◌, ◌-◌, String, Option, none, some, Bool, true, false, not, ◌&&◌, List, [], ◌∷◌,
  ◌++◌, map, leb, ◌==◌, ◌!=◌, string_eq, nat_eq, if◌then◌else◌, length, any, Dict, lookup, insert,
  Result, ok, err, error, http_error, invalid_input,
}
use call_sign.Prelude.Errors.{Failure}
use call_sign.Protocol.Json.{Libraries}
use call_sign.Protocol.Signing.{hash_canonical}
use call_sign.Verifier.Snapshot.{StateSnapshot, snapshot_json}
use call_sign.Verifier.Bundle.{
  StateBundle, WitnessSignature, TrustBundle, VerificationContext, VerifiedState,
  verify_state_bundle,
}

pub record WitnessEndpoint : Type 0 where
  pub witness_id : String
  pub url : String

pub record AggregateInput : Type 0 where
  pub endpoints : List WitnessEndpoint
  pub institution_id : String
  pub delegation_id : String
  pub trust : TrustBundle
  pub now : Option ℕ
  pub allow_policy_transition : Bool

-- What `/head` and `/snapshot` of a witness answer.
pub record Head : Type 0 where
  pub block_number : String
  pub block_hash : String

pub record Answer : Type 0 where
  pub witness_id : String
  pub snapshot : StateSnapshot
  pub jws : String

-- The promise of the quorum: a group by its key, or the code of the failure.
pub data Promise : Type 0 where
  waiting : Promise
  resolved : String → Promise
  rejected : String → Promise

-- `resolve` and `reject`: the first call decides.
abbrev pub resolve : Promise → String → Promise
resolve waiting key = resolved key
resolve p key = p

abbrev pub reject : Promise → String → Promise
reject waiting code = rejected code
reject p code = p

-- What has been started: the request of a head; a request of a snapshot; the verification of a group;
-- and the `Promise.all` over the requests of one proposal. The last text is the proposal.
pub data Wait : Type 0 where
  head : Wait
  answer : WitnessEndpoint → String → Wait
  verification : String → String → Wait
  proposal : String → Wait

-- How it goes on: an answer came, the request failed (the abort of all requests included), or the
-- verification or the proposal came to its end at some time.
pub data Outcome : Type 0 where
  head_comes : Head → Outcome
  answer_comes : Answer → Outcome
  fails : Outcome
  ends : ℕ → Outcome

pub record Aggregation : Type 0 where
  pub proposals : List String
  pub groups : Dict StateBundle
  pub pending : ℕ
  pub settled : Bool
  pub unavailable : String
  pub promise : Promise
  pub waits : List Wait

unfoldable pub pick : ℕ → List Wait → Option (Wait × List Wait)
pick n [] = none
pick zero (w ∷ ws) = some (w, ws)
pick (suc n) (w ∷ ws) = elim (pick n ws) [ none ↦ none | some p ↦ some (p.0, w ∷ p.1) ]

-- `finished`
unfoldable pub finished : Aggregation → Aggregation
finished s = record s {
  pending = s.pending - 1;
  promise =
      if s.pending - 1 == 0 && not s.settled then reject s.promise s.unavailable else s.promise;
}

abbrev pub proposal_key : Head → String
proposal_key h = h.block_number <> ":" <> h.block_hash

-- An entry of `waits` that the proposal's `Promise.all` waits for.
abbrev pub concerns : String → Wait → Bool
concerns p head = false
concerns p (answer e q) = q == p
concerns p (verification key q) = q == p
concerns p (proposal q) = false

abbrev pub head_of : WitnessEndpoint → Wait
head_of e = head

abbrev pub is_stale : Failure → Bool
is_stale (error code) = code == "STALE_SNAPSHOT"
is_stale (http_error status code) = code == "STALE_SNAPSHOT"
is_stale invalid_input = false

abbrev pub reason : Failure → String
reason e =
    if is_stale e
    then "STALE_WITNESS_QUORUM_CHAIN_PROGRESS_UNAVAILABLE"
    else "WITNESS_QUORUM_TIME_INVALID"

-- `groups.get(key) ?? { snapshot, signatures: [] }`
abbrev pub group_or_new : Option StateBundle → StateSnapshot → StateBundle
group_or_new none snapshot = record { snapshot = snapshot; signatures = [] }
group_or_new (some group) snapshot = group

abbrev pub has_signer : List WitnessSignature → String → Bool
has_signer signatures id = any (λ s. s.witness_id == id) signatures

abbrev pub add_signer : StateBundle → WitnessSignature → StateBundle
add_signer group one =
    if has_signer group.signatures one.witness_id
    then group
    else record group { signatures = group.signatures ++ one ∷ [] }

abbrev pub signature_of : Answer → WitnessSignature
signature_of a = record { witness_id = a.witness_id; jws = a.jws }

abbrev pub bundle_of : Answer → StateBundle
bundle_of a = record { snapshot = a.snapshot; signatures = signature_of a ∷ [] }

abbrev pub time_of : Option ℕ → ℕ → ℕ
time_of none clock = clock
time_of (some now) clock = now

module _ (lib : Libraries) (input : AggregateInput) where
  abbrev pub context_at : ℕ → VerificationContext
  context_at now = record {
    max_state_age_seconds = none;
    max_future_skew_seconds = none;
    now_wall_seconds = now;
    now_monotonic_ms = 0;
    expected_institution_id = input.institution_id;
    expected_delegation_id = input.delegation_id;
  }

  abbrev pub trust_for : StateSnapshot → TrustBundle
  trust_for snapshot =
      if input.allow_policy_transition
      then record input.trust { policy_version = snapshot.policy_version }
      else input.trust

  -- What follows `/head`.
  abbrev pub on_head : Aggregation → Head → Aggregation
  on_head s h = if any (λ p. p == proposal_key h) s.proposals then finished s else record s {
    proposals = s.proposals ++ proposal_key h ∷ [];
    pending = s.pending + length input.endpoints;
    waits =
        s.waits
        ++ map (λ e. answer e (proposal_key h)) input.endpoints
        ++ proposal (proposal_key h) ∷ [];
  }

  -- The group with the signature in it is verified, or the collection is finished.
  abbrev pub counted : Aggregation → String → String → StateBundle → Aggregation
  counted s p key group =
      if not s.settled && leb input.trust.witness_threshold (length group.signatures)
      then record s {
        groups = insert s.groups key group;
        waits = s.waits ++ verification key p ∷ [];
      }
      else finished (record s { groups = insert s.groups key group })

  abbrev pub collected : Aggregation → String → Answer → Result VerifiedState → Aggregation
  collected s p a (err e) = finished s
  collected s p a (ok v) =
      let key = hash_canonical lib (snapshot_json a.snapshot) in
      counted s p key (add_signer (group_or_new (lookup s.groups key) a.snapshot) (signature_of a))

  -- `collect`, from the answer on
  abbrev pub on_answer : Aggregation → WitnessEndpoint → String → Answer → Aggregation
  on_answer s e p a =
      if a.witness_id != e.witness_id
      then finished s
      else collected s p a (
          verify_state_bundle lib (bundle_of a)
            (record (trust_for a.snapshot) { witness_threshold = 1 })
            (context_at a.snapshot.block_timestamp))

  abbrev pub decided : Aggregation → String → Result VerifiedState → Aggregation
  decided s key (err e) = finished (record s { unavailable = reason e })
  decided s key (ok v) =
      if s.settled
      then finished s
      else finished (record s { settled = true; promise = resolve s.promise key })

  -- `collect`, from the end of the verification of the group on
  abbrev pub on_verified : Aggregation → String → Option StateBundle → ℕ → Aggregation
  on_verified s key none now = finished s
  on_verified s key (some group) now = decided s key (
      verify_state_bundle lib group (trust_for group.snapshot) (context_at (time_of input.now now)))

  -- The last argument is the state to stay in, where the outcome is not one of the entry.
  abbrev pub go_on : Wait → Outcome → Aggregation → Aggregation → Aggregation
  go_on head (head_comes h) s stay = on_head s h
  go_on head fails s stay = finished s
  go_on (answer e p) (answer_comes a) s stay = on_answer s e p a
  go_on (answer e p) fails s stay = finished s
  go_on (verification key p) (ends now) s stay = on_verified s key (lookup s.groups key) now
  go_on (proposal p) (ends now) s stay = if any (concerns p) s.waits then stay else finished s
  go_on w o s stay = stay

  abbrev pub settle : Option (Wait × List Wait) → Outcome → Aggregation → Aggregation
  settle none outcome s = s
  settle (some (w, ws)) outcome s = go_on w outcome (record s { waits = ws }) s

  abbrev pub start : Aggregation
  start = record {
    proposals = [];
    groups = [];
    pending = length input.endpoints;
    settled = false;
    unavailable = "WITNESS_THRESHOLD_UNAVAILABLE";
    promise =
        if length input.endpoints == 0 then rejected "WITNESS_THRESHOLD_UNAVAILABLE" else waiting;
    waits = map head_of input.endpoints;
  }

  -- The aggregation after some events, each at a place of `waits`.
  unfoldable pub run : Aggregation → List (ℕ × Outcome) → Aggregation
  run s [] = s
  run s ((n, outcome) ∷ events) = run (settle (pick n s.waits) outcome s) events
