-- ===== src/Server/Aggregate/Ended.antt =====
-- `aggregateWitnesses` of services/api/src/witness-aggregate.ts: the events that may follow others.
use call_sign.Prelude.{
  ℕ, zero, suc, ◌≡◌, ◌≢◌, refl, ap, ◌∙◌, inl, inr, String, Option, none, some, Bool, true, false,
  All, List, [], ◌∷◌, ◌++◌, arith, length, any, lookup, string_eq, Result, ok, err,
}
use call_sign.Prelude.Tests.{if-cases, Bool-cases}
use call_sign.Protocol.Json.{Libraries}
use call_sign.Verifier.Bundle.{StateBundle, VerifiedState}
use call_sign.Server.Aggregate.{
  AggregateInput, waiting, Wait, head, answer, verification, proposal, Outcome, head_comes,
  answer_comes, fails, ends, Aggregation, pick, finished, decided, on_verified, go_on, settle,
  start, run, concerns,
}
use call_sign.Server.Aggregate.Decided.{run-IsDecided, pick-length}

-- The entry does not wait for another one.
abbrev IsFree : Wait → List Wait → Type 0
IsFree head rest = Unit
IsFree (answer e p) rest = Unit
IsFree (verification key p) rest = Unit
IsFree (proposal p) rest = any (concerns p) rest ≡ false

abbrev HasFree : List Wait → Type 0
HasFree ws =
    (n : ℕ) × (w : Wait) × (rest : List Wait) × (pick n ws ≡ some (w, rest)) × IsFree w rest

-- An entry that a proposal waits for is free itself, wherever it stands.
abbrev HasConcern : List Wait → Type 0
HasConcern ws =
    (n : ℕ) × (w : Wait) × (rest : List Wait) × (pick n ws ≡ some (w, rest))
    × ((more : List Wait) → IsFree w more)

later : (v : Wait) (ws : List Wait) → HasConcern ws → HasConcern (v ∷ ws)
unfolding pick
later v ws (n, w, rest, picked, free) = (suc n, w, v ∷ rest, rw picked refl, free)

any-HasConcern : (p : String) (ws : List Wait) → any (concerns p) ws ≡ true → HasConcern ws
unfolding any pick
any-HasConcern p [] h = cc
any-HasConcern p (head ∷ ws) h = later head ws (any-HasConcern p ws h)
any-HasConcern p (answer e q ∷ ws) h = (0, answer e q, ws, refl, λ more. tt)
any-HasConcern p (verification key q ∷ ws) h = (0, verification key q, ws, refl, λ more. tt)
any-HasConcern p (proposal q ∷ ws) h = later (proposal q) ws (any-HasConcern p ws h)

cons-HasFree : (w : Wait) (ws : List Wait) → HasFree (w ∷ ws)
unfolding pick
cons-HasFree head ws = (0, head, ws, refl, tt)
cons-HasFree (answer e p) ws = (0, answer e p, ws, refl, tt)
cons-HasFree (verification key p) ws = (0, verification key p, ws, refl, tt)
cons-HasFree (proposal p) ws = elim (Bool-cases (any (concerns p) ws)) [
  | inl busy ↦
      let (n, w, rest, picked, free) = later (proposal p) ws (any-HasConcern p ws busy) in
      (n, w, rest, picked, free rest)
  | inr idle ↦ (0, proposal p, ws, refl, idle)
]

-- A request that fails; a verification or a proposal that ends.
abbrev outcome_for : Wait → Outcome
outcome_for head = fails
outcome_for (answer e p) = fails
outcome_for (verification key p) = ends 0
outcome_for (proposal p) = ends 0

-- A request that fails, or the end of a verification or of a proposal.
abbrev pub is_ending : Outcome → Bool
is_ending (head_comes h) = false
is_ending (answer_comes a) = false
is_ending fails = true
is_ending (ends now) = true

outcome_for_ending : (w : Wait) → is_ending (outcome_for w) ≡ true
outcome_for_ending head = refl
outcome_for_ending (answer e p) = refl
outcome_for_ending (verification key p) = refl
outcome_for_ending (proposal p) = refl

module _ (lib : Libraries) (input : AggregateInput) where
  abbrev Leaves : List Wait → Aggregation → Type 0
  Leaves rest s = s.waits ≡ rest

  finished-waits : (s : Aggregation) → (finished s).waits ≡ s.waits
  unfolding finished
  finished-waits s = refl

  decided-waits :
      (s : Aggregation) (key : String) (result : Result VerifiedState)
      → (decided lib input s key result).waits ≡ s.waits
  unfolding finished
  decided-waits s key (err e) = refl
  decided-waits s key (ok v) = if-cases (Leaves s.waits) s.settled (λ late. refl) (λ first. refl)

  on_verified-waits :
      (s : Aggregation) (key : String) (group : Option StateBundle) (now : ℕ)
      → (on_verified lib input s key group now).waits ≡ s.waits
  on_verified-waits s key none now = finished-waits s
  on_verified-waits s key (some group) now = decided-waits s key _

  go_on-waits :
      (w : Wait) (s stay : Aggregation)
      → IsFree w s.waits
      → (go_on lib input w (outcome_for w) s stay).waits ≡ s.waits
  go_on-waits head s stay free = finished-waits s
  go_on-waits (answer e p) s stay free = finished-waits s
  go_on-waits (verification key p) s stay free = on_verified-waits s key (lookup s.groups key) 0
  go_on-waits (proposal p) s stay free = rw free (finished-waits s)

  settle-waits :
      (s : Aggregation) (n : ℕ) (w : Wait) (rest : List Wait)
      → pick n s.waits ≡ some (w, rest)
      → IsFree w rest
      → (settle lib input (pick n s.waits) (outcome_for w) s).waits ≡ rest
  settle-waits s n w rest picked free = rw picked (go_on-waits w (record s { waits = rest }) s free)

  -- Failures and ends after which nothing is on its way.
  abbrev CanEnd : Aggregation → Type 0
  CanEnd s =
      (events : List (ℕ × Outcome)) × All (λ e. is_ending e.1 ≡ true) events
      × ((run lib input s events).waits ≡ [])

  waits-CanEnd :
      (k : ℕ) (ws : List Wait) (s : Aggregation) → s.waits ≡ ws → length ws ≡ k → CanEnd s
  unfolding run
  waits-CanEnd k [] s e size = ([], tt, e)
  waits-CanEnd zero (w ∷ ws) s e size = absurd (omega (arith, size))
  waits-CanEnd (suc k) (w ∷ ws) s e size =
      let (n, v, rest, picked, free) = cons-HasFree w ws in
      let at : pick n s.waits ≡ some (v, rest) = ap (pick n) e ∙ picked in
      let (events, ending, over) =
        waits-CanEnd k rest (settle lib input (pick n s.waits) (outcome_for v) s)
          (settle-waits s n v rest at free)
          (omega (arith, size, pick-length n (w ∷ ws) v rest picked)) in
      ((n, outcome_for v) ∷ events, (outcome_for_ending v, ending), over)

  run_append :
      (events more : List (ℕ × Outcome)) (s : Aggregation)
      → run lib input s (events ++ more) ≡ run lib input (run lib input s events) more
  unfolding run
  run_append [] more s = refl
  run_append ((n, outcome) ∷ events) more s = run_append events more _

  -- Whatever has happened in `aggregateWitnesses`, there are further events, each of them a request that
  -- fails or the end of a verification or of a proposal, after which nothing is on its way and the promise
  -- is resolved or rejected.
  pub run-CanEnd :
      (events : List (ℕ × Outcome))
      → (more : List (ℕ × Outcome)) × All (λ e. is_ending e.1 ≡ true) more
        × ((run lib input (start lib input) (events ++ more)).waits ≡ [])
        × ((run lib input (start lib input) (events ++ more)).promise ≢ waiting)
  run-CanEnd events =
      let s = run lib input (start lib input) events in
      let (more, ending, over) = waits-CanEnd (length s.waits) s.waits s refl refl in
      let all_over : (run lib input (start lib input) (events ++ more)).waits ≡ [] =
        ap (λ (t : Aggregation). t.waits) (run_append events more (start lib input)) ∙ over in
      (more, ending, all_over, run-IsDecided lib input (events ++ more) all_over)
