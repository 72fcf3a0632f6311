-- ===== src/Server/Aggregate/Decided.antt =====
-- The promise of services/api/src/witness-aggregate.ts and the count of what is pending.
use call_sign.Prelude.{
  ℕ, zero, suc, ◌+◌, ◌-◌, ◌≤◌, ◌≡◌, refl, ap, ◌≢◌, String, Option, none, some, false, not, ◌&&◌,
  List, [], ◌∷◌, leb, ◌==◌, ◌!=◌, string_eq, nat_eq, arith, length, length-append, length-map, any,
  lookup, insert, Result, ok, err,
}
use call_sign.Prelude.Tests.{if-cases}
use call_sign.Protocol.Json.{Libraries}
use call_sign.Verifier.Bundle.{StateBundle, VerifiedState}
use call_sign.Server.Aggregate.{
  WitnessEndpoint, AggregateInput, Head, Answer, Promise, waiting, resolved, rejected, resolve,
  reject, Wait, head, answer, verification, proposal, Outcome, head_comes, answer_comes, fails,
  ends, Aggregation, pick, finished, on_head, counted, collected, on_answer, decided, on_verified,
  go_on, settle, start, run, concerns, proposal_key,
}

-- `pending` counts what is on its way, and `extra` that has just come back; an open promise is not
-- settled, and something is on its way.
pub record IsCounted (extra : ℕ) (s : Aggregation) : Type 0 where
  pub number : s.pending ≡ length s.waits + extra
  pub open_promise : s.promise ≡ waiting → (s.settled ≡ false) × (1 ≤ s.pending)

reject-IsDecided : (p : Promise) (code : String) → reject p code ≢ waiting
reject-IsDecided waiting code h = cc
reject-IsDecided (resolved key) code h = cc
reject-IsDecided (rejected e) code h = cc

resolve-IsDecided : (p : Promise) (key : String) → resolve p key ≢ waiting
resolve-IsDecided waiting key h = cc
resolve-IsDecided (resolved k) key h = cc
resolve-IsDecided (rejected e) key h = cc

finished-open :
    (s : Aggregation)
    → (finished s).promise ≡ waiting
    → (s.promise ≡ waiting) × ((s.pending - 1 == 0 && not s.settled) ≡ false)
unfolding finished
finished-open s h = ground (arith, reject-IsDecided s.promise s.unavailable)

finished-open_lem :
    (s : Aggregation)
    → IsCounted 1 s
    → (finished s).promise ≡ waiting
    → (s.settled ≡ false) × (1 ≤ s.pending - 1)
finished-open_lem s c h =
    let (open_promise, more) = finished-open s h in
    let (unsettled, _) = c.open_promise open_promise in (unsettled, ground arith)

finished-IsCounted : (s : Aggregation) → IsCounted 1 s → IsCounted 0 (finished s)
unfolding finished
finished-IsCounted s c = record {
  number = omega (arith, c.number);
  open_promise = λ h. finished-open_lem s c h;
}

pick-suc :
    (n : ℕ) (v : Wait) (ws : List Wait) (w : Wait) (rest : List Wait)
    → pick (suc n) (v ∷ ws) ≡ some (w, rest)
    → (tail : List Wait) × (pick n ws ≡ some (w, tail)) × (rest ≡ v ∷ tail)
unfolding pick
pick-suc n v ws w rest h = ground arith

pub pick-length :
    (n : ℕ) (ws : List Wait) (w : Wait) (rest : List Wait)
    → pick n ws ≡ some (w, rest)
    → length ws ≡ length rest + 1
unfolding pick
pick-length n [] w rest h = cc
pick-length zero (v ∷ ws) w rest h = ground arith
pick-length (suc n) (v ∷ ws) w rest h =
    let (tail, picked, same) = pick-suc n v ws w rest h in
    rw same (omega (arith, pick-length n ws w tail picked))

module _ (lib : Libraries) (input : AggregateInput) where
  on_head-IsCounted :
      (s : Aggregation) (h : Head) → IsCounted 1 s → IsCounted 0 (on_head lib input s h)
  on_head-IsCounted s h c =
      if-cases (IsCounted 0) (any (λ p. p == proposal_key h) s.proposals)
        (λ old. finished-IsCounted s c)
        (λ new. record {
          number = simp (length-append, length-map) (omega (arith, c.number));
          open_promise = λ o. ((c.open_promise o).0, omega (arith, (c.open_promise o).1));
        })

  counted-IsCounted :
      (s : Aggregation) (p key : String) (group : StateBundle)
      → IsCounted 1 s
      → IsCounted 0 (counted lib input s p key group)
  counted-IsCounted s p key group c =
      if-cases (IsCounted 0)
        (not s.settled && leb input.trust.witness_threshold (length group.signatures))
        (λ enough. record {
          number = simp length-append (omega (arith, c.number));
          open_promise = c.open_promise;
        })
        (λ few.
          finished-IsCounted (record s { groups = insert s.groups key group })
            (record { number = c.number; open_promise = c.open_promise }))

  collected-IsCounted :
      (s : Aggregation) (p : String) (a : Answer) (result : Result VerifiedState)
      → IsCounted 1 s
      → IsCounted 0 (collected lib input s p a result)
  collected-IsCounted s p a (err e) c = finished-IsCounted s c
  collected-IsCounted s p a (ok v) c = counted-IsCounted s p _ _ c

  on_answer-IsCounted :
      (s : Aggregation) (e : WitnessEndpoint) (p : String) (a : Answer)
      → IsCounted 1 s
      → IsCounted 0 (on_answer lib input s e p a)
  on_answer-IsCounted s e p a c =
      if-cases (IsCounted 0) (a.witness_id != e.witness_id) (λ other. finished-IsCounted s c)
        (λ same. collected-IsCounted s p a _ c)

  decided-IsCounted :
      (s : Aggregation) (key : String) (result : Result VerifiedState)
      → IsCounted 1 s
      → IsCounted 0 (decided lib input s key result)
  decided-IsCounted s key (err e) c =
      finished-IsCounted _ (record { number = c.number; open_promise = c.open_promise })
  decided-IsCounted s key (ok v) c =
      if-cases (IsCounted 0) s.settled (λ late. finished-IsCounted s c)
        (λ first. finished-IsCounted _ (record {
          number = c.number;
          open_promise = λ o. absurd (resolve-IsDecided s.promise key o);
        }))

  on_verified-IsCounted :
      (s : Aggregation) (key : String) (group : Option StateBundle) (now : ℕ)
      → IsCounted 1 s
      → IsCounted 0 (on_verified lib input s key group now)
  on_verified-IsCounted s key none now c = finished-IsCounted s c
  on_verified-IsCounted s key (some group) now c = decided-IsCounted s key _ c

  go_on-IsCounted :
      (w : Wait) (outcome : Outcome) (s stay : Aggregation)
      → IsCounted 1 s
      → IsCounted 0 stay
      → IsCounted 0 (go_on lib input w outcome s stay)
  go_on-IsCounted head (head_comes h) s stay c d = on_head-IsCounted s h c
  go_on-IsCounted head fails s stay c d = finished-IsCounted s c
  go_on-IsCounted head (answer_comes a) s stay c d = d
  go_on-IsCounted head (ends now) s stay c d = d
  go_on-IsCounted (answer e p) (answer_comes a) s stay c d = on_answer-IsCounted s e p a c
  go_on-IsCounted (answer e p) fails s stay c d = finished-IsCounted s c
  go_on-IsCounted (answer e p) (head_comes h) s stay c d = d
  go_on-IsCounted (answer e p) (ends now) s stay c d = d
  go_on-IsCounted (verification key p) (ends now) s stay c d =
      on_verified-IsCounted s key (lookup s.groups key) now c
  go_on-IsCounted (verification key p) (head_comes h) s stay c d = d
  go_on-IsCounted (verification key p) (answer_comes a) s stay c d = d
  go_on-IsCounted (verification key p) fails s stay c d = d
  go_on-IsCounted (proposal p) (ends now) s stay c d =
      if-cases (IsCounted 0) (any (concerns p) s.waits) (λ open_requests. d)
        (λ done. finished-IsCounted s c)
  go_on-IsCounted (proposal p) (head_comes h) s stay c d = d
  go_on-IsCounted (proposal p) (answer_comes a) s stay c d = d
  go_on-IsCounted (proposal p) fails s stay c d = d

  settle-IsCounted :
      (s : Aggregation) (picked : Option (Wait × List Wait)) (outcome : Outcome)
      → ((w : Wait) (ws : List Wait) → picked ≡ some (w, ws) → length s.waits ≡ length ws + 1)
      → IsCounted 0 s
      → IsCounted 0 (settle lib input picked outcome s)
  settle-IsCounted s none outcome one c = c
  settle-IsCounted s (some (w, ws)) outcome one c =
      go_on-IsCounted w outcome (record s { waits = ws }) s
        (record { number = omega (arith, c.number, one w ws refl); open_promise = c.open_promise })
        c

  run-IsCounted :
      (events : List (ℕ × Outcome)) (s : Aggregation)
      → IsCounted 0 s
      → IsCounted 0 (run lib input s events)
  unfolding run
  run-IsCounted [] s c = c
  run-IsCounted ((n, outcome) ∷ events) s c =
      run-IsCounted events _ (settle-IsCounted s (pick n s.waits) outcome (pick-length n s.waits) c)

  start-IsCounted : IsCounted 0 (start lib input)
  start-IsCounted = record {
    number = simp length-map (omega arith);
    open_promise = λ o. (refl, ground arith);
  }

  -- In whatever order the requests and the verifications of an aggregation come to an end, the promise
  -- is resolved or rejected once none of them is on its way.
  pub run-IsDecided :
      (events : List (ℕ × Outcome))
      → (run lib input (start lib input) events).waits ≡ []
      → (run lib input (start lib input) events).promise ≢ waiting
  run-IsDecided events over open_promise =
      let c = run-IsCounted events (start lib input) start-IsCounted in
      omega (arith, c.number, (c.open_promise open_promise).1, ap length over)
