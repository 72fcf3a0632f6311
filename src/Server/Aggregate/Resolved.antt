-- ===== src/Server/Aggregate/Resolved.antt =====
-- The promise of services/api/src/witness-aggregate.ts and the group that it is resolved with.
use call_sign.Prelude.{
  ℕ, ◌≡◌, ◌≢◌, ◌⊎◌, inl, inr, refl, ap, String, Option, none, some, true, not, ◌&&◌, List, [], ◌∷◌,
  leb, ◌==◌, ◌!=◌, string_eq, nat_eq, arith, length, any, lookup, insert, Result, ok, err, is_ok,
}
use call_sign.Prelude.Tests.{if-cases}
use call_sign.Protocol.Json.{Libraries}
use call_sign.Verifier.Bundle.{StateBundle, VerifiedState, verify_state_bundle}
use call_sign.Server.Aggregate.{
  WitnessEndpoint, AggregateInput, Head, Answer, Promise, waiting, resolved, rejected, resolve,
  Wait, head, answer, verification, proposal, Outcome, head_comes, answer_comes, fails, ends,
  Aggregation, pick, on_head, counted, collected, on_answer, decided, on_verified, go_on, settle,
  start, run, concerns, proposal_key, trust_for, context_at, bundle_of,
}
use call_sign.Server.Aggregate.Groups.{
  none-some, resolved-injective, IsCollisionFree, IsQuorate, IsSound, IsSafe, finished-IsSafe,
  grown-IsSound,
}

module _ (lib : Libraries) (input : AggregateInput) where
  counted-IsSafe :
      (s : Aggregation) (p key : String) (group : StateBundle)
      → IsSound lib input (insert s.groups key group) s.promise
      → IsSafe lib input (counted lib input s p key group)
  counted-IsSafe s p key group i =
      if-cases (IsSafe lib input)
        (not s.settled && leb input.trust.witness_threshold (length group.signatures)) (λ enough. i)
        (λ few. finished-IsSafe lib input (record s { groups = insert s.groups key group }) i)

  collected-IsSafe :
      (free : IsCollisionFree lib) (s : Aggregation) (p : String) (a : Answer)
      (result : Result VerifiedState)
      → verify_state_bundle lib
          (bundle_of a)
          (record (trust_for lib input a.snapshot) { witness_threshold = 1 })
          (context_at lib input a.snapshot.block_timestamp)
        ≡ result
      → IsSafe lib input s
      → IsSafe lib input (collected lib input s p a result)
  collected-IsSafe free s p a (err e) alone i = finished-IsSafe lib input s i
  collected-IsSafe free s p a (ok v) alone i =
      counted-IsSafe s p _ _ (grown-IsSound lib input free s a v _ alone refl i)

  on_answer-IsSafe :
      (free : IsCollisionFree lib) (s : Aggregation) (e : WitnessEndpoint) (p : String) (a : Answer)
      → IsSafe lib input s
      → IsSafe lib input (on_answer lib input s e p a)
  on_answer-IsSafe free s e p a i =
      if-cases (IsSafe lib input) (a.witness_id != e.witness_id)
        (λ other. finished-IsSafe lib input s i) (λ same. collected-IsSafe free s p a _ refl i)

  resolve-resolved :
      (p : Promise) (key k : String) → resolve p key ≡ resolved k → (p ≡ resolved k) ⊎ (key ≡ k)
  resolve-resolved waiting key k h = inr (resolved-injective h)
  resolve-resolved (resolved j) key k h = inl h
  resolve-resolved (rejected e) key k h = inl h

  resolved-IsSafe :
      (s : Aggregation) (key : String)
      → IsSafe lib input s
      → IsQuorate lib input s.groups key
      → IsSafe lib input (record s { settled = true; promise = resolve s.promise key })
  resolved-IsSafe s key i quorate = record {
    keyed = i.keyed;
    quorate = λ k h. elim (resolve-resolved s.promise key k h) [
      | inl before ↦ i.quorate k before
      | inr now ↦ rw (← now) quorate
    ];
  }

  decided-IsSafe :
      (s : Aggregation) (key : String) (group : StateBundle) (now : ℕ)
      (result : Result VerifiedState)
      → lookup s.groups key ≡ some group
      → verify_state_bundle lib group
          (trust_for lib input group.snapshot)
          (context_at lib input now)
        ≡ result
      → IsSafe lib input s
      → IsSafe lib input (decided lib input s key result)
  decided-IsSafe s key group now (err e) found verified i =
      finished-IsSafe lib input _ (record { keyed = i.keyed; quorate = i.quorate })
  decided-IsSafe s key group now (ok v) found verified i =
      if-cases (IsSafe lib input) s.settled (λ late. finished-IsSafe lib input s i)
        (λ first.
          finished-IsSafe lib input _
            (resolved-IsSafe s key i (group, found, (now, ap is_ok verified))))

  on_verified-IsSafe :
      (s : Aggregation) (key : String) (found : Option StateBundle) (now : ℕ)
      → lookup s.groups key ≡ found
      → IsSafe lib input s
      → IsSafe lib input (on_verified lib input s key found now)
  on_verified-IsSafe s key none now e i = finished-IsSafe lib input s i
  on_verified-IsSafe s key (some group) now e i = decided-IsSafe s key group _ _ e refl i

  on_head-IsSafe :
      (s : Aggregation) (h : Head) → IsSafe lib input s → IsSafe lib input (on_head lib input s h)
  on_head-IsSafe s h i =
      if-cases (IsSafe lib input) (any (λ p. p == proposal_key h) s.proposals)
        (λ old. finished-IsSafe lib input s i) (λ new. i)

  go_on-IsSafe :
      (free : IsCollisionFree lib) (w : Wait) (outcome : Outcome) (s stay : Aggregation)
      → IsSafe lib input s
      → IsSafe lib input stay
      → IsSafe lib input (go_on lib input w outcome s stay)
  go_on-IsSafe free head (head_comes h) s stay i j = on_head-IsSafe s h i
  go_on-IsSafe free head fails s stay i j = finished-IsSafe lib input s i
  go_on-IsSafe free head (answer_comes a) s stay i j = j
  go_on-IsSafe free head (ends now) s stay i j = j
  go_on-IsSafe free (answer e p) (answer_comes a) s stay i j = on_answer-IsSafe free s e p a i
  go_on-IsSafe free (answer e p) fails s stay i j = finished-IsSafe lib input s i
  go_on-IsSafe free (answer e p) (head_comes h) s stay i j = j
  go_on-IsSafe free (answer e p) (ends now) s stay i j = j
  go_on-IsSafe free (verification key p) (ends now) s stay i j =
      on_verified-IsSafe s key (lookup s.groups key) now refl i
  go_on-IsSafe free (verification key p) (head_comes h) s stay i j = j
  go_on-IsSafe free (verification key p) (answer_comes a) s stay i j = j
  go_on-IsSafe free (verification key p) fails s stay i j = j
  go_on-IsSafe free (proposal p) (ends now) s stay i j =
      if-cases (IsSafe lib input) (any (concerns p) s.waits) (λ busy. j)
        (λ done. finished-IsSafe lib input s i)
  go_on-IsSafe free (proposal p) (head_comes h) s stay i j = j
  go_on-IsSafe free (proposal p) (answer_comes a) s stay i j = j
  go_on-IsSafe free (proposal p) fails s stay i j = j

  settle-IsSafe :
      (free : IsCollisionFree lib) (s : Aggregation) (picked : Option (Wait × List Wait))
      (outcome : Outcome)
      → IsSafe lib input s
      → IsSafe lib input (settle lib input picked outcome s)
  settle-IsSafe free s none outcome i = i
  settle-IsSafe free s (some (w, ws)) outcome i =
      go_on-IsSafe free w outcome (record s { waits = ws }) s i i

  run-IsSafe :
      (free : IsCollisionFree lib) (events : List (ℕ × Outcome)) (s : Aggregation)
      → IsSafe lib input s
      → IsSafe lib input (run lib input s events)
  unfolding run
  run-IsSafe free [] s i = i
  run-IsSafe free ((n, outcome) ∷ events) s i =
      run-IsSafe free events _ (settle-IsSafe free s (pick n s.waits) outcome i)

  start-open : (key : String) → (start lib input).promise ≢ resolved key
  start-open key h = ground arith

  start-IsSafe : IsSafe lib input (start lib input)
  unfolding lookup
  start-IsSafe = record {
    keyed = λ key group h. absurd (none-some h);
    quorate = λ key h. absurd (start-open key h);
  }

  -- If no two values have the same hash, then in whatever order the answers of the witnesses come, a
  -- group that the promise is resolved with verifies under the caller's trust at some time of the
  -- caller's, as it stood then and with all the signatures that were added to it later.
  pub run-IsQuorate :
      (free : IsCollisionFree lib) (events : List (ℕ × Outcome)) (key : String)
      → (run lib input (start lib input) events).promise ≡ resolved key
      → IsQuorate lib input (run lib input (start lib input) events).groups key
  run-IsQuorate free events key h =
      (run-IsSafe free events (start lib input) start-IsSafe).quorate key h
