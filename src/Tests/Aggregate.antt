-- ===== src/Tests/Aggregate.antt =====
-- Three witnesses that answer one after the other, the third after the promise is resolved.
use call_sign.Prelude.{
  ℕ, ◌≡◌, ◌≢◌, refl, String, none, false, true, All, List, [], ◌∷◌, ◌++◌, any, every, lookup,
  insert,
}
use call_sign.Prelude.Text.{
  codes, has_length, matches_0x, matches_class, matches_decimal, utf16_length, same_lower, codes_eq,
}
use call_sign.Protocol.Schemas.{is_address}
use call_sign.Protocol.Signing.{hash_canonical}
use call_sign.Verifier.Bytes.{equal_bytes, bytes_difference}
use call_sign.Verifier.Snapshot.{
  snapshot_conforms, institution_state_conforms, delegation_state_conforms, is_decimal, is_hash32,
}
use call_sign.Verifier.Bundle.{
  TrustBundle, WitnessKey, verify_state_bundle, check_trust, check_snapshot, check_freshness,
  check_signatures, check_signature, map_of_keys, set_size,
}
use call_sign.Server.Aggregate.{
  WitnessEndpoint, AggregateInput, Head, Answer, waiting, resolved, Outcome, head_comes,
  answer_comes, fails, ends, pick, finished, start, run,
}
use call_sign.Server.Aggregate.Decided.{run-IsDecided}
use call_sign.Server.Aggregate.Ended.{is_ending, run-CanEnd}
use call_sign.Server.Aggregate.Groups.{IsCollisionFree, IsQuorate}
use call_sign.Server.Aggregate.Resolved.{run-IsQuorate}
use call_sign.Tests.World.{jwk}
use call_sign.Tests.Verifier.{witness_lib, snapshot, trust}

abbrev pub key_of : String → String → WitnessKey
key_of id x = record { witness_id = id; kid = "kid"; jwk = record jwk { x = x } }

abbrev pub three_of_trust : TrustBundle
three_of_trust = record trust {
  witness_threshold = 2;
  witness_public_keys = key_of "w1" "a" ∷ key_of "w2" "b" ∷ key_of "w3" "c" ∷ [];
}

abbrev endpoint : String → WitnessEndpoint
endpoint id = record { witness_id = id; url = "http://witness" }

abbrev input : AggregateInput
input = record {
  endpoints = endpoint "w1" ∷ endpoint "w2" ∷ endpoint "w3" ∷ [];
  institution_id = "institution-00001";
  delegation_id = "delegation-000001";
  trust = three_of_trust;
  now = none;
  allow_policy_transition = false;
}

abbrev head_seven : Head
head_seven = record { block_number = "7"; block_hash = "0x07" }

abbrev answer_of : String → Answer
answer_of id = record { witness_id = id; snapshot = snapshot; jws = "signed" }

abbrev events : List (ℕ × Outcome)
events =
    (0, head_comes head_seven)
    ∷ (2, answer_comes (answer_of "w1"))
    ∷ (2, answer_comes (answer_of "w2"))
    ∷ (4, ends 1003)
    ∷ (2, answer_comes (answer_of "w3"))
    ∷ (0, fails)
    ∷ (0, fails)
    ∷ (0, ends 1003)
    ∷ []

all_over : (run witness_lib input (start witness_lib input) events).waits ≡ []
unfolding run pick finished verify_state_bundle check_trust check_snapshot check_freshness
    check_signatures check_signature map_of_keys set_size snapshot_conforms
    institution_state_conforms delegation_state_conforms is_decimal is_hash32 is_address has_length
    codes matches_0x matches_class matches_decimal utf16_length same_lower codes_eq equal_bytes
    bytes_difference any every lookup insert hash_canonical
all_over = refl

with_two : (run witness_lib input (start witness_lib input) events).promise ≡ resolved "hash"
unfolding run pick finished verify_state_bundle check_trust check_snapshot check_freshness
    check_signatures check_signature map_of_keys set_size snapshot_conforms
    institution_state_conforms delegation_state_conforms is_decimal is_hash32 is_address has_length
    codes matches_0x matches_class matches_decimal utf16_length same_lower codes_eq equal_bytes
    bytes_difference any every lookup insert hash_canonical
with_two = refl

collision_free : IsCollisionFree witness_lib
collision_free a b h = refl

run-IsDecided_example : (run witness_lib input (start witness_lib input) events).promise ≢ waiting
run-IsDecided_example = run-IsDecided witness_lib input events all_over

run-IsQuorate_example :
    IsQuorate witness_lib input
      (run witness_lib input (start witness_lib input) events).groups
      "hash"
run-IsQuorate_example = run-IsQuorate witness_lib input collision_free events "hash" with_two

-- After the first answer.
abbrev first_events : List (ℕ × Outcome)
first_events = (0, head_comes head_seven) ∷ (2, answer_comes (answer_of "w1")) ∷ []

run-CanEnd_example :
    (more : List (ℕ × Outcome)) × All (λ e. is_ending e.1 ≡ true) more
    × ((run witness_lib input (start witness_lib input) (first_events ++ more)).waits ≡ [])
    × ((run witness_lib input (start witness_lib input) (first_events ++ more)).promise ≢ waiting)
run-CanEnd_example = run-CanEnd witness_lib input first_events
