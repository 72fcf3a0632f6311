-- ===== src/Tests/Witness.antt =====
-- Two witnesses on a node of one block.
use call_sign.Prelude.{
  arith, ◌≡◌, refl, String, none, some, true, false, List, [], ◌∷◌, map, inl, ok, is_ok, any,
  lookup, insert,
}
use call_sign.Prelude.Text.{same_lower, big_int}
use call_sign.Prelude.Decimal.{decimal}
use call_sign.Verifier.Snapshot.{StateSnapshot, snapshot_conforms}
use call_sign.Verifier.Bundle.{
  VerificationContext, verify_state_bundle, check_trust, check_freshness, map_of_keys, set_size,
}
use call_sign.Server.Registry.{Institution, Delegation}
use call_sign.Witness.{
  WitnessDeployment, Node, WitnessQuery, PersistedKey, read_snapshot, check_query, query_conforms,
  profile_fields,
}
use call_sign.Witness.Quorum.{IsTrusted, IsDeployed, signed_by, verify_state_bundle-read_snapshot}
use call_sign.Tests.World.{value_of, jwk, address}
use call_sign.Tests.Verifier.{witness_lib, hash32}
use call_sign.Tests.Aggregate.{three_of_trust}

abbrev institution : Institution
institution = record {
  status = 0;
  epoch = 7;
  administrator = address;
  approval_public_key = hash32;
  emergency_stopper = address;
  directory_hash = hash32;
  directory_version = 2;
  policy_version = 1;
  exists = true;
}

abbrev delegation : Delegation
delegation = record {
  institution_id = "INSTITUTION-00001";
  epoch = 7;
  gateway_public_key = hash32;
  purpose_mask = 4;
  valid_from = 0;
  valid_until = 5000;
  revoked = false;
  exists = true;
}

abbrev deployment : WitnessDeployment
deployment = record {
  network_id = "31337";
  genesis_hash = hash32;
  registry_address = address;
  institution_id = "institution-00001";
  registry_profile = none;
  registry_code_hash = none;
}

abbrev node : Node
node = record {
  chain_id = ok 31337;
  genesis = ok (some hash32);
  block = λ number. ok (record { hash = some hash32; timestamp = 1000 });
  institutions = λ key number. ok institution;
  delegations = λ key number. ok delegation;
  profile = λ number. ok "profile";
  policy_hashes = λ key number. ok hash32;
  code = λ number. ok none;
  keccak = λ text. text;
  keccak_code = λ code. code;
  deployment = ok deployment;
  service_registry_profile = none;
}

abbrev query : WitnessQuery
query = record {
  institution_id = "institution-00001";
  delegation_id = "delegation-000001";
  block_number = "42";
  block_hash = hash32;
}

abbrev context : VerificationContext
context = record {
  max_state_age_seconds = none;
  max_future_skew_seconds = none;
  now_wall_seconds = 1003;
  now_monotonic_ms = 50;
  expected_institution_id = "institution-00001";
  expected_delegation_id = "delegation-000001";
}

abbrev key : String → String → PersistedKey
key id x = record { witness_id = id; public_jwk = record jwk { x = x }; kid = "kid" }

abbrev keys : List PersistedKey
keys = key "w3" "c" ∷ key "w1" "a" ∷ []

read-is_ok : is_ok (read_snapshot node query) ≡ true
unfolding read_snapshot query_conforms check_query decimal same_lower profile_fields
    snapshot_conforms big_int
read-is_ok = refl

abbrev taken : (s : StateSnapshot) × (read_snapshot node query ≡ ok s)
taken = value_of (read_snapshot node query) read-is_ok

keys-IsTrusted : IsTrusted three_of_trust keys
unfolding check_trust set_size map_of_keys lookup insert any
keys-IsTrusted = record {
  valid = refl;
  listed = (refl, (refl, tt));
  distinct = ((refl, tt), (tt, tt));
  enough = omega arith;
}

deployment-IsDeployed : IsDeployed deployment three_of_trust
unfolding same_lower any
deployment-IsDeployed = record {
  network = refl;
  genesis = refl;
  registry = refl;
  version = refl;
  profile = inl refl;
}

fresh : check_freshness taken.0.block_timestamp context ≡ ok tt
unfolding check_freshness read_snapshot query_conforms check_query decimal same_lower profile_fields
    snapshot_conforms big_int
fresh = refl

policy : taken.0.policy_version ≡ three_of_trust.policy_version
unfolding read_snapshot query_conforms check_query decimal same_lower profile_fields
    snapshot_conforms big_int
policy = refl

verify_state_bundle-read_snapshot_example :
    is_ok (
      verify_state_bundle witness_lib
        (record { snapshot = taken.0; signatures = map (signed_by witness_lib taken.0) keys })
        three_of_trust
        context)
    ≡ true
verify_state_bundle-read_snapshot_example =
    verify_state_bundle-read_snapshot witness_lib node query deployment taken.0 keys three_of_trust
      context refl taken.1 (refl, (refl, tt)) keys-IsTrusted deployment-IsDeployed policy refl refl
      fresh
