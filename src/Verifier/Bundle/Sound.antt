-- ===== src/Verifier/Bundle/Sound.antt =====
-- `verifyStateBundle` of packages/verifier/src/index.ts: what its checks say of a bundle.
use mathlib.Core.List.{Nodup-nil}
use call_sign.Prelude.{
  ℕ, ◌+◌, ◌-◌, ◌*◌, ◌≤◌, ◌<◌, ◌≡◌, [], map, Nodup, arith, eq_iff, ok, All, length,
}
use call_sign.Protocol.Json.{Libraries}
use call_sign.Protocol.Signing.{hash_canonical}
use call_sign.Verifier.Snapshot.{StateSnapshot, snapshot_json}
use call_sign.Verifier.Bundle.{
  StateBundle, TrustBundle, VerificationContext, VerifiedState, check_signatures, check_trust,
  check_snapshot, check_freshness, verify_state_bundle, map_of_keys, max_age,
}
use call_sign.Verifier.Bundle.Keys.{set_size-Nodup, trust-parts}
use call_sign.Verifier.Bundle.Loop.{Attests, loop-Attests, loop-signers}

-- The snapshot belongs to the pinned network and to the keys that were asked for.
pub record IsPinned (s : StateSnapshot) (trust : TrustBundle) (context : VerificationContext)
    : Type 0 where
  pub network : s.network_id ≡ trust.network_id
  pub genesis : s.genesis_hash ≡ trust.genesis_hash
  pub policy : s.policy_version ≡ trust.policy_version
  pub institution : s.institution_id ≡ context.expected_institution_id
  pub delegation : s.delegation_id ≡ context.expected_delegation_id

pinned :
    (s : StateSnapshot) (trust : TrustBundle) (context : VerificationContext)
    → check_snapshot s trust context ≡ ok tt
    → IsPinned s trust context
unfolding check_snapshot
pinned s trust context h = ground (
  arith,
  eq_iff s.network_id trust.network_id,
  eq_iff s.genesis_hash trust.genesis_hash,
  eq_iff s.policy_version trust.policy_version,
  eq_iff s.institution_id context.expected_institution_id,
  eq_iff s.delegation_id context.expected_delegation_id,
)

pub record IsFresh (timestamp : ℕ) (context : VerificationContext) : Type 0 where
  pub not_future : timestamp ≤ context.now_wall_seconds + 2
  pub not_stale : context.now_wall_seconds < timestamp + max_age context
  pub positive : 1 ≤ max_age context
  pub bounded : max_age context ≤ 12

fresh :
    (timestamp : ℕ) (context : VerificationContext)
    → check_freshness timestamp context ≡ ok tt
    → IsFresh timestamp context
unfolding check_freshness
fresh timestamp context h = ground arith

pub bundle-parts :
    (lib : Libraries) (bundle : StateBundle) (trust : TrustBundle) (context : VerificationContext)
    (v : VerifiedState)
    → verify_state_bundle lib bundle trust context ≡ ok v
    → (check_trust trust ≡ ok tt)
      × (check_snapshot bundle.snapshot trust context ≡ ok tt)
      × (check_freshness bundle.snapshot.block_timestamp context ≡ ok tt)
      × (check_signatures lib
            (lib.canonicalize (snapshot_json bundle.snapshot))
            (map_of_keys [] trust.witness_public_keys)
            []
            bundle.signatures
          ≡ ok v.signer_ids)
      × (trust.witness_threshold ≤ length v.signer_ids)
      × (v.snapshot ≡ bundle.snapshot)
      × (v.snapshot_hash ≡ hash_canonical lib (snapshot_json bundle.snapshot))
      × (v.deadline_monotonic_ms
          ≡ context.now_monotonic_ms
            + (max_age context - (context.now_wall_seconds - bundle.snapshot.block_timestamp))
              * 1000)
unfolding verify_state_bundle
bundle-parts lib bundle trust context v h = ground arith

-- The signers of a quorum: enough of them, each once, each with a signature of its own trusted key
-- over exactly the canonical bytes of the snapshot, and nobody else in the bundle.
pub record IsQuorum (lib : Libraries) (bundle : StateBundle) (trust : TrustBundle)
    (v : VerifiedState) : Type 0 where
  pub at_least_one : 1 ≤ trust.witness_threshold
  pub enough : trust.witness_threshold ≤ length v.signer_ids
  pub distinct : Nodup v.signer_ids
  pub distinct_keys : Nodup (map (λ k. k.jwk.x) trust.witness_public_keys)
  pub all_counted : v.signer_ids ≡ map (λ s. s.witness_id) bundle.signatures
  pub attested :
      All
        (Attests lib
          (lib.canonicalize (snapshot_json bundle.snapshot))
          (map_of_keys [] trust.witness_public_keys))
        v.signer_ids

-- A bundle that `verifyStateBundle` accepts carries the signatures of at least `witnessThreshold`
-- distinct witnesses, all of them over the canonical bytes of its snapshot by the trusted key of the
-- witness, no two trusted keys being the same; every signature of the bundle is one of these.
pub verify_state_bundle-IsQuorum :
    (lib : Libraries) (bundle : StateBundle) (trust : TrustBundle) (context : VerificationContext)
    (v : VerifiedState)
    → verify_state_bundle lib bundle trust context ≡ ok v
    → IsQuorum lib bundle trust v
verify_state_bundle-IsQuorum lib bundle trust context v h =
    let p = bundle-parts lib bundle trust context v h in
    let (one, most, keys) = trust-parts trust p.0 in
    let (distinct, attested) =
      loop-Attests lib _ _ [] bundle.signatures v.signer_ids p.3 Nodup-nil tt in
    record {
      at_least_one = one;
      enough = p.4;
      distinct = distinct;
      distinct_keys = set_size-Nodup _ keys;
      all_counted = loop-signers lib _ _ [] bundle.signatures v.signer_ids p.3;
      attested = attested;
    }

-- What the result of an accepted bundle is, and how long it may be used.
pub record IsTimely (lib : Libraries) (bundle : StateBundle) (context : VerificationContext)
    (v : VerifiedState) : Type 0 where
  pub same : v.snapshot ≡ bundle.snapshot
  pub hashed : v.snapshot_hash ≡ hash_canonical lib (snapshot_json bundle.snapshot)
  pub fresh : IsFresh bundle.snapshot.block_timestamp context
  pub later : context.now_monotonic_ms < v.deadline_monotonic_ms
  pub limited : v.deadline_monotonic_ms ≤ context.now_monotonic_ms + 12000

-- An accepted snapshot is the one of the bundle, is on the pinned network and policy, answers the
-- institution and delegation that were asked for, is less than `maxAge` (at most 12) seconds old and
-- at most 2 seconds in the future, and may be used for a time that ends after now and within 12 s.
pub verify_state_bundle-IsTimely :
    (lib : Libraries) (bundle : StateBundle) (trust : TrustBundle) (context : VerificationContext)
    (v : VerifiedState)
    → verify_state_bundle lib bundle trust context ≡ ok v
    → IsPinned bundle.snapshot trust context × IsTimely lib bundle context v
verify_state_bundle-IsTimely lib bundle trust context v h =
    let p = bundle-parts lib bundle trust context v h in
    let f = fresh bundle.snapshot.block_timestamp context p.2 in
    (
      pinned bundle.snapshot trust context p.1,
      record {
        same = p.5;
        hashed = p.6;
        fresh = f;
        later = omega (arith, p.7, f.not_stale, f.positive);
        limited = omega (arith, p.7, f.bounded);
      },
    )
