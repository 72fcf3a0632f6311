-- ===== src/Verifier/Bundle.antt =====
-- `verifyStateBundle` of packages/verifier/src/index.ts: a quorum of witnesses over one snapshot.
-- Seconds and milliseconds are whole numbers.
pub mod Keys
pub mod Loop
pub mod Sound
pub mod Grow
use call_sign.Prelude.{
  ℕ, zero, suc, ◌+◌, ◌-◌, ◌*◌, String, Option, none, some, Bool, true, false, not, ◌&&◌, ◌||◌, List,
  [], ◌∷◌, ◌++◌, map, ltb, leb, ◌==◌, ◌!=◌, string_eq, nat_eq, if◌then◌else◌, length, any, Dict,
  lookup, insert, Result, Checked, ok, err, error, invalid_input, throw_if, or_throw, ◌>>=◌, ◌>>◌,
}
use call_sign.Prelude.Int.{ℤ, sub_ℕ}
use call_sign.Prelude.Text.{same_lower}
use call_sign.Protocol.Json.{Jwk, Jws, Libraries, is_text}
use call_sign.Protocol.Signing.{hash_canonical}
use call_sign.Verifier.Bytes.{equal_bytes}
use call_sign.Verifier.Snapshot.{StateSnapshot, snapshot_conforms, snapshot_json, snapshot_version}

pub record WitnessSignature : Type 0 where
  pub witness_id : String
  pub jws : String

pub record StateBundle : Type 0 where
  pub snapshot : StateSnapshot
  pub signatures : List WitnessSignature

pub record WitnessKey : Type 0 where
  pub witness_id : String
  pub kid : String
  pub jwk : Jwk

pub record TrustBundle : Type 0 where
  pub network_id : String
  pub genesis_hash : String
  pub registry_address : String
  pub policy_version : String
  pub registry_profile : Option String
  pub witness_threshold : ℕ
  pub witness_public_keys : List WitnessKey
  pub enrollment_public_key : Jwk
  pub supported_protocol_versions : List ℕ

pub record VerificationContext : Type 0 where
  pub max_state_age_seconds : Option ℕ
  pub max_future_skew_seconds : Option ℕ
  pub now_wall_seconds : ℕ
  pub now_monotonic_ms : ℕ
  pub expected_institution_id : String
  pub expected_delegation_id : String

pub record VerifiedState : Type 0 where
  pub snapshot : StateSnapshot
  pub signer_ids : List String
  pub snapshot_hash : String
  pub deadline_monotonic_ms : ℕ
  pub observed_age_seconds : ℤ

-- `new Set(xs).size`
unfoldable pub set_size : List String → ℕ
unfolding any
set_size [] = 0
set_size (x ∷ xs) = (if any (λ y. x == y) xs then 0 else 1) + set_size xs

-- `new Map(keys.map(entry => [entry.witnessId, entry]))`, on top of the entries `m`
unfoldable pub map_of_keys : Dict WitnessKey → List WitnessKey → Dict WitnessKey
map_of_keys m [] = m
map_of_keys m (e ∷ keys) = map_of_keys (insert m e.witness_id e) keys

unfoldable pub check_trust : TrustBundle → Checked
check_trust trust =
    let identities = trust.witness_public_keys in
    throw_if
      (ltb trust.witness_threshold 1
        || ltb (length identities) trust.witness_threshold
        || set_size (map (λ k. k.witness_id) identities) != length identities
        || set_size (map (λ k. k.jwk.x) identities) != length identities)
      (error "INVALID_WITNESS_TRUST")

-- `trust.registryProfile && snapshot.registryProfile !== trust.registryProfile`
abbrev downgraded : Option String → Option String → Bool
downgraded none _ = false
downgraded (some p) profile = not (is_text profile p)

unfoldable pub check_snapshot : StateSnapshot → TrustBundle → VerificationContext → Checked
unfolding any
check_snapshot snapshot trust context = do
  throw_if (not (snapshot_conforms snapshot)) invalid_input
  throw_if (not (any (λ v. v == snapshot_version) trust.supported_protocol_versions))
      (error "UNSUPPORTED_PROTOCOL_VERSION")
  throw_if (downgraded trust.registry_profile snapshot.registry_profile)
      (error "REGISTRY_PROFILE_DOWNGRADE")
  throw_if
      (snapshot.network_id != trust.network_id
        || snapshot.genesis_hash != trust.genesis_hash
        || not (same_lower snapshot.registry_address trust.registry_address)
        || snapshot.policy_version != trust.policy_version)
      (error "TRUST_BUNDLE_MISMATCH")
  throw_if
      (snapshot.institution_id != context.expected_institution_id
        || snapshot.delegation_id != context.expected_delegation_id)
      (error "QUERY_KEY_MISMATCH")

abbrev pub or_default : Option ℕ → ℕ → ℕ
or_default none d = d
or_default (some n) d = n

abbrev pub max_age : VerificationContext → ℕ
max_age context = or_default context.max_state_age_seconds 12

abbrev pub max_future : VerificationContext → ℕ
max_future context = or_default context.max_future_skew_seconds 2

-- `nowWallSeconds - blockTimestamp >= maxAge`, with the timestamp on the other side
unfoldable pub check_freshness : ℕ → VerificationContext → Checked
check_freshness timestamp context = do
  throw_if (leb (max_age context) 0 || ltb 12 (max_age context) || ltb 2 (max_future context))
      (error "INVALID_FRESHNESS_POLICY")
  throw_if (ltb (context.now_wall_seconds + max_future context) timestamp) (error "FUTURE_SNAPSHOT")
  throw_if (leb (timestamp + max_age context) context.now_wall_seconds) (error "STALE_SNAPSHOT")

module _ (lib : Libraries) where
  -- The body of the loop over the signatures, for one that is neither a duplicate nor untrusted.
  unfoldable pub check_signature : List ℕ → WitnessKey → String → Checked
  check_signature expected_bytes entry jws = do
    result ← or_throw (lib.compact_verify jws entry.jwk) (error "JWSSignatureVerificationFailed")
    let header = result.protected_header
    throw_if
        (not (is_text header.alg "EdDSA")
          || not (is_text header.typ "callsign/SignedStateSnapshot+jws")
          || not (is_text header.kid entry.kid))
        (error "INVALID_WITNESS_HEADER")
    throw_if (not (equal_bytes result.payload expected_bytes)) (error "MIXED_SNAPSHOT_PAYLOAD")

  -- The loop; `unique` is the set of the witnesses so far, in the order in which they were added.
  unfoldable pub check_signatures :
      List ℕ → Dict WitnessKey → List String → List WitnessSignature → Result (List String)
  unfolding any
  check_signatures expected_bytes trusted unique [] = ok unique
  check_signatures expected_bytes trusted unique (s ∷ signatures) = do
    throw_if (any (λ w. w == s.witness_id) unique) (error "DUPLICATE_WITNESS")
    entry ← or_throw (lookup trusted s.witness_id) (error "UNTRUSTED_WITNESS")
    check_signature expected_bytes entry s.jws
    check_signatures expected_bytes trusted (unique ++ s.witness_id ∷ []) signatures

  -- `Math.max(0, (maxAge - Math.max(0, observedAgeSeconds)) * 1000)`
  abbrev remaining_ms : ℕ → VerificationContext → ℕ
  remaining_ms timestamp context = (max_age context - (context.now_wall_seconds - timestamp)) * 1000

  unfoldable pub verify_state_bundle :
      StateBundle → TrustBundle → VerificationContext → Result VerifiedState
  verify_state_bundle bundle trust context = do
    check_trust trust
    let snapshot = bundle.snapshot
    check_snapshot snapshot trust context
    check_freshness snapshot.block_timestamp context
    unique ←
        check_signatures (lib.canonicalize (snapshot_json snapshot))
          (map_of_keys [] trust.witness_public_keys) [] bundle.signatures
    throw_if (ltb (length unique) trust.witness_threshold) (error "WITNESS_THRESHOLD_NOT_MET")
    ok (record {
      snapshot = snapshot;
      signer_ids = unique;
      snapshot_hash = hash_canonical lib (snapshot_json snapshot);
      deadline_monotonic_ms =
          context.now_monotonic_ms + remaining_ms snapshot.block_timestamp context;
      observed_age_seconds = sub_ℕ context.now_wall_seconds snapshot.block_timestamp;
    })
