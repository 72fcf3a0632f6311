-- ===== src/Witness/Quorum.antt =====
-- The snapshots of services/witness/src/server.ts before `verifyStateBundle` of
-- packages/verifier/src/index.ts.
use call_sign.Prelude.{
  ◌≤◌, ◌≡◌, refl, ap, sym, ◌∙◌, ◌⊎◌, inl, inr, String, none, some, true, false, List, [], ◌∷◌, ◌++◌,
  map, arith, ◌==◌, string_eq, nat_eq, eq_iff, eq_refl, length, length-map, any, lookup, ok, is_ok,
  Dict, All, append-nil, append_assoc,
}
use call_sign.Prelude.Text.{same_lower}
use call_sign.Protocol.Json.{Libraries}
use call_sign.Protocol.Signing.{sign_payload, jws_typ}
use call_sign.Verifier.Bytes.{equal_bytes_iff}
use call_sign.Verifier.Snapshot.{StateSnapshot, snapshot_json, snapshot_conforms, snapshot_version}
use call_sign.Verifier.Bundle.{
  TrustBundle, VerificationContext, WitnessKey, WitnessSignature, check_signature, check_signatures,
  check_trust, check_snapshot, check_freshness, verify_state_bundle, map_of_keys,
}
use call_sign.Verifier.Bundle.Grow.{bundle-ok}
use call_sign.Witness.{
  WitnessDeployment, Node, WitnessQuery, PersistedKey, read_snapshot, sign_snapshot, profile_fields,
  service_profile,
}

-- The signature of a witness over the snapshot reads back under its public key.
abbrev pub ReadsBack : Libraries → StateSnapshot → PersistedKey → Type 0
ReadsBack lib s key =
    lib.compact_verify (sign_snapshot lib key s).jws key.public_jwk
    ≡ some (record {
      protected_header = record {
        alg = some "EdDSA";
        typ = some (jws_typ "SignedStateSnapshot");
        cty = none;
        kid = some key.kid;
      };
      payload = lib.canonicalize (snapshot_json s);
    })

abbrev pub entry_of : PersistedKey → WitnessKey
entry_of key = record { witness_id = key.witness_id; kid = key.kid; jwk = key.public_jwk }

abbrev pub signed_by : Libraries → StateSnapshot → PersistedKey → WitnessSignature
signed_by lib snapshot key = record {
  witness_id = key.witness_id;
  jws = (sign_snapshot lib key snapshot).jws;
}

-- No identifier stands twice.
abbrev pub Distinct : List PersistedKey → Type 0
Distinct [] = Unit
Distinct (key ∷ keys) = All (λ j. (key.witness_id == j.witness_id) ≡ false) keys × Distinct keys

any-snoc :
    (unique : List String) (x y : String)
    → any (λ w. w == y) unique ≡ false
    → (x == y) ≡ false
    → any (λ w. w == y) (unique ++ x ∷ []) ≡ false
unfolding any
any-snoc [] x y h e = ground arith
any-snoc (u ∷ unique) x y h e = ground (arith, any-snoc unique x y)

none_yet : (keys : List PersistedKey) → All (λ j. any (λ w. w == j.witness_id) [] ≡ false) keys
unfolding any
none_yet [] = tt
none_yet (key ∷ keys) = (refl, none_yet keys)

still_new :
    (unique : List String) (x : String) (keys : List PersistedKey)
    → All (λ j. any (λ w. w == j.witness_id) unique ≡ false) keys
    → All (λ j. (x == j.witness_id) ≡ false) keys
    → All (λ j. any (λ w. w == j.witness_id) (unique ++ x ∷ []) ≡ false) keys
still_new unique x [] new other = tt
still_new unique x (j ∷ keys) (n, new) (o, other) =
    (any-snoc unique x j.witness_id n o, still_new unique x keys new other)

module _ (lib : Libraries) (s : StateSnapshot) where
  sign_snapshot-checks :
      (key : PersistedKey)
      → ReadsBack lib s key
      → check_signature lib
          (lib.canonicalize (snapshot_json s))
          (entry_of key)
          (sign_snapshot lib key s).jws
        ≡ ok tt
  unfolding check_signature sign_payload
  sign_snapshot-checks key reads =
      rw (reads, eq_refl key.kid, (equal_bytes_iff (lib.canonicalize (snapshot_json s)) _).1 refl)

  check_signatures-signed :
      (trusted : Dict WitnessKey) (keys : List PersistedKey) (unique : List String)
      → All (ReadsBack lib s) keys
      → All (λ k. lookup trusted k.witness_id ≡ some (entry_of k)) keys
      → Distinct keys
      → All (λ j. any (λ w. w == j.witness_id) unique ≡ false) keys
      → check_signatures lib
          (lib.canonicalize (snapshot_json s))
          trusted
          unique
          (map (signed_by lib s) keys)
        ≡ ok (unique ++ map (λ k. k.witness_id) keys)
  unfolding check_signatures
  check_signatures-signed trusted [] unique reads known distinct new =
      ap ok (sym (append-nil unique))
  check_signatures-signed trusted (key ∷ keys) unique (r, reads) (k, known) (o, distinct) (n, new) =
      rw (n, k, sign_snapshot-checks key r)
        (check_signatures-signed trusted keys (unique ++ key.witness_id ∷ []) reads known distinct
            (still_new unique key.witness_id keys new o)
          ∙ ap ok (append_assoc unique (key.witness_id ∷ []) (map (λ k. k.witness_id) keys)))

-- The witnesses are listed in the trust bundle under their own keys, nobody twice, and they are enough.
pub record IsTrusted (trust : TrustBundle) (keys : List PersistedKey) : Type 0 where
  pub valid : check_trust trust ≡ ok tt
  pub listed :
      All
        (λ k. lookup (map_of_keys [] trust.witness_public_keys) k.witness_id ≡ some (entry_of k))
        keys
  pub distinct : Distinct keys
  pub enough : trust.witness_threshold ≤ length keys

-- The trust bundle is that of the deployment, and it knows the present version of the protocol.
pub record IsDeployed (deployment : WitnessDeployment) (trust : TrustBundle) : Type 0 where
  pub network : deployment.network_id ≡ trust.network_id
  pub genesis : deployment.genesis_hash ≡ trust.genesis_hash
  pub registry : same_lower deployment.registry_address trust.registry_address ≡ true
  pub version : any (λ v. v == snapshot_version) trust.supported_protocol_versions ≡ true
  pub profile :
      (trust.registry_profile ≡ none)
      ⊎ ((trust.registry_profile ≡ some service_profile)
          × (deployment.registry_profile ≡ some service_profile))

read-parts :
    (node : Node) (query : WitnessQuery) (deployment : WitnessDeployment) (s : StateSnapshot)
    → node.deployment ≡ ok deployment
    → read_snapshot node query ≡ ok s
    → (s.network_id ≡ deployment.network_id)
      × (s.genesis_hash ≡ deployment.genesis_hash)
      × (s.registry_address ≡ deployment.registry_address)
      × (s.institution_id ≡ query.institution_id)
      × (s.delegation_id ≡ query.delegation_id)
      × (snapshot_conforms s ≡ true)
unfolding read_snapshot
read-parts node query deployment s d h = ground arith

read-profile :
    (node : Node) (query : WitnessQuery) (deployment : WitnessDeployment) (s : StateSnapshot)
    → node.deployment ≡ ok deployment
    → deployment.registry_profile ≡ some service_profile
    → read_snapshot node query ≡ ok s
    → s.registry_profile ≡ some service_profile
unfolding read_snapshot profile_fields
read-profile node query deployment s d p h = ground (arith, eq_refl service_profile)

snapshot-checks :
    (s : StateSnapshot) (trust : TrustBundle) (context : VerificationContext)
    → snapshot_conforms s ≡ true
    → any (λ v. v == snapshot_version) trust.supported_protocol_versions ≡ true
    → (trust.registry_profile ≡ none)
      ⊎ ((trust.registry_profile ≡ some service_profile)
          × (s.registry_profile ≡ some service_profile))
    → s.network_id ≡ trust.network_id
    → s.genesis_hash ≡ trust.genesis_hash
    → same_lower s.registry_address trust.registry_address ≡ true
    → s.policy_version ≡ trust.policy_version
    → s.institution_id ≡ context.expected_institution_id
    → s.delegation_id ≡ context.expected_delegation_id
    → check_snapshot s trust context ≡ ok tt
unfolding check_snapshot
snapshot-checks s trust context conforms version profile n g r p i d = ground (
  arith,
  eq_iff s.network_id trust.network_id,
  eq_iff s.genesis_hash trust.genesis_hash,
  eq_iff s.policy_version trust.policy_version,
  eq_iff s.institution_id context.expected_institution_id,
  eq_iff s.delegation_id context.expected_delegation_id,
  eq_refl service_profile,
)

-- The snapshot that a witness reads from its node is, signed by a list of keys, a bundle that verifies, if
-- the signatures read back; the trust bundle is valid, lists these keys under their witnesses, none of
-- them twice, and asks for no more of them; it has the network, the genesis, the registry and the profile
-- of the node's deployment and knows the version of the protocol; its policy is the one on the ledger; the
-- query asked for the institution and the delegation that are expected; and the snapshot is fresh.
pub verify_state_bundle-read_snapshot :
    (lib : Libraries) (node : Node) (query : WitnessQuery) (deployment : WitnessDeployment)
    (s : StateSnapshot) (keys : List PersistedKey) (trust : TrustBundle)
    (context : VerificationContext)
    → node.deployment ≡ ok deployment
    → read_snapshot node query ≡ ok s
    → All (ReadsBack lib s) keys
    → IsTrusted trust keys
    → IsDeployed deployment trust
    → s.policy_version ≡ trust.policy_version
    → query.institution_id ≡ context.expected_institution_id
    → query.delegation_id ≡ context.expected_delegation_id
    → check_freshness s.block_timestamp context ≡ ok tt
    → is_ok (
        verify_state_bundle lib
          (record { snapshot = s; signatures = map (signed_by lib s) keys })
          trust
          context)
      ≡ true
verify_state_bundle-read_snapshot lib node query deployment s keys trust context file read reads t d
      policy institution delegation fresh =
    let (network, genesis, registry, i, g, conforms) =
      read-parts node query deployment s file read in
    bundle-ok lib (record { snapshot = s; signatures = map (signed_by lib s) keys }) trust context
      (map (λ k. k.witness_id) keys) t.valid
      (snapshot-checks s trust context conforms d.version
        (elim d.profile [
          | inl open_profile ↦ inl open_profile
          | inr (pinned, deployed) ↦
              inr (pinned, read-profile node query deployment s file deployed read)
        ])
        (network ∙ d.network) (genesis ∙ d.genesis)
        (ap (λ a. same_lower a trust.registry_address) registry ∙ d.registry) policy
        (i ∙ institution) (g ∙ delegation))
      fresh (check_signatures-signed lib s _ keys [] reads t.listed t.distinct (none_yet keys))
      (rw length-map t.enough)
