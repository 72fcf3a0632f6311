-- ===== src/Server/Aggregate/Groups.antt =====
-- The groups of services/api/src/witness-aggregate.ts, and the signatures in them.
use call_sign.Prelude.{
  ℕ, ◌≡◌, ◌≢◌, ◌⊎◌, inl, inr, refl, ap, sym, ◌∙◌, String, Option, none, some, true, false, ◌==◌,
  string_eq, nat_eq, arith, Dict, lookup, insert, lookup-insert, ok, is_ok, is_ok-value, eq_iff,
}
use call_sign.Prelude.Tests.{if-cases, Bool-cases}
use call_sign.Protocol.Json.{Json, Libraries}
use call_sign.Protocol.Signing.{hash_canonical}
use call_sign.Verifier.Snapshot.{StateSnapshot, snapshot_json}
use call_sign.Verifier.Bundle.{
  StateBundle, VerifiedState, WitnessSignature, verify_state_bundle, TrustBundle,
}
use call_sign.Verifier.Bundle.Grow.{verify_state_bundle-snoc}
use call_sign.Server.Aggregate.{
  AggregateInput, Answer, Promise, waiting, resolved, rejected, reject, Aggregation, finished,
  trust_for, context_at, bundle_of, add_signer, group_or_new, has_signer, signature_of,
}

-- No two values have the same hash.
abbrev pub IsCollisionFree : Libraries → Type 0
IsCollisionFree lib =
    (a b : Json)
    → hash_canonical lib a ≡ hash_canonical lib b
    → lib.canonicalize a ≡ lib.canonicalize b

lookup-insert_cases :
    (d : Dict StateBundle) (k j : String) (v w : StateBundle)
    → lookup (insert d k v) j ≡ some w
    → ((k ≡ j) × (v ≡ w)) ⊎ (lookup d j ≡ some w)
lookup-insert_cases d k j v w h = ground (arith, lookup-insert d k j v, eq_iff k j)

insert-here :
    (d : Dict StateBundle) (k j : String) (v : StateBundle)
    → (k == j) ≡ true
    → lookup (insert d k v) j ≡ some v
insert-here d k j v h = ground (arith, lookup-insert d k j v)

insert-elsewhere :
    (d : Dict StateBundle) (k j : String) (v : StateBundle)
    → (k == j) ≡ false
    → lookup (insert d k v) j ≡ lookup d j
insert-elsewhere d k j v h = ground (arith, lookup-insert d k j v)

pub none-some : {b : StateBundle} → none ≢ some b
none-some h = cc

some-injective : {b c : StateBundle} → some b ≡ some c → b ≡ c
some-injective h = cc

pub resolved-injective : {k j : String} → resolved k ≡ resolved j → k ≡ j
resolved-injective h = cc

module _ (lib : Libraries) (input : AggregateInput) where
  -- The group verifies as it stands, at some time of the caller's.
  abbrev pub Verifies : StateBundle → Type 0
  Verifies group =
      (now : ℕ) × (is_ok (
          verify_state_bundle lib group (trust_for lib input group.snapshot)
            (context_at lib input now))
        ≡ true)

  -- The group at the key is there, and it verifies.
  abbrev pub IsQuorate : Dict StateBundle → String → Type 0
  IsQuorate groups key = (group : StateBundle) × (lookup groups key ≡ some group) × Verifies group

  -- A group stands at the hash of its snapshot, and the promise is resolved with one that verifies.
  pub record IsSound (groups : Dict StateBundle) (promise : Promise) : Type 0 where
    pub keyed :
        (key : String) (group : StateBundle)
        → lookup groups key ≡ some group
        → key ≡ hash_canonical lib (snapshot_json group.snapshot)
    pub quorate : (key : String) → promise ≡ resolved key → IsQuorate groups key

  abbrev pub IsSafe : Aggregation → Type 0
  IsSafe s = IsSound s.groups s.promise

  reject-resolved :
      (p : Promise) (code key : String) → reject p code ≡ resolved key → p ≡ resolved key
  reject-resolved waiting code key h = cc
  reject-resolved (resolved k) code key h = h
  reject-resolved (rejected e) code key h = h

  finished-resolved :
      (s : Aggregation) (key : String)
      → (finished s).promise ≡ resolved key
      → s.promise ≡ resolved key
  unfolding finished
  finished-resolved s key h = ground (arith, reject-resolved s.promise s.unavailable key)

  pub finished-IsSafe : (s : Aggregation) → IsSafe s → IsSafe (finished s)
  unfolding finished
  finished-IsSafe s i = record {
    keyed = i.keyed;
    quorate = λ key h. i.quorate key (finished-resolved s key h);
  }

  trust_for-keys :
      (snapshot : StateSnapshot)
      → (trust_for lib input snapshot).witness_public_keys ≡ input.trust.witness_public_keys
  trust_for-keys snapshot =
      if-cases (λ (t : TrustBundle). t.witness_public_keys ≡ input.trust.witness_public_keys)
        input.allow_policy_transition (λ allowed. refl) (λ pinned. refl)

  -- A signature that verifies alone keeps its group as it is, or adds to it.
  add_signer-Verifies :
      (free : IsCollisionFree lib) (group : StateBundle) (a : Answer) (v : VerifiedState)
      → verify_state_bundle lib
          (bundle_of a)
          (record (trust_for lib input a.snapshot) { witness_threshold = 1 })
          (context_at lib input a.snapshot.block_timestamp)
        ≡ ok v
      → hash_canonical lib (snapshot_json a.snapshot)
        ≡ hash_canonical lib (snapshot_json group.snapshot)
      → Verifies group
      → Verifies (add_signer group (signature_of a))
  add_signer-Verifies free group a v alone same (now, h) =
      if-cases Verifies (has_signer group.signatures a.witness_id) (λ old. (now, h))
        (λ new.
          let (w, verified) = is_ok-value _ h in
          (
            now,
            verify_state_bundle-snoc lib group a.snapshot (signature_of a)
                (trust_for lib input group.snapshot) _ (context_at lib input now) _ w v verified
                alone (trust_for-keys a.snapshot ∙ sym (trust_for-keys group.snapshot))
                (free _ _ same) new,
          ))

  insert-IsSound :
      (groups : Dict StateBundle) (promise : Promise) (key : String) (group : StateBundle)
      → IsSound groups promise
      → key ≡ hash_canonical lib (snapshot_json group.snapshot)
      → (promise ≡ resolved key → Verifies group)
      → IsSound (insert groups key group) promise
  insert-IsSound groups promise key group i at_key verifies = record {
    keyed = λ k g found. elim (lookup-insert_cases groups key k group g found) [
      | inl (same, here) ↦
          sym same
          ∙ at_key
          ∙ ap (λ (b : StateBundle). hash_canonical lib (snapshot_json b.snapshot)) here
      | inr elsewhere ↦ i.keyed k g elsewhere
    ];
    quorate = λ k h. elim (Bool-cases (key == k)) [
      | inl same ↦ (
        group,
        insert-here groups key k group same,
        verifies (h ∙ ap resolved (sym ((eq_iff key k).0 same))),
      )
      | inr other ↦
          let (g, found, good) = i.quorate k h in
          (g, insert-elsewhere groups key k group other ∙ found, good)
    ];
  }

  add_signer-snapshot :
      (group : StateBundle) (one : WitnessSignature)
      → (add_signer group one).snapshot ≡ group.snapshot
  add_signer-snapshot group one =
      if-cases (λ (g : StateBundle). g.snapshot ≡ group.snapshot)
        (has_signer group.signatures one.witness_id) (λ old. refl) (λ new. refl)

  -- The group of an answer: it stands at its hash, and it verifies if the promise is resolved with it.
  pub grown-IsSound :
      (free : IsCollisionFree lib) (s : Aggregation) (a : Answer) (v : VerifiedState)
      (found : Option StateBundle)
      → verify_state_bundle lib
          (bundle_of a)
          (record (trust_for lib input a.snapshot) { witness_threshold = 1 })
          (context_at lib input a.snapshot.block_timestamp)
        ≡ ok v
      → lookup s.groups (hash_canonical lib (snapshot_json a.snapshot)) ≡ found
      → IsSafe s
      → IsSound
          (insert s.groups
            (hash_canonical lib (snapshot_json a.snapshot))
            (add_signer (group_or_new found a.snapshot) (signature_of a)))
          s.promise
  grown-IsSound free s a v none alone absent i =
      insert-IsSound s.groups s.promise _
        (add_signer (group_or_new none a.snapshot) (signature_of a)) i
        (ap (λ x. hash_canonical lib (snapshot_json x))
          (sym (add_signer-snapshot (group_or_new none a.snapshot) (signature_of a))))
        λ h. let (g, present, good) = i.quorate _ h in absurd (none-some (sym absent ∙ present))
  grown-IsSound free s a v (some group) alone present i =
      let at_key = i.keyed _ group present in
      insert-IsSound s.groups s.promise _ (add_signer group (signature_of a)) i
        (at_key
          ∙ ap (λ x. hash_canonical lib (snapshot_json x))
              (sym (add_signer-snapshot group (signature_of a))))
        λ h.
          let (g, found, good) = i.quorate _ h in
          add_signer-Verifies free group a v alone at_key
            (rw (some-injective (sym present ∙ found)) good)
