-- ===== src/Verifier/Guard.antt =====
-- `MonotonicStateGuard` of packages/verifier/src/index.ts: what a call accepts after what it has seen.
pub mod Accept
pub mod Runs
use call_sign.Prelude.{
  ℕ, String, Option, none, some, Bool, true, false, not, ◌&&◌, ◌||◌, List, [], ◌∷◌, ltb, leb, min,
  ◌==◌, ◌!=◌, string_eq, nat_eq, if◌then◌else◌, Dict, lookup, insert, Result, ok, err, error,
  throw_if, ◌>>=◌, ◌>>◌,
}
use call_sign.Prelude.Text.{big_int}
use call_sign.Verifier.Bundle.{VerifiedState}

-- `none` is the -1n of `#highestBlock` and `#knownRevokedAt`, which is below every block.
pub record Guard : Type 0 where
  pub highest_block : Option ℕ
  pub highest_hash : String
  pub highest_snapshot_hash : String
  pub known_revoked_at : Option ℕ
  pub deadlines : Dict ℕ

abbrev pub new_guard : Guard
new_guard = record {
  highest_block = none;
  highest_hash = "";
  highest_snapshot_hash = "";
  known_revoked_at = none;
  deadlines = [];
}

-- `BigInt(verified.snapshot.blockNumber)`
abbrev pub block_of : VerifiedState → ℕ
block_of v = big_int v.snapshot.block_number

abbrev pub block_hash_of : VerifiedState → String
block_hash_of v = v.snapshot.block_hash

abbrev pub revoked_in : VerifiedState → Bool
revoked_in v = v.snapshot.delegation_state.revoked

abbrev limit_to : VerifiedState → Option ℕ → VerifiedState
limit_to verified none = verified
limit_to verified (some prior) = record verified {
  deadline_monotonic_ms = min prior verified.deadline_monotonic_ms;
}

unfoldable pub limit_deadline : Guard → VerifiedState → VerifiedState
limit_deadline guard verified = limit_to verified (lookup guard.deadlines (block_hash_of verified))

-- `block === bound`, `block < bound` and `block <= bound`
abbrev pub is_at : ℕ → Option ℕ → Bool
is_at block none = false
is_at block (some bound) = block == bound

abbrev pub is_below : ℕ → Option ℕ → Bool
is_below block none = false
is_below block (some bound) = ltb block bound

abbrev pub is_at_most : ℕ → Option ℕ → Bool
is_at_most block none = false
is_at_most block (some bound) = leb block bound

abbrev pub extends : ℕ → Option ℕ → Bool
extends deadline none = false
extends deadline (some prior) = ltb prior deadline

abbrev pub or_else : Option ℕ → ℕ → ℕ
or_else none d = d
or_else (some n) d = n

-- The assignments at the end of `accept`.
unfoldable pub record_state : Guard → VerifiedState → Guard
record_state guard verified =
    let block = block_of verified in
    let prior = lookup guard.deadlines (block_hash_of verified) in
    let rises = not (is_below block guard.highest_block) in
    record {
      highest_block = if rises then some block else guard.highest_block;
      highest_hash = if rises then block_hash_of verified else guard.highest_hash;
      highest_snapshot_hash = if rises then verified.snapshot_hash else guard.highest_snapshot_hash;
      known_revoked_at = if revoked_in verified then some block else guard.known_revoked_at;
      deadlines =
          insert guard.deadlines (block_hash_of verified)
            (or_else prior verified.deadline_monotonic_ms);
    }

unfoldable pub accept : Guard → VerifiedState → ℕ → Result Guard
accept guard verified now_monotonic_ms = do
  let block = block_of verified
  throw_if
      (is_at block guard.highest_block
        && (block_hash_of verified != guard.highest_hash
            || verified.snapshot_hash != guard.highest_snapshot_hash))
      (error "STATE_CONFLICT_AT_HEIGHT")
  throw_if (is_below block guard.highest_block) (error "STATE_ROLLBACK")
  throw_if (ltb verified.deadline_monotonic_ms now_monotonic_ms)
      (error "MONOTONIC_DEADLINE_EXPIRED")
  throw_if
      (extends verified.deadline_monotonic_ms (lookup guard.deadlines (block_hash_of verified)))
      (error "DEADLINE_EXTENSION_ATTEMPT")
  throw_if (not (revoked_in verified) && is_at_most block guard.known_revoked_at)
      (error "REVOCATION_ROLLBACK")
  ok (record_state guard verified)

-- A call that offers states one after another, and goes on after a refusal.
unfoldable pub offer : Guard → VerifiedState × ℕ → Guard
offer guard (verified, now) = elim (accept guard verified now) [ ok g ↦ g | err e ↦ guard ]

unfoldable pub offer_all : Guard → List (VerifiedState × ℕ) → Guard
unfolding offer
offer_all guard [] = guard
offer_all guard (s ∷ states) = offer_all (offer guard s) states
