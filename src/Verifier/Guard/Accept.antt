-- ===== src/Verifier/Guard/Accept.antt =====
-- `accept` of `MonotonicStateGuard` in packages/verifier/src/index.ts, one call of it.
use call_sign.Prelude.{
  ℕ, ◌≤◌, ◌<◌, ◌≡◌, refl, ◌↔◌, Option, none, some, false, arith, eq_iff, lookup, ok,
}
use call_sign.Verifier.Bundle.{VerifiedState}
use call_sign.Verifier.Guard.{Guard, block_of, record_state, accept}

-- `block` is at least the bound, if there is one.
abbrev pub AtLeast : Option ℕ → ℕ → Type 0
AtLeast none block = Unit
AtLeast (some bound) block = bound ≤ block

abbrev pub Below : Option ℕ → ℕ → Type 0
Below none block = Unit
Below (some bound) block = bound < block

pub record IsAccepted (guard : Guard) (v : VerifiedState) (now : ℕ) : Type 0 where
  pub rises : AtLeast guard.highest_block (block_of v)
  pub agrees :
      guard.highest_block ≡ some (block_of v)
      → (v.snapshot.block_hash ≡ guard.highest_hash)
        × (v.snapshot_hash ≡ guard.highest_snapshot_hash)
  pub unexpired : now ≤ v.deadline_monotonic_ms
  pub no_extension :
      (d : ℕ) → lookup guard.deadlines v.snapshot.block_hash ≡ some d → v.deadline_monotonic_ms ≤ d
  pub after_revocation :
      v.snapshot.delegation_state.revoked ≡ false → Below guard.known_revoked_at (block_of v)

module _ (g : Guard) (v : VerifiedState) (now : ℕ) where
  accepted :
      (h r : Option ℕ)
      → g.highest_block ≡ h
      → g.known_revoked_at ≡ r
      → accept g v now ≡ ok (record_state g v)
      → IsAccepted g v now
  unfolding accept
  accepted none none e e' p = ground (
    arith,
    eq_iff v.snapshot.block_hash g.highest_hash,
    eq_iff v.snapshot_hash g.highest_snapshot_hash,
  )
  accepted _ _ e e' p = ground (
    arith,
    eq_iff v.snapshot.block_hash g.highest_hash,
    eq_iff v.snapshot_hash g.highest_snapshot_hash,
  )

  accepts :
      (h r d : Option ℕ)
      → g.highest_block ≡ h
      → g.known_revoked_at ≡ r
      → lookup g.deadlines v.snapshot.block_hash ≡ d
      → IsAccepted g v now
      → accept g v now ≡ ok (record_state g v)
  unfolding accept
  accepts none none none e e' e'' p = ground (
    arith,
    eq_iff v.snapshot.block_hash g.highest_hash,
    eq_iff v.snapshot_hash g.highest_snapshot_hash,
  )
  accepts _ _ none e e' e'' p = ground (
    arith,
    eq_iff v.snapshot.block_hash g.highest_hash,
    eq_iff v.snapshot_hash g.highest_snapshot_hash,
  )
  accepts _ _ (some d) e e' e'' p = ground (
    arith,
    p.no_extension d,
    eq_iff v.snapshot.block_hash g.highest_hash,
    eq_iff v.snapshot_hash g.highest_snapshot_hash,
  )

  pub accept-result : (g' : Guard) → accept g v now ≡ ok g' → g' ≡ record_state g v
  unfolding accept
  accept-result g' h = ground arith

  -- A guard accepts a state exactly if its block is not below the highest one, agrees with that one's
  -- hashes at equal height, is not past its deadline, does not extend a deadline that is on record
  -- for its block, and lies above the last known revocation unless it is itself revoked.
  pub accept-IsAccepted : (accept g v now ≡ ok (record_state g v)) ↔ IsAccepted g v now
  accept-IsAccepted = (
    accepted g.highest_block g.known_revoked_at refl refl,
    accepts g.highest_block g.known_revoked_at (lookup g.deadlines v.snapshot.block_hash) refl refl
        refl,
  )
