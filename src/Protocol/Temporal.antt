-- ===== src/Protocol/Temporal.antt =====
-- `assertTemporalValidity` of packages/protocol/src/index.ts. Times are whole seconds from the epoch.
use call_sign.Prelude.{
  ℕ, ◌≤◌, ◌<◌, ◌≡◌, refl, ◌↔◌, Option, none, some, Bool, false, arith, ltb, leb, not, Checked, ok,
  error, throw_if, ◌>>◌,
}

pub record Clock : Type 0 where
  pub issued_at : ℕ
  pub expires_at : ℕ
  pub not_before : Option ℕ

-- `Number.MAX_SAFE_INTEGER`
abbrev pub max_safe_integer : ℕ
max_safe_integer = 9007199254740991

-- The two tests on `notBefore`, where it is given.
abbrev before_issue : Option ℕ → ℕ → Bool
before_issue none issued = false
before_issue (some at) issued = ltb at issued

abbrev not_yet : Option ℕ → ℕ → Bool
not_yet none now = false
not_yet (some at) now = ltb now at

unfoldable pub assert_temporal_validity : Clock → ℕ → Checked
assert_temporal_validity value now = do
  throw_if (not (leb now max_safe_integer)) (error "INVALID_CLOCK")
  throw_if (ltb now value.issued_at) (error "FUTURE_ISSUED_AT")
  throw_if (leb value.expires_at value.issued_at) (error "INVALID_TIME_ORDER")
  throw_if (before_issue value.not_before value.issued_at) (error "INVALID_TIME_ORDER")
  throw_if (not_yet value.not_before now) (error "NOT_YET_VALID")
  throw_if (leb value.expires_at now) (error "EXPIRED")

abbrev StartsWithin : Option ℕ → ℕ → ℕ → Type 0
StartsWithin none issued now = Unit
StartsWithin (some at) issued now = (issued ≤ at) × (at ≤ now)

-- The window in which a message may be used.
pub record IsCurrent (value : Clock) (now : ℕ) : Type 0 where
  pub safe : now ≤ max_safe_integer
  pub issued : value.issued_at ≤ now
  pub started : StartsWithin value.not_before value.issued_at now
  pub unexpired : now < value.expires_at

window :
    (value : Clock) (now : ℕ) (start : Option ℕ)
    → value.not_before ≡ start
    → (assert_temporal_validity value now ≡ ok tt) ↔ IsCurrent value now
unfolding assert_temporal_validity
window value now none e = ground arith
window value now (some at) e = ground arith

-- `assertTemporalValidity` returns exactly inside the window of the message: at a safe integer `now`
-- that is not before `issuedAt`, not before `notBefore` where that is given, which is itself not
-- before `issuedAt`, and before `expiresAt`. Everywhere else it throws.
pub assert_temporal_validity-IsCurrent :
    (value : Clock) (now : ℕ) → (assert_temporal_validity value now ≡ ok tt) ↔ IsCurrent value now
assert_temporal_validity-IsCurrent value now = window value now value.not_before refl
