-- ===== src/Verifier/Guard/Runs.antt =====
-- `accept` of `MonotonicStateGuard` in packages/verifier/src/index.ts, one call after another.
use call_sign.Prelude.{
  ℕ, ◌≤◌, ◌<◌, ◌≡◌, refl, ap, ◌∙◌, inl, inr, String, Option, none, some, Bool, true, false, List,
  [], ◌∷◌, arith, eq_iff, lookup, lookup-insert, ok, Result-cases, if◌then◌else◌,
}
use call_sign.Verifier.Bundle.{VerifiedState}
use call_sign.Verifier.Guard.{
  Guard, block_of, revoked_in, is_below, record_state, accept, offer, offer_all,
}
use call_sign.Verifier.Guard.Accept.{IsAccepted, AtLeast, Below, accept-IsAccepted, accept-result}

-- The second number is there if the first one is, and is not smaller.
abbrev pub Rises : Option ℕ → Option ℕ → Type 0
Rises none b = Unit
Rises (some a) none = ⊥
Rises (some a) (some b) = a ≤ b

Rises-refl : (a : Option ℕ) → Rises a a
Rises-refl none = tt
Rises-refl (some a) = omega arith

Rises-trans : (a b c : Option ℕ) → Rises a b → Rises b c → Rises a c
Rises-trans none _ _ h k = tt
Rises-trans (some a) none _ h k = absurd h
Rises-trans (some a) (some b) none h k = absurd k
Rises-trans (some a) (some b) (some c) h k = omega arith

-- No revocation is known of a block above the highest one.
abbrev pub IsOrdered : Guard → Type 0
IsOrdered g = Rises g.known_revoked_at g.highest_block

-- How a guard may change: heights and revocations only rise, a deadline that is on record stays, and
-- at one height the hashes stay.
pub record Later (g g' : Guard) : Type 0 where
  pub blocks : Rises g.highest_block g'.highest_block
  pub revocations : Rises g.known_revoked_at g'.known_revoked_at
  pub deadlines :
      (k : String) (d : ℕ) → lookup g.deadlines k ≡ some d → lookup g'.deadlines k ≡ some d
  pub heads :
      (b : ℕ)
      → g.highest_block ≡ some b
      → g'.highest_block ≡ some b
      → (g'.highest_hash ≡ g.highest_hash) × (g'.highest_snapshot_hash ≡ g.highest_snapshot_hash)

Later-refl : (g : Guard) → Later g g
Later-refl g = record {
  blocks = Rises-refl g.highest_block;
  revocations = Rises-refl g.known_revoked_at;
  deadlines = λ k d h. h;
  heads = λ b h h'. (refl, refl);
}

between : (a b c : Option ℕ) (n : ℕ) → Rises a b → Rises b c → a ≡ some n → c ≡ some n → b ≡ some n
between none b c n h k p q = cc
between (some a) none c n h k p q = absurd h
between (some a) (some b) none n h k p q = cc
between (some a) (some b) (some c) n h k p q = ground arith

Later-trans : {f g h : Guard} → Later f g → Later g h → Later f h
Later-trans {f} {g} {h} p q = record {
  blocks = Rises-trans f.highest_block g.highest_block h.highest_block p.blocks q.blocks;
  revocations =
      Rises-trans f.known_revoked_at g.known_revoked_at h.known_revoked_at p.revocations
        q.revocations;
  deadlines = λ k d l. q.deadlines k d (p.deadlines k d l);
  heads = λ b l l'.
      let m = between f.highest_block g.highest_block h.highest_block b p.blocks q.blocks l l' in
      let (s, t) = p.heads b l m in let (s', t') = q.heads b m l' in (s' ∙ s, t' ∙ t);
}

not-is_below : (b : ℕ) (h : Option ℕ) → AtLeast h b → is_below b h ≡ false
not-is_below b none a = refl
not-is_below b (some h) a = ground arith

AtLeast-Rises : (h : Option ℕ) (b : ℕ) → AtLeast h b → Rises h (some b)
AtLeast-Rises none b a = tt
AtLeast-Rises (some h) b a = a

revocation-Rises :
    (w : Bool) (r h : Option ℕ) (b : ℕ)
    → Rises r h
    → AtLeast h b
    → Rises r (if w then some b else r)
revocation-Rises false r h b o a = Rises-refl r
revocation-Rises true none h b o a = tt
revocation-Rises true (some r) none b o a = absurd o
revocation-Rises true (some r) (some h) b o a = omega arith

revocation-IsOrdered :
    (w : Bool) (r h : Option ℕ) (b : ℕ)
    → Rises r h
    → AtLeast h b
    → Rises (if w then some b else r) (some b)
revocation-IsOrdered true r h b o a = omega arith
revocation-IsOrdered false none h b o a = tt
revocation-IsOrdered false (some r) none b o a = absurd o
revocation-IsOrdered false (some r) (some h) b o a = omega arith

module _ (g : Guard) (v : VerifiedState) (now : ℕ) (a : IsAccepted g v now) where
  highest-record_state : (record_state g v).highest_block ≡ some (block_of v)
  unfolding record_state
  highest-record_state = rw (not-is_below (block_of v) g.highest_block a.rises)

  deadlines-record_state :
      (k : String) (d : ℕ)
      → lookup g.deadlines k ≡ some d
      → lookup (record_state g v).deadlines k ≡ some d
  unfolding record_state
  deadlines-record_state k d l = rw lookup-insert (ground (arith, eq_iff v.snapshot.block_hash k))

  heads-record_state :
      (b : ℕ)
      → g.highest_block ≡ some b
      → (record_state g v).highest_block ≡ some b
      → ((record_state g v).highest_hash ≡ g.highest_hash)
        × ((record_state g v).highest_snapshot_hash ≡ g.highest_snapshot_hash)
  unfolding record_state
  heads-record_state b h h' =
      ground (arith, a.agrees, not-is_below (block_of v) g.highest_block a.rises)

  step-IsOrdered : IsOrdered g → IsOrdered (record_state g v)
  step-IsOrdered o = rw highest-record_state (
      unfold record_state in
      revocation-IsOrdered (revoked_in v) g.known_revoked_at g.highest_block (block_of v) o a.rises)

  step-Later : IsOrdered g → Later g (record_state g v)
  step-Later o = record {
    blocks = rw highest-record_state (AtLeast-Rises g.highest_block (block_of v) a.rises);
    revocations =
        unfold record_state in
        revocation-Rises (revoked_in v) g.known_revoked_at g.highest_block (block_of v) o a.rises;
    deadlines = deadlines-record_state;
    heads = heads-record_state;
  }

offer-Later :
    (g : Guard) (s : VerifiedState × ℕ) → IsOrdered g → Later g (offer g s) × IsOrdered (offer g s)
unfolding offer
offer-Later g (v, now) o = elim (Result-cases (accept g v now)) [
  | inl (g', e) ↦
      let same = accept-result g v now g' e in
      let a = (accept-IsAccepted g v now).0 (rw same at e) in
      rw (e, offer, same) (step-Later g v now a o, step-IsOrdered g v now a o)
  | inr (f, e) ↦ rw (e, offer) (Later-refl g, o)
]

-- From an ordered guard, whatever it is offered, the highest block and the last known revocation only
-- rise, no deadline that is on record changes, and the hashes at the highest block stay while the
-- height does.
pub offer_all-Later :
    (g : Guard) (states : List (VerifiedState × ℕ))
    → IsOrdered g
    → Later g (offer_all g states) × IsOrdered (offer_all g states)
unfolding offer_all
offer_all-Later g [] o = (Later-refl g, o)
offer_all-Later g (s ∷ states) o =
    let (first, o') = offer-Later g s o in
    let (rest, o'') = offer_all-Later (offer g s) states o' in (Later-trans first rest, o'')

-- How a state that is accepted later stands to one that was accepted before.
pub record Succeeds (v w : VerifiedState) : Type 0 where
  pub no_rollback : block_of v ≤ block_of w
  pub same_height :
      block_of v ≡ block_of w
      → (w.snapshot.block_hash ≡ v.snapshot.block_hash) × (w.snapshot_hash ≡ v.snapshot_hash)
  pub revocation : revoked_in v ≡ true → revoked_in w ≡ false → block_of v < block_of w

-- What a guard holds just after it has accepted `v`.
pub record Holds (g : Guard) (v : VerifiedState) : Type 0 where
  pub height : g.highest_block ≡ some (block_of v)
  pub hash : g.highest_hash ≡ v.snapshot.block_hash
  pub snapshot : g.highest_snapshot_hash ≡ v.snapshot_hash
  pub revoked : revoked_in v ≡ true → g.known_revoked_at ≡ some (block_of v)

record_state-Holds :
    (g : Guard) (v : VerifiedState) (now : ℕ) → IsAccepted g v now → Holds (record_state g v) v
unfolding record_state
record_state-Holds g v now a = ground (arith, not-is_below (block_of v) g.highest_block a.rises)

Rises-AtLeast : (a : ℕ) (o : Option ℕ) (b : ℕ) → Rises (some a) o → AtLeast o b → a ≤ b
Rises-AtLeast a none b r l = absurd r
Rises-AtLeast a (some c) b r l = omega arith

Rises-Below : (a : ℕ) (o : Option ℕ) (b : ℕ) → Rises (some a) o → Below o b → a < b
Rises-Below a none b r l = absurd r
Rises-Below a (some c) b r l = omega arith

level : (a : ℕ) (o : Option ℕ) → Rises (some a) o → AtLeast o a → o ≡ some a
level a none r l = absurd r
level a (some c) r l = ground arith

accepted-Succeeds :
    (g g' : Guard) (v w : VerifiedState) (now : ℕ)
    → Holds g v
    → Later g g'
    → IsAccepted g' w now
    → Succeeds v w
accepted-Succeeds g g' v w now h l a =
    let up : Rises (some (block_of v)) g'.highest_block = rw h.height at l.blocks in
    record {
      no_rollback = Rises-AtLeast (block_of v) g'.highest_block (block_of w) up a.rises;
      same_height = λ e.
          let top : g'.highest_block ≡ some (block_of v) =
            level (block_of v) g'.highest_block up (rw (← e) at a.rises) in
          let (s, t) = l.heads (block_of v) h.height top in
          let (x, y) = a.agrees (top ∙ ap some e) in (x ∙ s ∙ h.hash, y ∙ t ∙ h.snapshot);
      revocation = λ r n.
          Rises-Below (block_of v) g'.known_revoked_at (block_of w)
            (rw (h.revoked r) at l.revocations) (a.after_revocation n);
    }

-- If an ordered guard accepts `v`, is then offered any states, and accepts `w`, then `w` is not of a
-- lower block than `v`, has the block hash and the snapshot hash of `v` if it is of the same block,
-- and is of a strictly higher block if `v` is revoked and `w` is not.
pub accept-Succeeds :
    (g g₁ g₂ : Guard) (v w : VerifiedState) (states : List (VerifiedState × ℕ)) (now later : ℕ)
    → IsOrdered g
    → accept g v now ≡ ok g₁
    → accept (offer_all g₁ states) w later ≡ ok g₂
    → Succeeds v w
accept-Succeeds g g₁ g₂ v w states now later o first second =
    let same = accept-result g v now g₁ first in
    let a = (accept-IsAccepted g v now).0 (rw same at first) in
    let (run, _) = offer_all-Later g₁ states (rw same (step-IsOrdered g v now a o)) in
    let b =
      (accept-IsAccepted (offer_all g₁ states) w later).0
        (rw (accept-result (offer_all g₁ states) w later g₂ second) at second) in
    accepted-Succeeds g₁ (offer_all g₁ states) v w later (rw same (record_state-Holds g v now a))
      run b
