-- ===== src/Server/Connections/Open.antt =====
-- The class `SessionConnections` of services/api/src/session-connections.ts: the connections that are open.
use call_sign.Prelude.{
  ltb, not, ◌&&◌, ◌≡◌, ap, ◌∙◌, String, Bool, true, false, ◌||◌, List, [], ◌∷◌, arith, ◌==◌, nat_eq,
  any, string_eq, eq_iff, Bool-cases, inl, inr,
}
use call_sign.Prelude.Tests.{if-cases}
use call_sign.Server.Connections.{
  Watch, Connections, has, stop, revoke, poll, polled, watch, revoke_all, revoke_session,
}
use call_sign.Server.Connections.Once.{
  Operation, watches, stops, polls, check_ends, revokes, closes, perform, run,
}
use call_sign.Server.Connections.Kept.{entries, added-has}
use call_sign.Server.Connections.Below.{IsBelow}
use call_sign.Server.Connections.Shrunk.{
  IsShrunk, stop-IsShrunk, revoke-IsShrunk, revoke_all-IsShrunk, stop-closed, revoke-closed,
  revoke_all-closed,
}

-- The connection is not closed, and an entry of its own session at most.
pub record IsOpen (v : Watch) (c : Connections) : Type 0 where
  pub below : ltb v.id c.next ≡ true
  pub only :
      (session_id : String)
      → has (entries c session_id) v.id ≡ true
      → (session_id == v.session_id) ≡ true
  pub not_closed : has c.closed v.id ≡ false

-- The operation may end the connection: it is stopped, its check fails, its session is revoked, or all
-- sessions are.
abbrev pub ends : Watch → Operation → Bool
ends v (watches session_id) = false
ends v (stops w) = w.id == v.id
ends v (polls w) = false
ends v (check_ends w failed) = failed && w.id == v.id
ends v (revokes session_id) = session_id == v.session_id
ends v closes = true

-- A connection is open when it has just been watched.
pub watch-IsOpen :
    (c : Connections) (session_id : String)
    → IsBelow c
    → IsOpen (watch c session_id).0 (watch c session_id).1
unfolding watch poll
watch-IsOpen c session_id b =
    if-cases (IsOpen (record { id = c.next; session_id = session_id }))
      (has c.closed c.next || has c.checking c.next)
      (λ e. record {
        below = ground arith;
        only = λ j h. ground (
          arith,
          added-has c session_id j c.next c.next,
          b.entries j c.next,
          eq_iff session_id j,
          eq_iff j session_id,
        );
        not_closed = ground (arith, b.closed c.next);
      })
      (λ e. record {
        below = ground arith;
        only = λ j h. ground (
          arith,
          added-has c session_id j c.next c.next,
          b.entries j c.next,
          eq_iff session_id j,
          eq_iff j session_id,
        );
        not_closed = ground (arith, b.closed c.next);
      })

module _ (v : Watch) (c : Connections) (o : IsOpen v c) where
  shrunk-IsOpen :
      (after : Connections) → IsShrunk c after → has after.closed v.id ≡ false → IsOpen v after
  shrunk-IsOpen after s e = record {
    below = ap (ltb v.id) s.next ∙ o.below;
    only = λ session_id h. o.only session_id (s.entries session_id v.id h);
    not_closed = e;
  }

  stop-IsOpen : (w : Watch) → (w.id == v.id) ≡ false → IsOpen v (stop c w)
  stop-IsOpen w other =
      shrunk-IsOpen (stop c w) (stop-IsShrunk c w)
        (ground (arith, stop-closed c w v.id, o.not_closed))

  revoke-IsOpen : (w : Watch) → (w.id == v.id) ≡ false → IsOpen v (revoke c w)
  revoke-IsOpen w other =
      shrunk-IsOpen (revoke c w) (revoke-IsShrunk c w)
        (ground (arith, revoke-closed c w v.id, o.not_closed))

  poll-IsOpen : (w : Watch) → IsOpen v (poll c w)
  unfolding poll
  poll-IsOpen w =
      if-cases (IsOpen v) (has c.closed w.id || has c.checking w.id) (λ e. o)
        (λ e. record { below = o.below; only = o.only; not_closed = o.not_closed })

  polled-IsOpen :
      (w : Watch) (failed : Bool) → (failed && w.id == v.id) ≡ false → IsOpen v (polled c w failed)
  unfolding polled
  polled-IsOpen w true other =
      let r = revoke-IsOpen w other in
      record { below = r.below; only = r.only; not_closed = r.not_closed }
  polled-IsOpen w false other = record { below = o.below; only = o.only; not_closed = o.not_closed }

  revoke_session-IsOpen :
      (session_id : String)
      → (session_id == v.session_id) ≡ false
      → IsOpen v (revoke_session c session_id)
  unfolding revoke_session
  revoke_session-IsOpen session_id other =
      shrunk-IsOpen (revoke_all c session_id (entries c session_id))
        (revoke_all-IsShrunk (entries c session_id) session_id c)
        (ground (
          arith,
          revoke_all-closed (entries c session_id) session_id c v.id,
          o.not_closed,
          o.only session_id,
        ))

  watched-IsOpen : (session_id : String) → IsOpen v (watch c session_id).1
  unfolding watch poll
  watched-IsOpen session_id =
      if-cases (IsOpen v) (has c.closed c.next || has c.checking c.next)
        (λ e. record {
          below = ground (arith, o.below);
          only = λ j h. ground (arith, added-has c session_id j c.next v.id, o.only j, o.below);
          not_closed = o.not_closed;
        })
        (λ e. record {
          below = ground (arith, o.below);
          only = λ j h. ground (arith, added-has c session_id j c.next v.id, o.only j, o.below);
          not_closed = o.not_closed;
        })

  perform-IsOpen : (op : Operation) → ends v op ≡ false → IsOpen v (perform c op)
  unfolding perform
  perform-IsOpen (watches session_id) e = watched-IsOpen session_id
  perform-IsOpen (stops w) e = if-cases (IsOpen v) (ltb w.id c.next) (λ f. stop-IsOpen w e) (λ f. o)
  perform-IsOpen (polls w) e = if-cases (IsOpen v) (ltb w.id c.next) (λ f. poll-IsOpen w) (λ f. o)
  perform-IsOpen (check_ends w failed) e =
      if-cases (IsOpen v) (ltb w.id c.next) (λ f. polled-IsOpen w failed e) (λ f. o)
  perform-IsOpen (revokes session_id) e = revoke_session-IsOpen session_id e
  perform-IsOpen closes e = cc

-- An open connection stays open until an operation ends it.
pub run-IsOpen :
    (ops : List Operation) (v : Watch) (c : Connections)
    → IsOpen v c
    → (any (ends v) ops || not (has (run c ops).closed v.id)) ≡ true
unfolding run any
run-IsOpen [] v c o = ground (arith, o.not_closed)
run-IsOpen (op ∷ ops) v c o = elim (Bool-cases (ends v op)) [
  | inl ended ↦ ground arith
  | inr spared ↦ ground (arith, run-IsOpen ops v (perform c op) (perform-IsOpen v c o op spared))
]
