-- ===== src/Server/Connections/Below.antt =====
-- The class `SessionConnections` of services/api/src/session-connections.ts: the numbers that are in use.
use call_sign.Prelude.{
  ltb, ℕ, ◌≡◌, ap, ◌∙◌, String, Bool, true, false, ◌||◌, List, [], ◌∷◌, map, arith, nat_eq, any,
  string_eq, lookup,
}
use call_sign.Prelude.Tests.{if-cases}
use call_sign.Server.Connections.{
  Watch, Connections, new_connections, has, stop, revoke, poll, polled, watch, revoke_all,
  revoke_session, close_sessions, close,
}
use call_sign.Server.Connections.Once.{
  Operation, watches, stops, polls, check_ends, revokes, closes, perform, run,
}
use call_sign.Server.Connections.Kept.{entries, added-has}
use call_sign.Server.Connections.Shrunk.{
  IsShrunk, stop-IsShrunk, revoke-IsShrunk, revoke_all-IsShrunk, stop-closed, revoke-closed,
  revoke_all-closed,
}

-- Only numbers that `watch` has given away are in use.
pub record IsBelow (c : Connections) : Type 0 where
  pub entries :
      (session_id : String) (id : ℕ) → has (entries c session_id) id ≡ true → ltb id c.next ≡ true
  pub closed : (id : ℕ) → has c.closed id ≡ true → ltb id c.next ≡ true

module _ (c : Connections) (b : IsBelow c) where
  shrunk-IsBelow :
      (after : Connections)
      → IsShrunk c after
      → ((id : ℕ) → has after.closed id ≡ true → ltb id c.next ≡ true)
      → IsBelow after
  shrunk-IsBelow after s f = record {
    entries =
        λ session_id id h. ap (ltb id) s.next ∙ b.entries session_id id (s.entries session_id id h);
    closed = λ id h. ap (ltb id) s.next ∙ f id h;
  }

  stop-IsBelow : (w : Watch) → ltb w.id c.next ≡ true → IsBelow (stop c w)
  stop-IsBelow w made =
      shrunk-IsBelow (stop c w) (stop-IsShrunk c w)
        (λ id h. ground (arith, stop-closed c w id, b.closed id))

  revoke-IsBelow : (w : Watch) → ltb w.id c.next ≡ true → IsBelow (revoke c w)
  revoke-IsBelow w made =
      shrunk-IsBelow (revoke c w) (revoke-IsShrunk c w)
        (λ id h. ground (arith, revoke-closed c w id, b.closed id))

  poll-IsBelow : (w : Watch) → IsBelow (poll c w)
  unfolding poll
  poll-IsBelow w =
      if-cases IsBelow (has c.closed w.id || has c.checking w.id) (λ e. b)
        (λ e. record { entries = b.entries; closed = b.closed })

  polled-IsBelow :
      (w : Watch) (failed : Bool) → ltb w.id c.next ≡ true → IsBelow (polled c w failed)
  unfolding polled
  polled-IsBelow w true made =
      let r = revoke-IsBelow w made in record { entries = r.entries; closed = r.closed }
  polled-IsBelow w false made = record { entries = b.entries; closed = b.closed }

  revoke_session-IsBelow : (session_id : String) → IsBelow (revoke_session c session_id)
  unfolding revoke_session
  revoke_session-IsBelow session_id =
      shrunk-IsBelow (revoke_all c session_id (entries c session_id))
        (revoke_all-IsShrunk (entries c session_id) session_id c)
        (λ id h. ground (
          arith,
          revoke_all-closed (entries c session_id) session_id c id,
          b.closed id,
          b.entries session_id id,
        ))

  watch-IsBelow : (session_id : String) → IsBelow (watch c session_id).1
  unfolding watch poll
  watch-IsBelow session_id =
      if-cases IsBelow (has c.closed c.next || has c.checking c.next)
        (λ e. record {
          entries = λ j id h. ground (arith, added-has c session_id j c.next id, b.entries j id);
          closed = λ id h. ground (arith, b.closed id);
        })
        (λ e. record {
          entries = λ j id h. ground (arith, added-has c session_id j c.next id, b.entries j id);
          closed = λ id h. ground (arith, b.closed id);
        })

close_sessions-IsBelow :
    (ids : List String) (c : Connections) → IsBelow c → IsBelow (close_sessions c ids)
unfolding close_sessions
close_sessions-IsBelow [] c b = b
close_sessions-IsBelow (id ∷ ids) c b =
    close_sessions-IsBelow ids (revoke_session c id) (revoke_session-IsBelow c b id)

perform-IsBelow : (op : Operation) (c : Connections) → IsBelow c → IsBelow (perform c op)
unfolding perform close
perform-IsBelow (watches session_id) c b = watch-IsBelow c b session_id
perform-IsBelow (stops w) c b =
    if-cases IsBelow (ltb w.id c.next) (λ e. stop-IsBelow c b w e) (λ e. b)
perform-IsBelow (polls w) c b =
    if-cases IsBelow (ltb w.id c.next) (λ e. poll-IsBelow c b w) (λ e. b)
perform-IsBelow (check_ends w failed) c b =
    if-cases IsBelow (ltb w.id c.next) (λ e. polled-IsBelow c b w failed e) (λ e. b)
perform-IsBelow (revokes session_id) c b = revoke_session-IsBelow c b session_id
perform-IsBelow closes c b = close_sessions-IsBelow (map (λ e. e.0) c.sessions) c b

pub run-IsBelow : (ops : List Operation) (c : Connections) → IsBelow c → IsBelow (run c ops)
unfolding run
run-IsBelow [] c b = b
run-IsBelow (op ∷ ops) c b = run-IsBelow ops (perform c op) (perform-IsBelow op c b)

pub new-IsBelow : IsBelow new_connections
unfolding any lookup
new-IsBelow = record { entries = λ session_id id h. cc; closed = λ id h. cc }
