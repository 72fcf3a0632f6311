-- ===== src/Server/Connections/Revoked.antt =====
-- The method `revoke` of services/api/src/session-connections.ts, on the connections that `watch` has put
-- on record.
use call_sign.Prelude.{
  not, ◌&&◌, ℕ, ◌≡◌, String, true, ◌||◌, List, [], ◌∷◌, arith, ◌==◌, nat_eq, any,
}
use call_sign.Prelude.Tests.{if-cases}
use call_sign.Server.Connections.{
  Watch, Connections, new_connections, has, stop, revoke, watch, revoke_all, revoke_session,
}
use call_sign.Server.Connections.Once.{
  Operation, run, IsOnce, run-IsOnce, new-IsOnce, watch-IsOnce, revoke_session-IsOnce,
  stop-invalidated,
}
use call_sign.Server.Connections.Below.{run-IsBelow, new-IsBelow}
use call_sign.Server.Connections.Open.{ends, run-IsOpen, watch-IsOpen}
use call_sign.Server.Connections.Shrunk.{revoke-closed, revoke_all-closed}
use call_sign.Server.Connections.Kept.{entries, watch-IsOn, run-IsOn, has-append}

-- What the revocation of its session makes of a connection, after some operations on it: it is closed, and
-- invalidated unless it was closed before, which takes an operation that ends it; and no connection is
-- invalidated twice or without being closed.
pub record IsRevoked (w : Watch) (ops : List Operation) (before after : Connections) : Type 0 where
  pub still_open : (any (ends w) ops || not (has before.closed w.id)) ≡ true
  pub closed : has after.closed w.id ≡ true
  pub invalidated : (has before.closed w.id || has after.invalidated w.id) ≡ true
  pub once : IsOnce after

module _ (c : Connections) (w : Watch) where
  revoke-invalidated :
      (id : ℕ)
      → has (revoke c w).invalidated id
        ≡ (has c.invalidated id || (w.id == id && not (has c.closed id)))
  unfolding revoke any
  revoke-invalidated id =
      if-cases
        (λ (d : Connections).
          has d.invalidated id ≡ (has c.invalidated id || (w.id == id && not (has c.closed id))))
        (has c.closed w.id) (λ before. ground arith)
        (λ now.
          ground (arith, stop-invalidated c w, has-append (stop c w).invalidated (w.id ∷ []) id))

revoke_all-invalidated :
    (ids : List ℕ) (session_id : String) (c : Connections) (id : ℕ)
    → has (revoke_all c session_id ids).invalidated id
      ≡ (has c.invalidated id || (has ids id && not (has c.closed id)))
unfolding revoke_all any
revoke_all-invalidated [] session_id c id = ground arith
revoke_all-invalidated (i ∷ ids) session_id c id = ground (
  arith,
  revoke_all-invalidated ids session_id (revoke c (record { id = i; session_id = session_id })) id,
  revoke-invalidated c (record { id = i; session_id = session_id }) id,
  revoke-closed c (record { id = i; session_id = session_id }) id,
)

-- A connection that is watched after any operations stays open until it is stopped, its check fails, its
-- session is revoked or all sessions are closed. A later revocation of its session, whatever operations
-- come in between, closes it, and invalidates it unless it was closed before. No connection is invalidated
-- twice or without being closed.
pub watch-revoke_session :
    (ops more : List Operation) (session_id : String)
    → IsRevoked
        (watch (run new_connections ops) session_id).0
        more
        (run (watch (run new_connections ops) session_id).1 more)
        (revoke_session (run (watch (run new_connections ops) session_id).1 more) session_id)
unfolding watch revoke_session
watch-revoke_session ops more session_id =
    let start = run new_connections ops in
    let w = (watch start session_id).0 in
    let c = run (watch start session_id).1 more in
    let on = run-IsOn more w (watch start session_id).1 (watch-IsOn start session_id) in
    record {
      still_open =
          run-IsOpen more w (watch start session_id).1
            (watch-IsOpen start session_id (run-IsBelow ops new_connections new-IsBelow));
      closed = ground (arith, on, revoke_all-closed (entries c session_id) session_id c w.id);
      invalidated =
          ground (arith, on, revoke_all-invalidated (entries c session_id) session_id c w.id);
      once = revoke_session-IsOnce session_id c (
          run-IsOnce more (watch start session_id).1
            (watch-IsOnce start session_id (run-IsOnce ops new_connections new-IsOnce)));
    }
