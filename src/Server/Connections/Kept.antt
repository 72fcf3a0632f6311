-- ===== src/Server/Connections/Kept.antt =====
-- The class `SessionConnections` of services/api/src/session-connections.ts: the entries of its map.
use call_sign.Prelude.{
  ltb, ◌&&◌, ℕ, ◌≡◌, refl, String, Option, none, some, Bool, true, false, ◌||◌, List, [], ◌∷◌, ◌++◌,
  map, arith, ◌==◌, nat_eq, string_eq, eq_iff, eq_refl, any, select, Dict, lookup, insert,
  lookup-insert, if◌then◌else◌,
}
use call_sign.Prelude.Tests.{if-cases}
use call_sign.Server.Connections.{
  Watch, Connections, has, stop, revoke, poll, polled, watch, revoke_all, delete, delete_session,
  keep_entries, without, revoke_session, close_sessions, close, entries_of,
}
use call_sign.Server.Connections.Once.{
  Operation, watches, stops, polls, check_ends, revokes, closes, perform, run,
}

abbrev pub entries : Connections → String → List ℕ
entries c session_id = entries_of (lookup c.sessions session_id)

-- The watch is closed, or an entry of its session.
abbrev pub IsOn : Watch → Connections → Type 0
IsOn v c = (has c.closed v.id || has (entries c v.session_id) v.id) ≡ true

has-delete :
    (ids : List ℕ) (x y : ℕ) → has ids x ≡ true → (y == x) ≡ false → has (delete ids y) x ≡ true
unfolding any select
has-delete [] x y h e = h
has-delete (i ∷ ids) x y h e = ground (arith, has-delete ids x y)

pub lookup-delete_session :
    (d : Dict (List ℕ)) (k j : String)
    → lookup (delete_session d k) j ≡ (if k == j then none else lookup d j)
unfolding lookup select
lookup-delete_session [] k j = ground arith
lookup-delete_session ((i, ids) ∷ d) k j =
    ground (arith, eq_iff k j, eq_iff i k, eq_iff i j, lookup-delete_session d k j)

module _ (d : Dict (List ℕ)) (v : Watch) where
  keep_entries-has :
      (k : String) (left : List ℕ)
      → has (if k == v.session_id then left else entries_of (lookup d v.session_id)) v.id ≡ true
      → has (entries_of (lookup (keep_entries d k left) v.session_id)) v.id ≡ true
  unfolding any
  keep_entries-has k [] h = ground (arith, lookup-delete_session d k v.session_id)
  keep_entries-has k (id ∷ left) h = ground (arith, lookup-insert d k v.session_id (id ∷ left))

  without-has :
      (w : Watch) (o : Option (List ℕ))
      → lookup d w.session_id ≡ o
      → has (entries_of (lookup d v.session_id)) v.id ≡ true
      → (w.id == v.id) ≡ false
      → has (entries_of (lookup (without d w o) v.session_id)) v.id ≡ true
  unfolding any
  without-has w none e h other =
      ground
        (arith, lookup-delete_session d w.session_id v.session_id, eq_iff w.session_id v.session_id)
  without-has w (some ids) e h other =
      keep_entries-has w.session_id (delete ids w.id)
        (ground (arith, eq_iff w.session_id v.session_id, has-delete ids v.id w.id))

module _ (v : Watch) (c : Connections) (on : IsOn v c) where
  stop-IsOn : (w : Watch) → IsOn v (stop c w)
  unfolding stop any
  stop-IsOn w =
      if-cases (IsOn v) (has c.closed w.id) (λ before. on)
        (λ now. ground (arith, without-has c.sessions v w (lookup c.sessions w.session_id) refl))

  revoke-IsOn : (w : Watch) → IsOn v (revoke c w)
  unfolding revoke
  revoke-IsOn w = if-cases (IsOn v) (has c.closed w.id) (λ before. on) (λ now. stop-IsOn w)

  poll-IsOn : (w : Watch) → IsOn v (poll c w)
  unfolding poll
  poll-IsOn w = if-cases (IsOn v) (has c.closed w.id || has c.checking w.id) (λ e. on) (λ e. on)

  polled-IsOn : (w : Watch) (failed : Bool) → IsOn v (polled c w failed)
  unfolding polled
  polled-IsOn w true = revoke-IsOn w
  polled-IsOn w false = on

pub has-append : (ids more : List ℕ) (x : ℕ) → has (ids ++ more) x ≡ (has ids x || has more x)
unfolding any
has-append [] more x = refl
has-append (i ∷ ids) more x = ground (arith, has-append ids more x)

pub added-has :
    (c : Connections) (k j : String) (id x : ℕ)
    → has (entries_of (lookup (insert c.sessions k (entries c k ++ id ∷ [])) j)) x
      ≡ (has (entries c j) x || (k == j && id == x))
unfolding any
added-has c k j id x = ground (
  arith,
  lookup-insert c.sessions k j (entries c k ++ id ∷ []),
  has-append (entries c k) (id ∷ []) x,
  eq_iff k j,
)

-- A connection that is watched is put on record.
pub watch-IsOn :
    (c : Connections) (session_id : String) → IsOn (watch c session_id).0 (watch c session_id).1
unfolding watch any
watch-IsOn c session_id =
    poll-IsOn (record { id = c.next; session_id = session_id }) _
      (ground (arith, added-has c session_id session_id c.next c.next, eq_refl session_id))
      (record { id = c.next; session_id = session_id })

watched-IsOn :
    (v : Watch) (c : Connections) (session_id : String) → IsOn v c → IsOn v (watch c session_id).1
unfolding watch
watched-IsOn v c session_id on =
    poll-IsOn v _ (ground (arith, added-has c session_id v.session_id c.next v.id))
      (record { id = c.next; session_id = session_id })

revoke_all-IsOn :
    (ids : List ℕ) (session_id : String) (v : Watch) (c : Connections)
    → IsOn v c
    → IsOn v (revoke_all c session_id ids)
unfolding revoke_all
revoke_all-IsOn [] session_id v c on = on
revoke_all-IsOn (id ∷ ids) session_id v c on =
    revoke_all-IsOn ids session_id v (revoke c (record { id = id; session_id = session_id }))
      (revoke-IsOn v c on (record { id = id; session_id = session_id }))

close_sessions-IsOn :
    (ids : List String) (v : Watch) (c : Connections) → IsOn v c → IsOn v (close_sessions c ids)
unfolding close_sessions revoke_session
close_sessions-IsOn [] v c on = on
close_sessions-IsOn (id ∷ ids) v c on =
    close_sessions-IsOn ids v (revoke_session c id) (revoke_all-IsOn (entries c id) id v c on)

perform-IsOn : (op : Operation) (v : Watch) (c : Connections) → IsOn v c → IsOn v (perform c op)
unfolding perform close revoke_session
perform-IsOn (watches session_id) v c on = watched-IsOn v c session_id on
perform-IsOn (stops w) v c on =
    if-cases (IsOn v) (ltb w.id c.next) (λ e. stop-IsOn v c on w) (λ e. on)
perform-IsOn (polls w) v c on =
    if-cases (IsOn v) (ltb w.id c.next) (λ e. poll-IsOn v c on w) (λ e. on)
perform-IsOn (check_ends w failed) v c on =
    if-cases (IsOn v) (ltb w.id c.next) (λ e. polled-IsOn v c on w failed) (λ e. on)
perform-IsOn (revokes session_id) v c on = revoke_all-IsOn (entries c session_id) session_id v c on
perform-IsOn closes v c on = close_sessions-IsOn (map (λ e. e.0) c.sessions) v c on

pub run-IsOn : (ops : List Operation) (v : Watch) (c : Connections) → IsOn v c → IsOn v (run c ops)
unfolding run
run-IsOn [] v c on = on
run-IsOn (op ∷ ops) v c on = run-IsOn ops v (perform c op) (perform-IsOn op v c on)
