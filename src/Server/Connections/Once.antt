-- ===== src/Server/Connections/Once.antt =====
-- The class `SessionConnections` of services/api/src/session-connections.ts: its operations, and the
-- connections that they invalidate.
use call_sign.Prelude.{
  ltb, if◌then◌else◌, ℕ, ◌≡◌, refl, String, Bool, true, false, ◌||◌, List, [], ◌∷◌, ◌++◌, map,
  Nodup, arith, ◌==◌, nat_eq, any, Nodup-snoc, not-mem_of_any-false, lookup,
}
use mathlib.Core.List.{Nodup-nil}
use call_sign.Prelude.Tests.{if-cases}
use call_sign.Server.Connections.{
  Watch, Connections, new_connections, has, stop, revoke, poll, polled, watch, revoke_all,
  revoke_session, close_sessions, close, entries_of,
}

pub data Operation : Type 0 where
  watches : String → Operation
  stops : Watch → Operation
  polls : Watch → Operation
  check_ends : Watch → Bool → Operation
  revokes : String → Operation
  closes : Operation

-- Only what `watch` has returned is called.
unfoldable pub perform : Connections → Operation → Connections
perform c (watches session_id) = (watch c session_id).1
perform c (stops w) = if ltb w.id c.next then stop c w else c
perform c (polls w) = if ltb w.id c.next then poll c w else c
perform c (check_ends w failed) = if ltb w.id c.next then polled c w failed else c
perform c (revokes session_id) = revoke_session c session_id
perform c closes = close c

unfoldable pub run : Connections → List Operation → Connections
unfolding perform
run c [] = c
run c (op ∷ ops) = run (perform c op) ops

-- No watch is invalidated twice, and what is invalidated is closed.
pub record IsOnce (c : Connections) : Type 0 where
  pub distinct : Nodup c.invalidated
  pub closed : (id : ℕ) → has c.invalidated id ≡ true → has c.closed id ≡ true

has-snoc :
    (ids : List ℕ) (x id : ℕ) → has (ids ++ x ∷ []) id ≡ true → (has ids id || x == id) ≡ true
unfolding any
has-snoc [] x id h = ground arith
has-snoc (i ∷ ids) x id h = ground (arith, has-snoc ids x id)

has-cons : (ids : List ℕ) (x id : ℕ) → (has ids id || x == id) ≡ true → has (x ∷ ids) id ≡ true
unfolding any
has-cons ids x id h = ground arith

has-more : (ids : List ℕ) (x id : ℕ) → has ids id ≡ true → has (x ∷ ids) id ≡ true
unfolding any
has-more ids x id h = ground arith

stop-IsOnce : (c : Connections) (w : Watch) → IsOnce c → IsOnce (stop c w)
unfolding stop
stop-IsOnce c w i =
    if-cases IsOnce (has c.closed w.id) (λ before. i)
      (λ now. record {
        distinct = i.distinct;
        closed = λ id h. has-more c.closed w.id id (i.closed id h);
      })

not_invalidated :
    (c : Connections) (id : ℕ) → IsOnce c → has c.closed id ≡ false → has c.invalidated id ≡ false
not_invalidated c id i h = ground (arith, i.closed id)

pub opened-closed :
    (c : Connections) (w : Watch) → has c.closed w.id ≡ false → (stop c w).closed ≡ w.id ∷ c.closed
unfolding stop
opened-closed c w h = rw h refl

pub stop-invalidated : (c : Connections) (w : Watch) → (stop c w).invalidated ≡ c.invalidated
unfolding stop
stop-invalidated c w =
    if-cases (λ (d : Connections). d.invalidated ≡ c.invalidated) (has c.closed w.id)
      (λ before. refl) (λ now. refl)

known :
    (c : Connections) (w : Watch) (id : ℕ)
    → IsOnce c
    → (has c.invalidated id || w.id == id) ≡ true
    → (has c.closed id || w.id == id) ≡ true
known c w id i h = ground (arith, i.closed id)

revoke-IsOnce : (c : Connections) (w : Watch) → IsOnce c → IsOnce (revoke c w)
unfolding revoke
revoke-IsOnce c w i =
    if-cases IsOnce (has c.closed w.id) (λ before. i)
      (λ now. record {
        distinct = rw (stop-invalidated c w) (
            Nodup-snoc c.invalidated w.id i.distinct
              (not-mem_of_any-false w.id c.invalidated (not_invalidated c w.id i now)));
        closed = λ id h. rw (opened-closed c w now) (
            has-cons c.closed w.id id
              (known c w id i (has-snoc c.invalidated w.id id (rw (stop-invalidated c w) at h))));
      })

poll-IsOnce : (c : Connections) (w : Watch) → IsOnce c → IsOnce (poll c w)
unfolding poll
poll-IsOnce c w i =
    if-cases IsOnce (has c.closed w.id || has c.checking w.id) (λ busy. i)
      (λ free. record { distinct = i.distinct; closed = i.closed })

polled-IsOnce :
    (c : Connections) (w : Watch) (failed : Bool) → IsOnce c → IsOnce (polled c w failed)
unfolding polled
polled-IsOnce c w true i =
    let j = revoke-IsOnce c w i in record { distinct = j.distinct; closed = j.closed }
polled-IsOnce c w false i = record { distinct = i.distinct; closed = i.closed }

pub watch-IsOnce :
    (c : Connections) (session_id : String) → IsOnce c → IsOnce (watch c session_id).1
unfolding watch
watch-IsOnce c session_id i =
    poll-IsOnce _ (record { id = c.next; session_id = session_id })
      (record { distinct = i.distinct; closed = i.closed })

revoke_all-IsOnce :
    (ids : List ℕ) (session_id : String) (c : Connections)
    → IsOnce c
    → IsOnce (revoke_all c session_id ids)
unfolding revoke_all
revoke_all-IsOnce [] session_id c i = i
revoke_all-IsOnce (id ∷ ids) session_id c i =
    revoke_all-IsOnce ids session_id _ (revoke-IsOnce c _ i)

pub revoke_session-IsOnce :
    (session_id : String) (c : Connections) → IsOnce c → IsOnce (revoke_session c session_id)
unfolding revoke_session
revoke_session-IsOnce session_id c i =
    revoke_all-IsOnce (entries_of (lookup c.sessions session_id)) session_id c i

close_sessions-IsOnce :
    (ids : List String) (c : Connections) → IsOnce c → IsOnce (close_sessions c ids)
unfolding close_sessions
close_sessions-IsOnce [] c i = i
close_sessions-IsOnce (id ∷ ids) c i = close_sessions-IsOnce ids _ (revoke_session-IsOnce id c i)

perform-IsOnce : (op : Operation) (c : Connections) → IsOnce c → IsOnce (perform c op)
unfolding perform close
perform-IsOnce (watches session_id) c i = watch-IsOnce c session_id i
perform-IsOnce (stops w) c i = if-cases IsOnce (ltb w.id c.next) (λ e. stop-IsOnce c w i) (λ e. i)
perform-IsOnce (polls w) c i = if-cases IsOnce (ltb w.id c.next) (λ e. poll-IsOnce c w i) (λ e. i)
perform-IsOnce (check_ends w failed) c i =
    if-cases IsOnce (ltb w.id c.next) (λ e. polled-IsOnce c w failed i) (λ e. i)
perform-IsOnce (revokes session_id) c i = revoke_session-IsOnce session_id c i
perform-IsOnce closes c i = close_sessions-IsOnce (map (λ e. e.0) c.sessions) c i

pub run-IsOnce : (ops : List Operation) (c : Connections) → IsOnce c → IsOnce (run c ops)
unfolding run
run-IsOnce [] c i = i
run-IsOnce (op ∷ ops) c i = run-IsOnce ops (perform c op) (perform-IsOnce op c i)

pub new-IsOnce : IsOnce new_connections
unfolding any
new-IsOnce = record { distinct = Nodup-nil; closed = λ id h. cc }
