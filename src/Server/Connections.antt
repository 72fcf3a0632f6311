-- ===== src/Server/Connections.antt =====
-- services/api/src/session-connections.ts: the connections of a session, which are closed when it is revoked
-- or when its check fails. A call of `watch` goes by a number. The variables `closed` and `checking` of
-- all calls are the lists of the numbers for which they are set, and a call of `invalidate` is noted.
pub mod Once
pub mod Kept
pub mod Revoked
pub mod Shrunk
pub mod Below
pub mod Open
use call_sign.Prelude.{
  ℕ, ◌+◌, String, Option, none, some, Bool, true, false, not, ◌||◌, List, [], ◌∷◌, ◌++◌, map, ◌==◌,
  ◌!=◌, string_eq, nat_eq, if◌then◌else◌, any, select, Dict, lookup, insert,
}

pub record Watch : Type 0 where
  pub id : ℕ
  pub session_id : String

pub record Connections : Type 0 where
  pub sessions : Dict (List ℕ)
  pub closed : List ℕ
  pub checking : List ℕ
  pub invalidated : List ℕ
  pub next : ℕ

abbrev pub new_connections : Connections
new_connections = record { sessions = []; closed = []; checking = []; invalidated = []; next = 0 }

abbrev pub has : List ℕ → ℕ → Bool
has set id = any (λ x. x == id) set

-- `set.delete(id)`
abbrev pub delete : List ℕ → ℕ → List ℕ
delete set id = select (λ x. x != id) set

-- `this.sessions.delete(sessionId)`
abbrev pub delete_session : Dict (List ℕ) → String → Dict (List ℕ)
delete_session sessions session_id = select (λ e. e.0 != session_id) sessions

-- What is left of the entries of a session.
abbrev pub keep_entries : Dict (List ℕ) → String → List ℕ → Dict (List ℕ)
keep_entries sessions session_id [] = delete_session sessions session_id
keep_entries sessions session_id (id ∷ left) = insert sessions session_id (id ∷ left)

abbrev pub without : Dict (List ℕ) → Watch → Option (List ℕ) → Dict (List ℕ)
without sessions w none = delete_session sessions w.session_id
without sessions w (some entries) = keep_entries sessions w.session_id (delete entries w.id)

unfoldable pub stop : Connections → Watch → Connections
stop c w = if has c.closed w.id then c else record c {
  closed = w.id ∷ c.closed;
  sessions = without c.sessions w (lookup c.sessions w.session_id);
}

unfoldable pub revoke : Connections → Watch → Connections
unfolding stop
revoke c w =
    if has c.closed w.id
    then c
    else record (stop c w) { invalidated = (stop c w).invalidated ++ w.id ∷ [] }

-- `poll`, up to its `await`
unfoldable pub poll : Connections → Watch → Connections
poll c w =
    if has c.closed w.id || has c.checking w.id
    then c
    else record c { checking = w.id ∷ c.checking }

-- `poll`, from the end of the check on, which has failed or run out of time, or not
unfoldable pub polled : Connections → Watch → Bool → Connections
unfolding revoke
polled c w failed =
    let after = if failed then revoke c w else c in
    record after { checking = delete after.checking w.id }

abbrev pub entries_of : Option (List ℕ) → List ℕ
entries_of none = []
entries_of (some entries) = entries

unfoldable pub watch : Connections → String → Watch × Connections
unfolding poll
watch c session_id =
    let w : Watch = record { id = c.next; session_id = session_id } in
    (
      w,
      poll
          (record c {
            sessions =
                insert c.sessions session_id
                  (entries_of (lookup c.sessions session_id) ++ c.next ∷ []);
            next = c.next + 1;
          })
          w,
    )

-- `for (const revoke of …) revoke();`
unfoldable pub revoke_all : Connections → String → List ℕ → Connections
unfolding revoke
revoke_all c session_id [] = c
revoke_all c session_id (id ∷ ids) =
    revoke_all (revoke c (record { id = id; session_id = session_id })) session_id ids

unfoldable pub revoke_session : Connections → String → Connections
unfolding revoke_all
revoke_session c session_id = revoke_all c session_id (entries_of (lookup c.sessions session_id))

unfoldable pub close_sessions : Connections → List String → Connections
unfolding revoke_session
close_sessions c [] = c
close_sessions c (id ∷ ids) = close_sessions (revoke_session c id) ids

-- `close`
unfoldable pub close : Connections → Connections
unfolding close_sessions
close c = close_sessions c (map (λ e. e.0) c.sessions)
