-- ===== src/Server/Connections/Shrunk.antt =====
-- The class `SessionConnections` of services/api/src/session-connections.ts: what a revocation takes out of
-- its map, and what it closes.
use call_sign.Prelude.{
  ℕ, ◌≡◌, refl, String, Option, none, some, true, ◌||◌, List, [], ◌∷◌, arith, ◌==◌, nat_eq, any,
  select, string_eq, eq_iff, Dict, lookup, lookup-insert, if◌then◌else◌, ◌∙◌,
}
use call_sign.Prelude.Tests.{if-cases}
use call_sign.Server.Connections.{
  Watch, Connections, has, stop, revoke, revoke_all, delete, keep_entries, without, entries_of,
}
use call_sign.Server.Connections.Once.{opened-closed}
use call_sign.Server.Connections.Kept.{entries, lookup-delete_session}

delete-has : (ids : List ℕ) (x y : ℕ) → has (delete ids y) x ≡ true → has ids x ≡ true
unfolding any select
delete-has [] x y h = h
delete-has (i ∷ ids) x y h = ground (arith, delete-has ids x y)

module _ (d : Dict (List ℕ)) (j : String) (x : ℕ) where
  keep_entries-back :
      (k : String) (left : List ℕ)
      → has (entries_of (lookup (keep_entries d k left) j)) x ≡ true
      → has (if k == j then left else entries_of (lookup d j)) x ≡ true
  unfolding any
  keep_entries-back k [] h = ground (arith, lookup-delete_session d k j)
  keep_entries-back k (id ∷ left) h = ground (arith, lookup-insert d k j (id ∷ left))

  without-back :
      (w : Watch) (o : Option (List ℕ))
      → lookup d w.session_id ≡ o
      → has (entries_of (lookup (without d w o) j)) x ≡ true
      → has (entries_of (lookup d j)) x ≡ true
  unfolding any
  without-back w none e h = ground (arith, lookup-delete_session d w.session_id j)
  without-back w (some ids) e h = ground (
    arith,
    keep_entries-back w.session_id (delete ids w.id) h,
    delete-has ids x w.id,
    eq_iff w.session_id j,
  )

-- The map has lost entries at most, and no number has been given away.
pub record IsShrunk (c after : Connections) : Type 0 where
  pub next : after.next ≡ c.next
  pub entries :
      (session_id : String) (id : ℕ)
      → has (entries after session_id) id ≡ true
      → has (entries c session_id) id ≡ true

pub stop-IsShrunk : (c : Connections) (w : Watch) → IsShrunk c (stop c w)
unfolding stop
stop-IsShrunk c w =
    if-cases (IsShrunk c) (has c.closed w.id)
      (λ before. record { next = refl; entries = λ session_id id h. h })
      (λ now. record {
        next = refl;
        entries = λ session_id id h.
            without-back c.sessions session_id id w (lookup c.sessions w.session_id) refl h;
      })

pub revoke-IsShrunk : (c : Connections) (w : Watch) → IsShrunk c (revoke c w)
unfolding revoke
revoke-IsShrunk c w =
    if-cases (IsShrunk c) (has c.closed w.id)
      (λ before. record { next = refl; entries = λ session_id id h. h })
      (λ now. let s = stop-IsShrunk c w in record { next = s.next; entries = s.entries })

pub revoke_all-IsShrunk :
    (ids : List ℕ) (session_id : String) (c : Connections)
    → IsShrunk c (revoke_all c session_id ids)
unfolding revoke_all
revoke_all-IsShrunk [] session_id c = record { next = refl; entries = λ session_id id h. h }
revoke_all-IsShrunk (i ∷ ids) session_id c =
    let w : Watch = record { id = i; session_id = session_id } in
    let one = revoke-IsShrunk c w in
    let rest = revoke_all-IsShrunk ids session_id (revoke c w) in
    record {
      next = rest.next ∙ one.next;
      entries = λ session_id id h. one.entries session_id id (rest.entries session_id id h);
    }

pub stop-closed :
    (c : Connections) (w : Watch) (id : ℕ)
    → has (stop c w).closed id ≡ (has c.closed id || w.id == id)
unfolding stop any
stop-closed c w id =
    if-cases (λ (d : Connections). has d.closed id ≡ (has c.closed id || w.id == id))
      (has c.closed w.id) (λ before. ground arith) (λ now. ground arith)

module _ (c : Connections) (w : Watch) where
  pub revoke-closed : (id : ℕ) → has (revoke c w).closed id ≡ (has c.closed id || w.id == id)
  unfolding revoke any
  revoke-closed id =
      if-cases (λ (d : Connections). has d.closed id ≡ (has c.closed id || w.id == id))
        (has c.closed w.id) (λ before. ground arith) (λ now. ground (arith, opened-closed c w now))

pub revoke_all-closed :
    (ids : List ℕ) (session_id : String) (c : Connections) (id : ℕ)
    → has (revoke_all c session_id ids).closed id ≡ (has c.closed id || has ids id)
unfolding revoke_all any
revoke_all-closed [] session_id c id = ground arith
revoke_all-closed (i ∷ ids) session_id c id = ground (
  arith,
  revoke_all-closed ids session_id (revoke c (record { id = i; session_id = session_id })) id,
  revoke-closed c (record { id = i; session_id = session_id }) id,
)
