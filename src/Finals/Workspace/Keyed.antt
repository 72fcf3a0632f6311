-- ===== src/Finals/Workspace/Keyed.antt =====
-- `importMockFds` of services/api/src/finals-model.ts: the keys of the intents.
use call_sign.Prelude.{
  ℕ, ◌≡◌, ap, sym, ◌∙◌, String, none, some, true, [], ◌∷◌, arith, eq_iff, ◌==◌, string_eq, lookup,
  insert, values, Dict, All, All-map, lookup-insert, lookup-insert_self, ok, Bool-cases, inl, inr,
}
use call_sign.Protocol.Json.{Libraries}
use call_sign.Finals.Record.{Actor, ContactIntent, InstitutionRecord}
use call_sign.Finals.Model.{MockFds, is_assignable, import_mock_fds}
use call_sign.Finals.Workspace.Shown.{IsKeyed}

-- An intent stays under its identifier when another one is put under a free key.
lookup-kept :
    (d : Dict ContactIntent) (k : String) (v i : ContactIntent)
    → lookup d k ≡ none
    → lookup d i.id ≡ some i
    → lookup (insert d k v) i.id ≡ some i
lookup-kept d k v i free there = elim (Bool-cases (k == i.id)) [
  | inl same ↦
      let at : k ≡ i.id = ground (arith, eq_iff k i.id) in
      let none_there : lookup d i.id ≡ none = sym (ap (lookup d) at) ∙ free in cc
  | inr other ↦ rw (lookup-insert d k i.id v, other) there
]

module _ (d : Dict ContactIntent) (v : ContactIntent) where
  insert-keyed :
      (e : Dict ContactIntent)
      → lookup d v.id ≡ none
      → All (λ i. lookup d i.id ≡ some i) (values e)
      → All (λ i. lookup (insert d v.id v) i.id ≡ some i) (values (insert e v.id v))
  unfolding values insert
  insert-keyed [] free h = (lookup-insert_self d v.id v, tt)
  insert-keyed ((j, w) ∷ e) free (there, h) = elim (Bool-cases (j == v.id)) [
    | inl t ↦ rw (t) (
      lookup-insert_self d v.id v,
      All-map (λ i. lookup d i.id ≡ some i) (λ i. lookup (insert d v.id v) i.id ≡ some i)
          (λ i. lookup-kept d v.id v i free) (values e) h,
    )
    | inr f ↦ rw (f) (lookup-kept d v.id v w free there, insert-keyed e free h)
  ]

module _ (lib : Libraries) where
  import-parts :
      (r : InstitutionRecord) (actor : Actor) (body : MockFds) (now : ℕ) (i : ContactIntent)
      (r' : InstitutionRecord)
      → import_mock_fds lib r actor body now ≡ ok (i, r')
      → (is_assignable r body now ≡ true)
        × (i.id ≡ body.id)
        × (r'.intents ≡ insert r.intents i.id i)
  unfolding import_mock_fds
  import-parts r actor body now i r' h = ground arith

  assignable-free :
      (r : InstitutionRecord) (body : MockFds) (now : ℕ)
      → is_assignable r body now ≡ true
      → lookup r.intents body.id ≡ none
  unfolding is_assignable
  assignable-free r body now h = ground arith

  -- `importMockFds` of services/api/src/finals-model.ts: the keys of the intents.
  pub import_mock_fds-IsKeyed :
      (r : InstitutionRecord) (actor : Actor) (body : MockFds) (now : ℕ) (i : ContactIntent)
      (r' : InstitutionRecord)
      → IsKeyed r.intents
      → import_mock_fds lib r actor body now ≡ ok (i, r')
      → IsKeyed r'.intents
  import_mock_fds-IsKeyed r actor body now i r' keyed h =
      let (taken, id, same) = import-parts r actor body now i r' h in
      let free : lookup r.intents i.id ≡ none =
        ap (lookup r.intents) id ∙ assignable-free r body now taken in
      rw (same) (insert-keyed r.intents i r.intents free keyed)
