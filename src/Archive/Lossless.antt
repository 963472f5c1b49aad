-- ===== src/Archive/Lossless.antt =====
-- What an archived batch leaves in the two stores.
use mcp_persist.Prelude.{
  ℕ, zero, suc, ◌-◌, ◌≡◌, refl, sym, ap, ◌∙◌, arith, false, not, List, [], ◌∷◌, none, some, ◌==◌,
  ==_iff, length, filter, take, Bool-cases, Option-cases, inl, inr, ◌⊎◌,
}
use mcp_persist.Table.{Row, ids, upsert, contains_id, delete_where}
use mcp_persist.Table.Order.{Ordered, Ordered-le, Ordered-filter, IsValid}
use mcp_persist.Table.Lookup.{
  row_of, row_of-upsert_row, row_of-upsert_row_other, row_of_below, row_of-filter,
  row_of-filter_kept, row_of-take, contains_id-none,
}
use mcp_persist.Sqlite.State.{SqliteStore, commit, ok}
use mcp_persist.Sqlite.Write.{store_event_raw}
use mcp_persist.Sqlite.Expire.{is_expired, select_expired, delete_events}
use mcp_persist.Archive.{
  archive_one, archive_all, archive_selected, archive_before, archive_expired_batch,
}

abbrev pub rows_of : SqliteStore → List Row
rows_of s = s.db.table.rows

-- The row as the cold store keeps it, under its own tenant.
abbrev pub archived : SqliteStore → Row → Row
archived cold r = record r { tenant_id = cold.tenant_id }

row_of-archive_one :
    (cold : SqliteStore) (r : Row)
    → row_of r.event_id (rows_of (archive_one cold r)) ≡ some (archived cold r)
unfolding store_event_raw commit upsert
row_of-archive_one cold r = row_of-upsert_row (archived cold r) (rows_of cold)

row_of-archive_one_other :
    (cold : SqliteStore) (r : Row) (id : ℕ)
    → (r.event_id == id) ≡ false
    → row_of id (rows_of (archive_one cold r)) ≡ row_of id (rows_of cold)
unfolding store_event_raw commit upsert
row_of-archive_one_other cold r id ne =
    row_of-upsert_row_other (archived cold r) id (rows_of cold) ne

archived-archive_one :
    (cold : SqliteStore) (r x : Row) → archived (archive_one cold r) x ≡ archived cold x
unfolding store_event_raw commit
archived-archive_one cold r x = refl

pub row_of-archive_all_other :
    (id : ℕ) (batch : List Row) (cold : SqliteStore)
    → row_of id batch ≡ none
    → row_of id (rows_of (archive_all cold batch)) ≡ row_of id (rows_of cold)
row_of-archive_all_other id [] cold h = refl
row_of-archive_all_other id (r ∷ rs) cold h = elim (Bool-cases (r.event_id == id)) [
  | inl e ↦ ground (arith, h, e)
  | inr e ↦
      row_of-archive_all_other id rs (archive_one cold r) (ground (arith, h, e))
      ∙ row_of-archive_one_other cold r id e
]

pub row_of-archive_all :
    (id lo : ℕ) (batch : List Row) (hi : ℕ) (cold : SqliteStore) (x : Row)
    → Ordered lo batch hi
    → row_of id batch ≡ some x
    → row_of id (rows_of (archive_all cold batch)) ≡ some (archived cold x)
row_of-archive_all id lo [] hi cold x v h = ground arith
row_of-archive_all id lo (r ∷ rs) hi cold x v h = elim (Bool-cases (r.event_id == id)) [
  | inl e ↦
      let same : r.event_id ≡ id = (==_iff r.event_id id).0 e in
      let found : r ≡ x = ground (arith, h, e) in
      row_of-archive_all_other id rs (archive_one cold r)
        (row_of_below id r.event_id rs hi v.1 (omega (arith, same)))
      ∙ ap (λ i. row_of i (rows_of (archive_one cold r))) (sym same)
      ∙ row_of-archive_one cold r
      ∙ ap (λ y. some (archived cold y)) found
  | inr e ↦
      row_of-archive_all id r.event_id rs hi (archive_one cold r) x v.1 (ground (arith, h, e))
      ∙ ap some (archived-archive_one cold r x)
]

pub archived-archive_all :
    (batch : List Row) (cold : SqliteStore) (x : Row)
    → archived (archive_all cold batch) x ≡ archived cold x
archived-archive_all [] cold x = refl
archived-archive_all (r ∷ rs) cold x =
    archived-archive_all rs (archive_one cold r) x ∙ archived-archive_one cold r x

-- The event stands in the hot store as it was, or in the cold store as archived.
abbrev pub Stands : Row → SqliteStore → SqliteStore → SqliteStore → Type 0
Stands r cold hot' cold' =
    (row_of r.event_id (rows_of hot') ≡ some r)
    ⊎ (row_of r.event_id (rows_of cold') ≡ some (archived cold r))

pub Ordered-take :
    (n lo : ℕ) (rows : List Row) (hi : ℕ) → Ordered lo rows hi → Ordered lo (take n rows) hi
Ordered-take zero lo rows hi v = Ordered-le lo rows hi v
Ordered-take (suc n) lo [] hi v = v
Ordered-take (suc n) lo (r ∷ rs) hi v = (v.0, Ordered-take n r.event_id rs hi v.1)

archive_selected-Stands :
    (hot cold : SqliteStore) (r : Row) (batch : List Row)
    → Ordered 0 batch hot.db.table.seq
    → ((x : Row) → row_of r.event_id batch ≡ some x → row_of r.event_id (rows_of hot) ≡ some x)
    → row_of r.event_id (rows_of hot) ≡ some r
    → (n : ℕ) × (hot' : SqliteStore) × (cold' : SqliteStore) × (archive_selected hot cold batch
        ≡ (n, (hot', cold')))
      × Stands r cold hot' cold'
unfolding archive_selected delete_events delete_where commit
archive_selected-Stands hot cold r [] v among h = (0, hot, cold, refl, inl h)
archive_selected-Stands hot cold r (b ∷ bs) v among h = (
  length (b ∷ bs),
  (delete_events hot (ids (b ∷ bs))).1,
  archive_all cold (b ∷ bs),
  refl,
  elim (Option-cases (row_of r.event_id (b ∷ bs))) [
    | inl out ↦ inl (
        row_of-filter_kept (λ x. not (contains_id (ids (b ∷ bs)) x)) r.event_id (rows_of hot) r h
          (ap not (contains_id-none (b ∷ bs) r out)))
    | inr (x, found) ↦
        let same : x ≡ r = ground (arith, among x found, h) in
        inr (
          row_of-archive_all r.event_id 0 (b ∷ bs) hot.db.table.seq cold x v found
          ∙ ap (λ y. some (archived cold y)) same)
  ],
)

-- Archiving a batch loses no event. For every positive batch size and every time,
-- `archive_expired_batch` returns, and an event that the hot store holds is afterwards either still in
-- the hot store, as it was, or in the cold store under its own id, with its stream, payload and time
-- and the cold store's tenant. The table of the hot store has rising ids.
pub archive_expired_batch-Stands :
    (hot cold : SqliteStore) (n now : ℕ) (r : Row)
    → IsValid hot.db.table
    → row_of r.event_id (rows_of hot) ≡ some r
    → (k : ℕ) × (hot' : SqliteStore) × (cold' : SqliteStore) × (archive_expired_batch hot cold
          (suc n)
          now
        ≡ ok (k, (hot', cold')))
      × Stands r cold hot' cold'
unfolding archive_expired_batch
archive_expired_batch-Stands hot cold n now r v h = elim (Option-cases hot.ttl) [
  | inl never ↦ (0, hot, cold, ap (λ ttl. archive_before hot cold (suc n) ttl now) never, inl h)
  | inr (ttl, e) ↦
      let expired = is_expired hot.tenant_id (now - ttl) in
      let (k, hot', cold', done, stands) =
        archive_selected-Stands hot cold r (take (suc n) (filter expired (rows_of hot)))
          (Ordered-take (suc n) 0 _ hot.db.table.seq
            (Ordered-filter expired 0 (rows_of hot) hot.db.table.seq v))
          (λ x found.
            row_of-filter expired r.event_id 0 (rows_of hot) hot.db.table.seq x v
              (row_of-take (suc n) r.event_id (filter expired (rows_of hot)) x found))
          h in
      (
        k,
        hot',
        cold',
        ap (λ ttl. archive_before hot cold (suc n) ttl now) e
            ∙ (unfold select_expired in ap ok done),
        stands,
      )
]
