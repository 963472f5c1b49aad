-- ===== src/Archive/Moves.antt =====
-- The rows that an archived batch, or several, moved from the hot store to the cold one.
use mcp_persist.Prelude.{
  ℕ, ◌≤◌, ◌≡◌, ap, subst, ◌∙◌, arith, true, not, none, some, filter, take, Option-cases, inl, inr,
  ◌⊎◌,
}
use mcp_persist.Table.{Row, ids, contains_id}
use mcp_persist.Table.Order.{IsValid, Ordered-filter}
use mcp_persist.Table.Lookup.{
  row_of, row_of-filter, row_of-filter_kept, row_of-filter_passed, row_of-filter_dropped,
  row_of-filter_absent, row_of-take, row_of-take_absent, contains_id-none, contains_id-some,
}
use mcp_persist.Sqlite.State.{SqliteStore}
use mcp_persist.Sqlite.Expire.{is_expired}
use mcp_persist.Archive.{archive_all}
use mcp_persist.Archive.Lossless.{
  rows_of, archived, row_of-archive_all, row_of-archive_all_other, Ordered-take,
}

-- The event left the hot store for the cold one, and was expired at the cutoff.
abbrev pub IsArchived : ℕ → SqliteStore → SqliteStore → SqliteStore → SqliteStore → Row → Type 0
IsArchived cutoff hot cold hot' cold' r =
    (row_of r.event_id (rows_of hot') ≡ none)
    × (row_of r.event_id (rows_of cold') ≡ some (archived cold r))
    × (is_expired hot.tenant_id cutoff r ≡ true)

-- Each event of the hot store is there as it was or is archived; all else is as it was.
pub record IsMoved (cutoff : ℕ) (hot cold hot' cold' : SqliteStore) : Type 0 where
  pub moved :
      (r : Row)
      → row_of r.event_id (rows_of hot) ≡ some r
      → (row_of r.event_id (rows_of hot') ≡ some r) ⊎ IsArchived cutoff hot cold hot' cold' r
  pub others :
      (id : ℕ)
      → row_of id (rows_of hot) ≡ none
      → (row_of id (rows_of hot') ≡ none) × (row_of id (rows_of cold') ≡ row_of id (rows_of cold))

later_expired :
    (hot : SqliteStore) (cutoff late : ℕ) (r : Row)
    → cutoff ≤ late
    → is_expired hot.tenant_id cutoff r ≡ true
    → is_expired hot.tenant_id late r ≡ true
later_expired hot cutoff late r le h = ground arith

module _ (hot cold hot' cold' : SqliteStore) (n cutoff late : ℕ) where
  -- A batch of the expired rows.
  pub batch-IsMoved :
      IsValid hot.db.table
      → cutoff ≤ late
      → (let batch = take n (filter (is_expired hot.tenant_id cutoff) (rows_of hot)) in
          rows_of hot' ≡ filter (λ r. not (contains_id (ids batch) r)) (rows_of hot)
          → cold' ≡ archive_all cold batch
          → IsMoved late hot cold hot' cold')
  batch-IsMoved v le rows written =
      let p = is_expired hot.tenant_id cutoff in
      let found = filter p (rows_of hot) in
      let batch = take n found in
      let q = λ (r : Row). not (contains_id (ids batch) r) in
      record {
        moved = λ r stood. elim (Option-cases (row_of r.event_id batch)) [
          | inl out ↦ inl (
              ap (row_of r.event_id) rows
              ∙ row_of-filter_kept q r.event_id (rows_of hot) r stood
                  (ap not (contains_id-none batch r out)))
          | inr (x, chosen) ↦
              let in_found = row_of-take n r.event_id found x chosen in
              let among =
                row_of-filter p r.event_id 0 (rows_of hot) hot.db.table.seq x v in_found in
              let same : x ≡ r = ground (arith, among, stood) in
              inr (
                ap (row_of r.event_id) rows
                    ∙ row_of-filter_dropped q r.event_id (rows_of hot) (λ y e.
                      ap not (contains_id-some batch y x (ap (λ i. row_of i batch) e ∙ chosen))),
                ap (λ s. row_of r.event_id (rows_of s)) written
                    ∙ row_of-archive_all r.event_id 0 batch hot.db.table.seq cold x
                        (Ordered-take n 0 found hot.db.table.seq
                          (Ordered-filter p 0 (rows_of hot) hot.db.table.seq v))
                        chosen
                    ∙ ap (λ y. some (archived cold y)) same,
                later_expired hot cutoff late r le (
                    subst (λ y. p y ≡ true) same
                      (row_of-filter_passed p r.event_id (rows_of hot) x in_found)),
              )
        ];
        others = λ id absent. (
          ap (row_of id) rows ∙ row_of-filter_absent q id (rows_of hot) absent,
          ap (λ s. row_of id (rows_of s)) written
              ∙ row_of-archive_all_other id batch cold
                  (row_of-take_absent n id found (row_of-filter_absent p id (rows_of hot) absent)),
        );
      }

-- One batch and the batches behind it.
pub next-IsMoved :
    (late : ℕ) (hot cold hot₁ cold₁ hot' cold' : SqliteStore)
    → hot₁.tenant_id ≡ hot.tenant_id
    → ((r : Row) → archived cold₁ r ≡ archived cold r)
    → IsMoved late hot cold hot₁ cold₁
    → IsMoved late hot₁ cold₁ hot' cold'
    → IsMoved late hot cold hot' cold'
next-IsMoved late hot cold hot₁ cold₁ hot' cold' tenant same m k = record {
  moved = λ r stood. elim (m.moved r stood) [
    | inl stays ↦ elim (k.moved r stays) [
      | inl still ↦ inl still
      | inr (gone, kept, old) ↦
          inr (gone, kept ∙ ap some (same r), subst (λ t. is_expired t late r ≡ true) tenant old)
    ]
    | inr (gone, kept, old) ↦
        let (never, as_before) = k.others r.event_id gone in inr (never, as_before ∙ kept, old)
  ];
  others = λ id absent.
      let (gone, unwritten) = m.others id absent in
      let (never, as_before) = k.others id gone in (never, as_before ∙ unwritten);
}
