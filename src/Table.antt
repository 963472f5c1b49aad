-- ===== src/Table.antt =====
-- The events table of src/mcp_persist/sqlite.py and the SQL statements on it. The rows stand in the
-- order of the primary key, which is the order of every `ORDER BY event_id`; `seq` is the largest id
-- that AUTOINCREMENT has given out or seen. Times are whole clock ticks.
pub mod Order
pub mod Batches
pub mod Lookup
use mcp_persist.Prelude.{
  ℕ, suc, ◌+◌, max, Bool, true, false, not, ◌&&◌, List, [], ◌∷◌, ◌++◌, Option, none, some, Text,
  text_eq, ltb, leb, ◌==◌, if◌then◌else◌, filter, any, take, length, map,
}

pub record Row : Type 0 where
  pub event_id : ℕ
  pub stream_id : Text
  pub payload : Text
  pub created_at : ℕ
  pub tenant_id : Option Text

pub record Table : Type 0 where
  pub rows : List Row
  pub seq : ℕ

abbrev pub empty_table : Table
empty_table = record { rows = []; seq = 0 }

-- INSERT: the id is the next of the sequence, and the row is the last.
unfoldable pub insert : Text → Text → ℕ → Option Text → Table → ℕ × Table
insert stream payload now tenant t =
    let id = t.seq + 1 in
    let row : Row = record {
      event_id = id;
      stream_id = stream;
      payload = payload;
      created_at = now;
      tenant_id = tenant;
    } in
    (id, record { rows = t.rows ++ row ∷ []; seq = id })

-- INSERT … ON CONFLICT(event_id) DO UPDATE: the row of that id, at its place in the order.
pub upsert_row : Row → List Row → List Row
upsert_row r [] = r ∷ []
upsert_row r (x ∷ xs) =
    let rest = upsert_row r xs in
    if ltb r.event_id x.event_id
    then r ∷ x ∷ xs
    else if r.event_id == x.event_id
    then r ∷ xs
    else x ∷ rest

unfoldable pub upsert : Row → Table → Table
unfolding upsert_row
upsert r t = record { rows = upsert_row r t.rows; seq = max t.seq r.event_id }

-- DELETE … WHERE, with the number of rows that went.
unfoldable pub delete_where : (Row → Bool) → Table → ℕ × Table
delete_where p t = (length (filter p t.rows), record t { rows = filter (λ r. not (p r)) t.rows })

abbrev pub ids : List Row → List ℕ
ids = map (λ r. r.event_id)

abbrev pub contains_id : List ℕ → Row → Bool
contains_id is r = any (λ i. i == r.event_id) is

-- DELETE … WHERE event_id IN (SELECT event_id … WHERE p ORDER BY event_id LIMIT n)
unfoldable pub delete_batch : (Row → Bool) → ℕ → Table → ℕ × Table
unfolding delete_where
delete_batch p n t = delete_where (contains_id (ids (take n (filter p t.rows)))) t

-- `tenant_id = ?`, which no row without a tenant passes
abbrev pub same_tenant : Text → Option Text → Bool
same_tenant t none = false
same_tenant t (some u) = text_eq t u

-- `_tenant_filter_sql`: a store without a tenant sees every row
abbrev pub in_scope : Option Text → Row → Bool
in_scope none r = true
in_scope (some t) r = same_tenant t r.tenant_id
