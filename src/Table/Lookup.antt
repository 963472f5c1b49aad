-- ===== src/Table/Lookup.antt =====
-- The row of an id, and what the statements do to it.
use mcp_persist.Prelude.{
  ℕ, zero, suc, ◌≤◌, ◌≡◌, refl, arith, Bool, true, false, List, [], ◌∷◌, Option, none, some, ◌==◌,
  if◌then◌else◌, filter, take, Bool-cases, inl, inr,
}
use mcp_persist.Table.{Row, upsert_row, ids, contains_id}
use mcp_persist.Table.Order.{Ordered, Ordered-filter}

abbrev pub row_of : ℕ → List Row → Option Row
row_of id [] = none
row_of id (r ∷ rs) = if r.event_id == id then some r else row_of id rs

pub row_of-upsert_row : (r : Row) (rows : List Row) → row_of r.event_id (upsert_row r rows) ≡ some r
unfolding upsert_row
row_of-upsert_row r [] = ground arith
row_of-upsert_row r (x ∷ xs) = ground (arith, row_of-upsert_row r xs)

pub row_of-upsert_row_other :
    (r : Row) (id : ℕ) (rows : List Row)
    → (r.event_id == id) ≡ false
    → row_of id (upsert_row r rows) ≡ row_of id rows
unfolding upsert_row
row_of-upsert_row_other r id [] ne = ground arith
row_of-upsert_row_other r id (x ∷ xs) ne = ground (arith, row_of-upsert_row_other r id xs ne)

pub row_of_below :
    (id lo : ℕ) (rows : List Row) (hi : ℕ) → Ordered lo rows hi → id ≤ lo → row_of id rows ≡ none
row_of_below id lo [] hi v le = refl
row_of_below id lo (r ∷ rs) hi v le =
    ground (arith, v.0, row_of_below id r.event_id rs hi v.1 (omega (arith, v.0)))

pub row_of-filter :
    (p : Row → Bool) (id lo : ℕ) (rows : List Row) (hi : ℕ) (x : Row)
    → Ordered lo rows hi
    → row_of id (filter p rows) ≡ some x
    → row_of id rows ≡ some x
row_of-filter p id lo [] hi x v h = h
row_of-filter p id lo (r ∷ rs) hi x v h = elim (Bool-cases (r.event_id == id)) [
  | inl e ↦ ground (
    arith,
    e,
    h,
    row_of-filter p id r.event_id rs hi x v.1,
    row_of_below id r.event_id (filter p rs) hi (Ordered-filter p r.event_id rs hi v.1),
  )
  | inr e ↦ ground (arith, e, h, row_of-filter p id r.event_id rs hi x v.1)
]

pub row_of-filter_passed :
    (p : Row → Bool) (id : ℕ) (rows : List Row) (x : Row)
    → row_of id (filter p rows) ≡ some x
    → p x ≡ true
row_of-filter_passed p id [] x h = ground arith
row_of-filter_passed p id (r ∷ rs) x h = ground (arith, row_of-filter_passed p id rs x)

pub row_of-filter_dropped :
    (p : Row → Bool) (id : ℕ) (rows : List Row)
    → ((x : Row) → x.event_id ≡ id → p x ≡ false)
    → row_of id (filter p rows) ≡ none
row_of-filter_dropped p id [] h = refl
row_of-filter_dropped p id (r ∷ rs) h = elim (Bool-cases (r.event_id == id)) [
  | inl e ↦ ground (arith, e, h r, row_of-filter_dropped p id rs h)
  | inr e ↦ ground (arith, e, row_of-filter_dropped p id rs h)
]

pub row_of-filter_absent :
    (p : Row → Bool) (id : ℕ) (rows : List Row)
    → row_of id rows ≡ none
    → row_of id (filter p rows) ≡ none
row_of-filter_absent p id [] h = h
row_of-filter_absent p id (r ∷ rs) h = ground (arith, h, row_of-filter_absent p id rs)

pub row_of-take_absent :
    (n id : ℕ) (rows : List Row) → row_of id rows ≡ none → row_of id (take n rows) ≡ none
row_of-take_absent zero id rows h = refl
row_of-take_absent (suc n) id [] h = h
row_of-take_absent (suc n) id (r ∷ rs) h = ground (arith, h, row_of-take_absent n id rs)

pub contains_id-some :
    (rows : List Row) (r x : Row)
    → row_of r.event_id rows ≡ some x
    → contains_id (ids rows) r ≡ true
contains_id-some [] r x h = ground arith
contains_id-some (y ∷ rows) r x h = ground (arith, h, contains_id-some rows r x)

pub row_of-filter_kept :
    (q : Row → Bool) (id : ℕ) (rows : List Row) (x : Row)
    → row_of id rows ≡ some x
    → q x ≡ true
    → row_of id (filter q rows) ≡ some x
row_of-filter_kept q id [] x h k = h
row_of-filter_kept q id (r ∷ rs) x h k = ground (arith, row_of-filter_kept q id rs x)

pub row_of-take :
    (n id : ℕ) (rows : List Row) (x : Row)
    → row_of id (take n rows) ≡ some x
    → row_of id rows ≡ some x
row_of-take zero id rows x h = ground arith
row_of-take (suc n) id [] x h = h
row_of-take (suc n) id (r ∷ rs) x h = ground (arith, row_of-take n id rs x)

pub contains_id-none :
    (rows : List Row) (r : Row) → row_of r.event_id rows ≡ none → contains_id (ids rows) r ≡ false
contains_id-none [] r h = refl
contains_id-none (x ∷ xs) r h = ground (arith, contains_id-none xs r)
