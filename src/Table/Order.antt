-- ===== src/Table/Order.antt =====
-- The rows of a table have strictly rising ids, none above `seq`: what the statements keep.
use mcp_persist.Prelude.{
  ℕ, ◌≤◌, ◌<◌, max, ◌≡◌, Bool, true, false, not, List, [], ◌∷◌, ◌++◌, Option, arith, Text, ltb,
  ◌==◌, if◌then◌else◌, filter, Every, Every-mono, inl, inr, Bool-cases, ==_iff, ltb→lt,
}
use mcp_persist.Table.{Row, Table, insert, upsert_row, upsert, delete_where}

-- All ids lie above `lo`, rise strictly, and end at `hi` or below.
abbrev pub Ordered : ℕ → List Row → ℕ → Type 0
Ordered lo [] hi = lo ≤ hi
Ordered lo (r ∷ rs) hi = (lo < r.event_id) × Ordered r.event_id rs hi

abbrev pub IsValid : Table → Type 0
IsValid t = Ordered 0 t.rows t.seq

pub Ordered-le : (lo : ℕ) (rs : List Row) (hi : ℕ) → Ordered lo rs hi → lo ≤ hi
Ordered-le lo [] hi h = h
Ordered-le lo (r ∷ rs) hi h = omega (arith, Ordered-le r.event_id rs hi h.1, h.0)

pub Ordered-weaken :
    (lo lo' : ℕ) (rs : List Row) (hi : ℕ) → lo' ≤ lo → Ordered lo rs hi → Ordered lo' rs hi
Ordered-weaken lo lo' [] hi le h = omega arith
Ordered-weaken lo lo' (r ∷ rs) hi le h = (omega (arith, h.0), h.1)

pub Ordered-raise :
    (lo : ℕ) (rs : List Row) (hi hi' : ℕ) → hi ≤ hi' → Ordered lo rs hi → Ordered lo rs hi'
Ordered-raise lo [] hi hi' le h = omega arith
Ordered-raise lo (r ∷ rs) hi hi' le h = (h.0, Ordered-raise r.event_id rs hi hi' le h.1)

pub Ordered-filter :
    (p : Row → Bool) (lo : ℕ) (rs : List Row) (hi : ℕ)
    → Ordered lo rs hi
    → Ordered lo (filter p rs) hi
Ordered-filter p lo [] hi h = h
Ordered-filter p lo (r ∷ rs) hi h =
    elim (p r) as (λ b. Ordered lo (if b then r ∷ filter p rs else filter p rs) hi) [
      | true ↦ (h.0, Ordered-filter p r.event_id rs hi h.1)
      | false ↦
          Ordered-weaken r.event_id lo (filter p rs) hi (omega (arith, h.0))
            (Ordered-filter p r.event_id rs hi h.1)
    ]

pub Ordered-snoc :
    (lo : ℕ) (rs : List Row) (hi : ℕ) (r : Row)
    → Ordered lo rs hi
    → hi < r.event_id
    → Ordered lo (rs ++ r ∷ []) r.event_id
Ordered-snoc lo [] hi r h lt = (omega arith, omega arith)
Ordered-snoc lo (x ∷ xs) hi r h lt = (h.0, Ordered-snoc x.event_id xs hi r h.1 lt)

pub Ordered-upsert_row :
    (lo : ℕ) (rs : List Row) (hi : ℕ) (r : Row)
    → Ordered lo rs hi
    → lo < r.event_id
    → Ordered lo (upsert_row r rs) (max hi r.event_id)
unfolding upsert_row
Ordered-upsert_row lo [] hi r h lt = omega arith
Ordered-upsert_row lo (x ∷ xs) hi r h lt = elim (Bool-cases (ltb r.event_id x.event_id)) [
  | inl below ↦
      rw below (
        lt,
        (ltb→lt _ _ below, Ordered-raise x.event_id xs hi (max hi r.event_id) (omega arith) h.1),
      )
  | inr above ↦ elim (Bool-cases (r.event_id == x.event_id)) [
    | inl same ↦
        let e : r.event_id ≡ x.event_id = (==_iff _ _).0 same in
        rw (above, same)
          (
            lt,
            Ordered-raise r.event_id xs hi (max hi r.event_id) (omega arith)
                (Ordered-weaken x.event_id r.event_id xs hi (omega arith) h.1),
          )
    | inr other ↦ rw (above, other) (h.0, Ordered-upsert_row x.event_id xs hi r h.1 (ground arith))
  ]
]

-- An id of the table lies in its range.
pub Ordered-bounds :
    (lo : ℕ) (rs : List Row) (hi : ℕ)
    → Ordered lo rs hi
    → Every (λ r. (lo < r.event_id) × (r.event_id ≤ hi)) rs
Ordered-bounds lo [] hi h = tt
Ordered-bounds lo (r ∷ rs) hi h = (
  (h.0, Ordered-le r.event_id rs hi h.1),
  Every-mono _ _ rs (λ x b. (omega (arith, b.0, h.0), b.1)) (Ordered-bounds r.event_id rs hi h.1),
)

pub insert-IsValid :
    (stream payload : Text) (now : ℕ) (tenant : Option Text) (t : Table)
    → IsValid t
    → IsValid (insert stream payload now tenant t).1
unfolding insert
insert-IsValid stream payload now tenant t h = Ordered-snoc 0 t.rows t.seq _ h (omega arith)

pub delete_where-IsValid : (p : Row → Bool) (t : Table) → IsValid t → IsValid (delete_where p t).1
unfolding delete_where
delete_where-IsValid p t h = Ordered-filter (λ r. not (p r)) 0 t.rows t.seq h

pub upsert-IsValid : (r : Row) (t : Table) → 0 < r.event_id → IsValid t → IsValid (upsert r t)
unfolding upsert
upsert-IsValid r t pos h = Ordered-upsert_row 0 t.rows t.seq r h pos
