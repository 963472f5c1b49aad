-- ===== src/Sessions/Rows.antt =====
-- The row of a session under its key, and what the statements do to it.
use mcp_persist.Prelude.{
  ◌≡◌, refl, ap, ◌∙◌, arith, Bool, true, false, ◌&&◌, List, [], ◌∷◌, Option, none, some, Text,
  text_eq, text_eq_iff, text_eq_refl, if◌then◌else◌, filter, find?, Bool-cases, inl, inr,
}
use mcp_persist.Sessions.Sql.{SessionRow, is_session, refresh, upsert_session, update_session}

abbrev pub row_at : Text → Text → List SessionRow → Option SessionRow
row_at tenant id rows = find? (is_session tenant id) rows

-- The primary key.
abbrev pub Keyed : List SessionRow → Type 0
Keyed [] = Unit
Keyed (r ∷ rs) = (row_at r.tenant_id r.session_id rs ≡ none) × Keyed rs

abbrev pub refreshed : SessionRow → Option SessionRow → SessionRow
refreshed row none = row
refreshed row (some r) = refresh row r

pub text_eq_sym : (s t : Text) → text_eq s t ≡ text_eq t s
text_eq_sym s t = ground (arith, text_eq_iff s t, text_eq_iff t s)

pub row_at-upsert_session :
    (row : SessionRow) (rows : List SessionRow)
    → row_at row.tenant_id row.session_id (upsert_session row rows)
      ≡ some (refreshed row (row_at row.tenant_id row.session_id rows))
unfolding upsert_session
row_at-upsert_session row [] =
    ground (arith, text_eq_refl row.session_id, text_eq_refl row.tenant_id)
row_at-upsert_session row (r ∷ rs) = ground (arith, row_at-upsert_session row rs)

pub is_session_iff :
    (tenant id : Text) (r : SessionRow)
    → is_session tenant id r ≡ true
    → (r.session_id ≡ id) × (r.tenant_id ≡ tenant)
is_session_iff tenant id r h =
    ground (arith, h, text_eq_iff r.session_id id, text_eq_iff r.tenant_id tenant)

pub row_at-upsert_session_other :
    (row : SessionRow) (tenant id : Text) (rows : List SessionRow)
    → is_session tenant id row ≡ false
    → row_at tenant id (upsert_session row rows) ≡ row_at tenant id rows
unfolding upsert_session
row_at-upsert_session_other row tenant id [] ne = ground (arith, ne)
row_at-upsert_session_other row tenant id (r ∷ rs) ne =
    elim (Bool-cases (is_session row.tenant_id row.session_id r)) [
      | inl e ↦
          let (a, b) = is_session_iff row.tenant_id row.session_id r e in
          ground (arith, e, a, b, ne)
      | inr e ↦ ground (arith, e, row_at-upsert_session_other row tenant id rs ne)
    ]

abbrev pub set_in : Bool → (SessionRow → SessionRow) → Option SessionRow → Option SessionRow
set_in false set r = r
set_in true set none = none
set_in true set (some r) = some (set r)

-- An update that leaves the key alone.
abbrev pub Keeps : (SessionRow → SessionRow) → Type 0
Keeps set =
    (r : SessionRow) → ((set r).session_id ≡ r.session_id) × ((set r).tenant_id ≡ r.tenant_id)

is_session-Keeps :
    (set : SessionRow → SessionRow) (keeps : Keeps set) (tenant id : Text) (r : SessionRow)
    → is_session tenant id (set r) ≡ is_session tenant id r
is_session-Keeps set keeps tenant id r = ground (arith, (keeps r).0, (keeps r).1)

pub row_at-update_session :
    (set : SessionRow → SessionRow) (keeps : Keeps set) (t x tenant id : Text)
    (rows : List SessionRow)
    → row_at tenant id (update_session t x set rows)
      ≡ set_in (text_eq x id && text_eq t tenant) set (row_at tenant id rows)
unfolding update_session
row_at-update_session set keeps t x tenant id [] = ground arith
row_at-update_session set keeps t x tenant id (r ∷ rs) = elim (Bool-cases (is_session t x r)) [
  | inl e ↦
      let (a, b) = is_session_iff t x r e in
      ground (
        arith,
        e,
        a,
        b,
        is_session-Keeps set keeps tenant id r,
        row_at-update_session set keeps t x tenant id rs,
      )
  | inr e ↦ ground (
    arith,
    e,
    text_eq_iff x id,
    text_eq_iff t tenant,
    row_at-update_session set keeps t x tenant id rs,
  )
]

row_at-filter-none :
    (p : SessionRow → Bool) (tenant id : Text) (rows : List SessionRow)
    → row_at tenant id rows ≡ none
    → row_at tenant id (filter p rows) ≡ none
row_at-filter-none p tenant id [] h = refl
row_at-filter-none p tenant id (r ∷ rs) h = ground (arith, h, row_at-filter-none p tenant id rs)

abbrev pub kept : (SessionRow → Bool) → Option SessionRow → Option SessionRow
kept p none = none
kept p (some r) = if p r then some r else none

pub row_at-filter :
    (p : SessionRow → Bool) (tenant id : Text) (rows : List SessionRow)
    → Keyed rows
    → row_at tenant id (filter p rows) ≡ kept p (row_at tenant id rows)
row_at-filter p tenant id [] k = refl
row_at-filter p tenant id (r ∷ rs) k = elim (Bool-cases (is_session tenant id r)) [
  | inl e ↦
      let (a, b) = is_session_iff tenant id r e in
      let alone : row_at tenant id rs ≡ none = ground (arith, a, b, k.0) in
      ground (arith, e, row_at-filter-none p tenant id rs alone)
  | inr e ↦ ground (arith, e, row_at-filter p tenant id rs k.1)
]

pub upsert_session-Keyed :
    (row : SessionRow) (rows : List SessionRow) → Keyed rows → Keyed (upsert_session row rows)
unfolding upsert_session
upsert_session-Keyed row [] k = (refl, tt)
upsert_session-Keyed row (r ∷ rs) k =
    elim (Bool-cases (is_session row.tenant_id row.session_id r)) [
      | inl e ↦ rw e (k.0, k.1)
      | inr e ↦ rw e (
        row_at-upsert_session_other row r.tenant_id r.session_id rs (
              ground (
                arith,
                e,
                text_eq_sym row.session_id r.session_id,
                text_eq_sym row.tenant_id r.tenant_id,
              ))
            ∙ k.0,
        upsert_session-Keyed row rs k.1,
      )
    ]

set_in-none : (b : Bool) (set : SessionRow → SessionRow) → set_in b set none ≡ none
set_in-none true set = refl
set_in-none false set = refl

pub update_session-Keyed :
    (set : SessionRow → SessionRow) (keeps : Keeps set) (t x : Text) (rows : List SessionRow)
    → Keyed rows
    → Keyed (update_session t x set rows)
unfolding update_session
update_session-Keyed set keeps t x [] k = tt
update_session-Keyed set keeps t x (r ∷ rs) k =
    let r' = if is_session t x r then set r else r in
    let same : (r'.session_id ≡ r.session_id) × (r'.tenant_id ≡ r.tenant_id) =
      elim (is_session t x r)
        as (λ b.
          ((if b then set r else r).session_id ≡ r.session_id)
          × ((if b then set r else r).tenant_id ≡ r.tenant_id)) [
            | true ↦ keeps r
            | false ↦ (refl, refl)
          ] in
    (
      row_at-update_session set keeps t x r'.tenant_id r'.session_id rs
          ∙ ap (set_in (text_eq x r'.session_id && text_eq t r'.tenant_id) set) (
              ap (λ i. row_at r'.tenant_id i rs) same.0
              ∙ ap (λ u. row_at u r.session_id rs) same.1
              ∙ k.0)
          ∙ set_in-none (text_eq x r'.session_id && text_eq t r'.tenant_id) set,
      update_session-Keyed set keeps t x rs k.1,
    )

pub filter-Keyed :
    (p : SessionRow → Bool) (rows : List SessionRow) → Keyed rows → Keyed (filter p rows)
filter-Keyed p [] k = tt
filter-Keyed p (r ∷ rs) k =
    elim (p r) as (λ b. Keyed (if b then r ∷ filter p rs else filter p rs)) [
      | true ↦ (row_at-filter-none p r.tenant_id r.session_id rs k.0, filter-Keyed p rs k.1)
      | false ↦ filter-Keyed p rs k.1
    ]
