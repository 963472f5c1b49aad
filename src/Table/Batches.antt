-- ===== src/Table/Batches.antt =====
-- Deleting in batches removes the rows that one DELETE removes.
use mcp_persist.Prelude.{
  ℕ, zero, suc, ◌+◌, ◌<◌, ◌≡◌, refl, ap, sym, subst, Bool, true, false, not, List, [], ◌∷◌, arith,
  ltb, ltb→lt, if◌then◌else◌, filter, take, drop, length, Every, Every-mono, inl, inr, Bool-cases,
  ==_refl,
}
use mcp_persist.Table.{Row, Table, delete_where, delete_batch, ids, contains_id}
use mcp_persist.Table.Order.{Ordered, Ordered-filter, IsValid, Ordered-bounds}

-- `while True: DELETE a batch; total += removed; if removed < batch_size: break`, with fuel
unfoldable pub purge_loop : ℕ → (Row → Bool) → ℕ → Table → ℕ × Table
purge_loop zero p n t = (0, t)
purge_loop (suc fuel) p n t =
    let (removed, t') = delete_batch p n t in
    let (later, t'') = purge_loop fuel p n t' in
    if ltb removed n then (removed, t') else (removed + later, t'')

-- The rows without the first `n` that pass the test.
pub skip : (Row → Bool) → ℕ → List Row → List Row
skip p zero rs = rs
skip p (suc n) [] = []
skip p (suc n) (r ∷ rs) =
    let here = skip p n rs in let there = r ∷ skip p (suc n) rs in if p r then here else there

abbrev Above : ℕ → List Row → Type 0
Above i = Every (λ r. i < r.event_id)

Ordered-Above : (lo : ℕ) (rs : List Row) (hi : ℕ) → Ordered lo rs hi → Above lo rs
Ordered-Above lo rs hi h = Every-mono _ _ rs (λ r b. b.0) (Ordered-bounds lo rs hi h)

-- An id below all rows is none of theirs.
filter-contains_below :
    (i : ℕ) (is : List ℕ) (rs : List Row)
    → Above i rs
    → filter (contains_id (i ∷ is)) rs ≡ filter (contains_id is) rs
filter-contains_below i is [] h = refl
filter-contains_below i is (r ∷ rs) h = ground (arith, h.0, filter-contains_below i is rs h.1)

filter-lacks_below :
    (i : ℕ) (is : List ℕ) (rs : List Row)
    → Above i rs
    → filter (λ r. not (contains_id (i ∷ is) r)) rs ≡ filter (λ r. not (contains_id is r)) rs
filter-lacks_below i is [] h = refl
filter-lacks_below i is (r ∷ rs) h = ground (arith, h.0, filter-lacks_below i is rs h.1)

contains_id-Above :
    (p : Row → Bool) (n : ℕ) (r : Row) (rs : List Row)
    → Above r.event_id rs
    → contains_id (ids (take n (filter p rs))) r ≡ false
contains_id-Above p zero r rs h = refl
contains_id-Above p (suc n) r [] h = refl
contains_id-Above p (suc n) r (x ∷ rs) h =
    ground (arith, h.0, contains_id-Above p n r rs h.1, contains_id-Above p (suc n) r rs h.1)

filter_yes :
    (p : Row → Bool) (r : Row) (rs : List Row) → p r ≡ true → filter p (r ∷ rs) ≡ r ∷ filter p rs
filter_yes p r rs e = rw e

filter_no :
    (p : Row → Bool) (r : Row) (rs : List Row) → p r ≡ false → filter p (r ∷ rs) ≡ filter p rs
filter_no p r rs e = rw e

filter_none : (rs : List Row) → filter (contains_id []) rs ≡ []
filter_none [] = refl
filter_none (r ∷ rs) = filter_none rs

pub filter_all : (rs : List Row) → filter (λ r. not (contains_id [] r)) rs ≡ rs
filter_all [] = refl
filter_all (r ∷ rs) = ap (◌∷◌ r) (filter_all rs)

-- The ids of a batch select the rows of the batch, and no others.
filter-batch :
    (p : Row → Bool) (n lo : ℕ) (rs : List Row) (hi : ℕ)
    → Ordered lo rs hi
    → filter (contains_id (ids (take n (filter p rs)))) rs ≡ take n (filter p rs)
filter-batch p zero lo rs hi h = filter_none rs
filter-batch p (suc n) lo [] hi h = refl
filter-batch p (suc n) lo (r ∷ rs) hi h = elim (Bool-cases (p r)) [
  | inl e ↦
      subst
        (λ (u : List Row). filter (contains_id (ids (take (suc n) u))) (r ∷ rs) ≡ take (suc n) u)
        (sym (filter_yes p r rs e))
        (rw (
          ==_refl r.event_id,
          filter-contains_below r.event_id (ids (take n (filter p rs))) rs
              (Ordered-Above r.event_id rs hi h.1),
          filter-batch p n r.event_id rs hi h.1,
        ))
  | inr e ↦
      subst
        (λ (u : List Row). filter (contains_id (ids (take (suc n) u))) (r ∷ rs) ≡ take (suc n) u)
        (sym (filter_no p r rs e))
        (rw (
          contains_id-Above p (suc n) r rs (Ordered-Above r.event_id rs hi h.1),
          filter-batch p (suc n) r.event_id rs hi h.1,
        ))
]

pub filter-skip_batch :
    (p : Row → Bool) (n lo : ℕ) (rs : List Row) (hi : ℕ)
    → Ordered lo rs hi
    → filter (λ r. not (contains_id (ids (take n (filter p rs))) r)) rs ≡ skip p n rs
unfolding skip
filter-skip_batch p zero lo rs hi h = filter_all rs
filter-skip_batch p (suc n) lo [] hi h = refl
filter-skip_batch p (suc n) lo (r ∷ rs) hi h = elim (Bool-cases (p r)) [
  | inl e ↦
      subst
        (λ (u : List Row).
          filter (λ x. not (contains_id (ids (take (suc n) u)) x)) (r ∷ rs)
          ≡ skip p (suc n) (r ∷ rs))
        (sym (filter_yes p r rs e))
        (rw (
          e,
          ==_refl r.event_id,
          filter-lacks_below r.event_id (ids (take n (filter p rs))) rs
              (Ordered-Above r.event_id rs hi h.1),
          filter-skip_batch p n r.event_id rs hi h.1,
        ))
  | inr e ↦
      subst
        (λ (u : List Row).
          filter (λ x. not (contains_id (ids (take (suc n) u)) x)) (r ∷ rs)
          ≡ skip p (suc n) (r ∷ rs))
        (sym (filter_no p r rs e))
        (rw (
          e,
          contains_id-Above p (suc n) r rs (Ordered-Above r.event_id rs hi h.1),
          filter-skip_batch p (suc n) r.event_id rs hi h.1,
        ))
]

-- One batch: it removes the first `n` rows that pass the test, and counts them.
delete_batch-skip :
    (p : Row → Bool) (n : ℕ) (t : Table)
    → IsValid t
    → delete_batch p n t ≡ (length (take n (filter p t.rows)), record t { rows = skip p n t.rows })
unfolding delete_batch
delete_batch-skip p n t h =
    rw (filter-batch p n 0 t.rows t.seq h, filter-skip_batch p n 0 t.rows t.seq h)

pub filter-skip :
    (p : Row → Bool) (n : ℕ) (rs : List Row) → filter p (skip p n rs) ≡ drop n (filter p rs)
unfolding skip
filter-skip p zero rs = refl
filter-skip p (suc n) [] = refl
filter-skip p (suc n) (r ∷ rs) = ground (arith, filter-skip p n rs, filter-skip p (suc n) rs)

pub filter-not-skip :
    (p : Row → Bool) (n : ℕ) (rs : List Row)
    → filter (λ r. not (p r)) (skip p n rs) ≡ filter (λ r. not (p r)) rs
unfolding skip
filter-not-skip p zero rs = refl
filter-not-skip p (suc n) [] = refl
filter-not-skip p (suc n) (r ∷ rs) =
    ground (arith, filter-not-skip p n rs, filter-not-skip p (suc n) rs)

-- Where fewer than `n` rows pass the test, all of them are skipped.
pub skip-all :
    (p : Row → Bool) (n : ℕ) (rs : List Row)
    → length (filter p rs) < n
    → skip p n rs ≡ filter (λ r. not (p r)) rs
unfolding skip
skip-all p zero rs h = elim h [ ]
skip-all p (suc n) [] h = refl
skip-all p (suc n) (r ∷ rs) h = ground (arith, skip-all p n rs, skip-all p (suc n) rs)

pub take-all : (n : ℕ) (rs : List Row) → length (take n rs) < n → take n rs ≡ rs
take-all zero rs h = elim h [ ]
take-all (suc n) [] h = refl
take-all (suc n) (r ∷ rs) h = ap (◌∷◌ r) (take-all n rs (omega arith))

pub length-filter-not :
    (p : Row → Bool) (rs : List Row)
    → length (filter p rs) + length (filter (λ r. not (p r)) rs) ≡ length rs
length-filter-not p [] = omega arith
length-filter-not p (r ∷ rs) = ground (arith, length-filter-not p rs)

pub length-take-drop : (n : ℕ) (rs : List Row) → length (take n rs) + length (drop n rs) ≡ length rs
length-take-drop zero rs = omega arith
length-take-drop (suc n) [] = omega arith
length-take-drop (suc n) (r ∷ rs) = omega (arith, length-take-drop n rs)

pub skip-IsValid :
    (p : Row → Bool) (n lo : ℕ) (rs : List Row) (hi : ℕ)
    → Ordered lo rs hi
    → Ordered lo (skip p n rs) hi
skip-IsValid p n lo rs hi h = rw (← filter-skip_batch p n lo rs hi h) (Ordered-filter _ lo rs hi h)

-- What the loop does with the result of one batch.
abbrev after_batch : ℕ → (Row → Bool) → ℕ → ℕ × Table → ℕ × Table
after_batch fuel p n (removed, t') =
    if ltb removed n
    then (removed, t')
    else (removed + (purge_loop fuel p n t').0, (purge_loop fuel p n t').1)

purge_loop-skip :
    (fuel : ℕ) (p : Row → Bool) (n : ℕ) (t : Table)
    → IsValid t
    → purge_loop (suc fuel) p n t
      ≡ after_batch fuel p n
          (length (take n (filter p t.rows)), record t { rows = skip p n t.rows })
unfolding purge_loop
purge_loop-skip fuel p n t h = ap (after_batch fuel p n) (delete_batch-skip p n t h)

-- In a table with rising ids and with batches of a positive size, any fuel larger than the number of
-- rows to delete gives the same: the loop ends by its test, with the count and the table of one DELETE.
pub purge_loop-fuel :
    (fuel : ℕ) (p : Row → Bool) (n : ℕ) (t : Table)
    → IsValid t
    → 0 < n
    → length (filter p t.rows) < fuel
    → purge_loop fuel p n t ≡ delete_where p t
purge_loop-fuel zero p n t h pos lt = elim lt [ ]
purge_loop-fuel (suc fuel) p n t h pos lt =
    let found = filter p t.rows in
    let t' : Table = record t { rows = skip p n t.rows } in
    elim (Bool-cases (ltb (length (take n found)) n)) [
      | inl short ↦
          let whole = take-all n found (ltb→lt _ _ short) in
          rw
            (
              purge_loop-skip fuel p n t h,
              short,
              skip-all p n t.rows (fits whole (ltb→lt _ _ short)),
              whole,
            )
            (unfold delete_where in refl)
      | inr full ↦
          let sizes : length (take n found) + length (drop n found) ≡ length found =
            length-take-drop n found in
          let count : length (filter p t'.rows) ≡ length (drop n found) =
            ap length (filter-skip p n t.rows) in
          rw
            (
              purge_loop-skip fuel p n t h,
              full,
              purge_loop-fuel fuel p n t' (skip-IsValid p n 0 t.rows t.seq h) pos (ground arith),
            )
            (unfold delete_where in rw (count, sizes, filter-not-skip p n t.rows))
    ]
  where
    fits :
        take n (filter p t.rows) ≡ filter p t.rows
        → length (take n (filter p t.rows)) < n
        → length (filter p t.rows) < n
    fits e lt' = rw e at lt'
