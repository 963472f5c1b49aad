-- ===== src/Sessions/Paging.antt =====
-- The pages of `RedisSessionRegistry.list_sessions` together list what the index shows.
use mcp_persist.Prelude.{
  take_all, take_first, take-drop, drop-drop, take_short, take_enough, page-cases, ℕ, zero, suc,
  ◌+◌, ◌-◌, max, ◌<◌, ◌≡◌, refl, sym, ap, ◌∙◌, arith, Bool, true, false, List, [], ◌∷◌, ◌++◌,
  Option, none, some, Text, ltb, leb, length, length-append, take, drop, append_assoc, append-nil,
  Bool-cases, inl, inr,
}
use mcp_persist.Sessions.{JsonText, SessionRecord}
use mcp_persist.Sessions.Redis.{Redis, get}
use mcp_persist.Sessions.Listing.{
  Collected, is_hidden, collect, read_page, read_pages, list_sessions, add_shown, shown, still,
}

module _ {Object : Type 0} (j : JsonText Object) (include_terminated : Bool) (limit : ℕ)
    (s : Redis) where
  add_shown-append :
      (o : Option (SessionRecord Object)) (a b : List (SessionRecord Object))
      → (add_shown j include_terminated limit) o (a ++ b)
        ≡ (add_shown j include_terminated limit) o a ++ b
  add_shown-append none a b = refl
  add_shown-append (some r) a b = ground arith

  shown-append :
      (a b : List (Text × ℕ))
      → (shown j include_terminated limit s) (a ++ b)
        ≡ (shown j include_terminated limit s) a ++ (shown j include_terminated limit s) b
  shown-append [] b = refl
  shown-append (m ∷ a) b =
      ap (add_shown j include_terminated limit (get j s m.0)) (shown-append a b)
      ∙ add_shown-append (get j s m.0) (shown j include_terminated limit s a)
          (shown j include_terminated limit s b)

  Fills :
      (List (SessionRecord Object) → List Text → Collected Object)
      → List (SessionRecord Object)
      → Type 0
  Fills again rest =
      (out : List (SessionRecord Object)) (stale : List Text)
      → length out < limit
      → (again out stale).out ≡ take limit (out ++ rest)

  collect-Fills :
      (again : List (SessionRecord Object) → List Text → Collected Object)
      (rest : List (SessionRecord Object)) (id : Text) (o : Option (SessionRecord Object))
      → Fills again rest
      → Fills
          (λ out stale. (collect j include_terminated limit) again id out stale o)
          (add_shown j include_terminated limit o rest)
  unfolding Fills
  collect-Fills again rest id none f out stale h = f out (stale ++ id ∷ []) h
  collect-Fills again rest id (some r) f out stale h =
      elim (Bool-cases (is_hidden j include_terminated limit r)) [
        | inl hid ↦ rw hid (f out stale h)
        | inr seen ↦ elim (Bool-cases (leb limit (length (out ++ r ∷ [])))) [
          | inl full ↦
              rw (seen, full)
                (sym (
                  ap (take limit) (sym (append_assoc out (r ∷ []) rest))
                  ∙ take_first limit (out ++ r ∷ []) rest
                      (ground (arith, h, full, length-append out (r ∷ [])))))
          | inr more ↦
              rw (seen, more)
                (f (out ++ r ∷ []) stale (ground (arith, h, more, length-append out (r ∷ [])))
                  ∙ ap (take limit) (append_assoc out (r ∷ []) rest))
        ]
      ]

  read_page-Fills :
      (ms : List (Text × ℕ))
      → Fills
          (λ out stale. (read_page j include_terminated limit s.hashes) ms out stale)
          (shown j include_terminated limit s ms)
  unfolding read_page Fills
  read_page-Fills [] out stale h =
      sym (ap (take limit) (append-nil out) ∙ take_all limit out (omega (arith, h)))
  read_page-Fills (m ∷ ms) out stale h =
      collect-Fills (λ out' stale'. (read_page j include_terminated limit s.hashes) ms out' stale')
        (shown j include_terminated limit s ms) m.0 (get j s m.0) (read_page-Fills ms) out stale h

  full-read_pages :
      (fuel pages start : ℕ) (c : Collected Object)
      → ltb (length c.out) limit ≡ false
      → (read_pages j include_terminated limit (still s)) fuel pages start c ≡ c
  unfolding read_pages
  full-read_pages zero pages start c h = refl
  full-read_pages (suc fuel) pages start c h = rw h

  -- What a page and the rest of the index show.
  shown-page :
      (start page : ℕ)
      → (shown j include_terminated limit s) (take page (drop start s.index))
          ++ (shown j include_terminated limit s) (drop (start + page) s.index)
        ≡ (shown j include_terminated limit s) (drop start s.index)
  shown-page start page =
      let xs = drop start s.index in
      ap
        (λ ys.
          (shown j include_terminated limit s) (take page xs)
          ++ (shown j include_terminated limit s) ys)
        (drop-drop start page s.index)
      ∙ sym (shown-append (take page xs) (drop page xs))
      ∙ ap (shown j include_terminated limit s) (take-drop page xs)

  -- A page was read into `c'`, and the loop goes on with it.
  page-out :
      (old read rest : List (SessionRecord Object)) (c' end : Collected Object)
      → c'.out ≡ take limit (old ++ read)
      → (length c'.out < limit → end.out ≡ take limit (c'.out ++ rest))
      → (ltb (length c'.out) limit ≡ false → end ≡ c')
      → end.out ≡ take limit (old ++ (read ++ rest))
  page-out old read rest c' end filled go stop = elim (Bool-cases (ltb (length c'.out) limit)) [
    | inl more ↦
        let all = filled ∙ take_short limit (old ++ read) (ground (arith, more, filled)) in
        go (ground (arith, more))
        ∙ ap (λ o. take limit (o ++ rest)) all
        ∙ ap (take limit) (append_assoc old read rest)
    | inr full ↦
        ap (λ e. e.out) (stop full)
        ∙ filled
        ∙ sym (take_enough limit (old ++ read) rest (ground (arith, full, filled)))
        ∙ ap (take limit) (append_assoc old read rest)
  ]

  read_pages-next :
      (fuel pages start : ℕ) (c : Collected Object) (m : Text × ℕ) (ms : List (Text × ℕ))
      → ltb (length c.out) limit ≡ true
      → take (max limit 50) (drop start s.index) ≡ m ∷ ms
      → (read_pages j include_terminated limit (still s)) (suc fuel) pages start c
        ≡ (read_pages j include_terminated limit (still s)) fuel
            (suc pages)
            (start + max limit 50)
            (read_page j include_terminated limit s.hashes (m ∷ ms) c.out c.stale)
  unfolding read_pages
  read_pages-next fuel pages start c m ms below ids =
      rw (below, ids)
        (ap
          (λ i.
            (read_pages j include_terminated limit (still s)) fuel (suc pages)
              (start + max limit 50)
              (read_page j include_terminated limit s.hashes i c.out c.stale))
          ids)

  read_pages-end :
      (fuel pages start : ℕ) (c : Collected Object)
      → take (max limit 50) (drop start s.index) ≡ []
      → (read_pages j include_terminated limit (still s)) (suc fuel) pages start c ≡ c
  unfolding read_pages
  read_pages-end fuel pages start c ids = elim (Bool-cases (ltb (length c.out) limit)) [
    | inl e ↦ rw (e, ids)
    | inr e ↦ rw e
  ]

  -- The loop with enough fuel, from an offset on.
  read_pages-out :
      (fuel pages start : ℕ) (c : Collected Object)
      → length (drop start s.index) < fuel
      → length c.out < limit
      → (read_pages j include_terminated limit (still s) fuel pages start c).out
        ≡ take limit (c.out ++ (shown j include_terminated limit s) (drop start s.index))
  unfolding Fills
  read_pages-out zero pages start c enough h = ground (arith, enough)
  read_pages-out (suc fuel) pages start c enough h =
      let n = max limit 50 - 1 in
      let page : max limit 50 ≡ suc n = omega arith in
      let xs = drop start s.index in
      elim (page-cases n xs) [
        | inl (none_left, at_end) ↦
            ap (λ e. e.out)
              (read_pages-end fuel pages start c (ap (λ k. take k xs) page ∙ none_left))
            ∙ sym (
                ap (λ i. take limit (c.out ++ (shown j include_terminated limit s) i)) at_end
                ∙ ap (take limit) (append-nil c.out)
                ∙ take_all limit c.out (omega (arith, h)))
        | inr (m, ms, some_left, less) ↦
            let ids : take (max limit 50) xs ≡ m ∷ ms = ap (λ k. take k xs) page ∙ some_left in
            let start' = start + max limit 50 in
            let c' = (read_page j include_terminated limit s.hashes) (m ∷ ms) c.out c.stale in
            let left : length (drop start' s.index) < fuel = omega (
              arith,
              less,
              enough,
              ap length (drop-drop start (max limit 50) s.index),
              ap (λ k. length (drop k xs)) page,
            ) in
            ap (λ e. e.out) (read_pages-next fuel pages start c m ms (ground (arith, h)) ids)
            ∙ page-out c.out (shown j include_terminated limit s (m ∷ ms))
                (shown j include_terminated limit s (drop start' s.index)) c'
                (read_pages j include_terminated limit (still s) fuel (suc pages) start' c')
                (read_page-Fills (m ∷ ms) c.out c.stale h)
                (read_pages-out fuel (suc pages) start' c' left)
                (full-read_pages fuel (suc pages) start' c')
            ∙ ap (λ ys. take limit (c.out ++ ys))
                (ap
                    (λ i.
                      (shown j include_terminated limit s) i
                      ++ (shown j include_terminated limit s) (drop start' s.index))
                    (sym ids)
                  ∙ shown-page start (max limit 50))
      ]

  the_zero : ltb 0 limit ≡ false → limit ≡ 0
  the_zero h = ground (arith, h)

  -- Paging neither loses nor repeats a session while no other client writes: what is listed is the first
  -- `limit` of the records in the order of the index, without those of ended sessions unless they are
  -- asked for, and without the ids whose hash is gone. The loop ends by its tests: a fuel larger than the
  -- length of the index is enough.
  pub list_sessions-shown :
      (fuel : ℕ)
      → length s.index < fuel
      → (list_sessions j include_terminated limit (still s) fuel s).0
        ≡ take limit (shown j include_terminated limit s s.index)
  unfolding list_sessions
  list_sessions-shown fuel enough = elim (Bool-cases (ltb 0 limit)) [
    | inl some_wanted ↦
        read_pages-out fuel 0 0 (record { out = []; stale = [] }) (omega (arith, enough))
          (ground (arith, some_wanted))
    | inr none_wanted ↦
        ap (λ e. e.out) (full-read_pages fuel 0 0 (record { out = []; stale = [] }) none_wanted)
        ∙ ap (λ n. take n (shown j include_terminated limit s s.index)) (sym (the_zero none_wanted))
  ]
