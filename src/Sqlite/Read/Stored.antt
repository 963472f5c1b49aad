-- ===== src/Sqlite/Read/Stored.antt =====
-- A stored message is replayed, last and once; what is stored elsewhere, or deleted as expired, makes
-- no difference.
use mcp_persist.Prelude.{
  ℕ, ◌+◌, ◌≤◌, ◌<◌, ◌≡◌, ◌≢◌, refl, ap, sym, subst, ◌∙◌, true, false, List, [], ◌∷◌, ◌++◌,
  append-nil, append_assoc, Option, none, some, arith, Text, text_eq, text_eq_iff, text_eq_refl,
  lt→ltb, filter, filter-append, filter_map, filter_map-append, filter_map_one, Every, Every-mono,
  inl, inr, Bool-cases,
}
use mathlib.Core.List.{reverse}
use mcp_persist.Table.{Row, insert, in_scope}
use mcp_persist.Sqlite.State.{Codec, IsFaithful, SqliteStore}
use mcp_persist.Sqlite.Write.{store_event}
use mcp_persist.Sqlite.Write.Laws.{new_row, store_event-insert}
use mcp_persist.Sqlite.Forks.{Segment, get_stream_segments}
use mcp_persist.Sqlite.Forks.Chains.{
  BoundedBy, MinBelow, ForksBelow, get_stream_segments-IsSegmented,
}
use mcp_persist.Sqlite.Read.{
  ttl_cutoff, at_least, low_id, is_past, delivered, replay_segment, replay_segments, replay_stream,
}
use mcp_persist.Sqlite.Read.Segments.{wanted, replay_segments-append, replay_segments-snoc}

module _ {Message : Type 0} (codec : Codec Message) where
  -- A replay after `store_event`, in terms of the row that it adds.
  pub replay_stream-store_event :
      (s : SqliteStore) (stream : Text) (message : Option Message) (now : ℕ) (anchor : ℕ)
      (other : Text) (later : ℕ)
      → replay_stream codec (store_event codec s stream message now).1 anchor other later
        ≡ replay_segments codec s.tenant_id
            (ttl_cutoff s.ttl later)
            anchor
            (s.db.table.rows ++ new_row codec s stream message now ∷ [])
            (get_stream_segments s.db.forks other)
  unfolding replay_stream insert
  replay_stream-store_event s stream message now anchor other later =
      let (_, table, forks, tenant, ttl) = store_event-insert codec s stream message now in
      rw (table, forks, tenant, ttl)

  in_scope_self : (tenant : Option Text) (r : Row) → r.tenant_id ≡ tenant → in_scope tenant r ≡ true
  in_scope_self none r e = refl
  in_scope_self (some t) r e = rw e (text_eq_refl t)

  BoundedBy-unwanted :
      (tenant : Option Text) (cutoff : Option ℕ) (anchor hi : ℕ) (r : Row) (seg : Segment)
      → hi < r.event_id
      → BoundedBy hi seg
      → wanted tenant cutoff anchor seg r ≡ false
  BoundedBy-unwanted tenant cutoff anchor hi r seg lt (m, e, le) = ground (arith, e)

  low_id-lt :
      (anchor hi : ℕ) (min : Option ℕ) (id : ℕ)
      → anchor ≤ hi
      → MinBelow hi min
      → hi < id
      → low_id anchor min < id
  low_id-lt anchor hi none id a m lt = omega arith
  low_id-lt anchor hi (some b) id a m lt = ground arith

  own_wanted :
      (tenant : Option Text) (cutoff : Option ℕ) (anchor hi : ℕ) (r : Row) (seg : Segment)
      → r.stream_id ≡ seg.stream
      → r.tenant_id ≡ tenant
      → seg.max_id ≡ none
      → MinBelow hi seg.min_id
      → anchor ≤ hi
      → hi < r.event_id
      → at_least cutoff r.created_at ≡ true
      → wanted tenant cutoff anchor seg r ≡ true
  own_wanted tenant cutoff anchor hi r seg on t open_end min a lt alive =
      rw
        (
          (text_eq_iff r.stream_id seg.stream).1 on,
          in_scope_self tenant r t,
          lt→ltb _ _ (low_id-lt anchor hi seg.min_id r.event_id a min lt),
          open_end,
        )
        alive

  delivered_new :
      (c : IsFaithful codec) (stream : Text) (m : Message) (r : Row)
      → r.payload ≡ codec.encode stream m
      → delivered codec stream r ≡ some (r.event_id, m)
  delivered_new c stream m r e = ground (arith, c.encode_ne stream m, c.decode_encode stream m)

  replay_segment_own :
      (c : IsFaithful codec) (tenant : Option Text) (cutoff : Option ℕ) (anchor : ℕ)
      (rows : List Row) (r : Row) (m : Message) (seg : Segment)
      → seg.max_id ≡ none
      → wanted tenant cutoff anchor seg r ≡ true
      → r.payload ≡ codec.encode seg.stream m
      → replay_segment codec tenant cutoff anchor (rows ++ r ∷ []) seg
        ≡ replay_segment codec tenant cutoff anchor rows seg ++ (r.event_id, m) ∷ []
  replay_segment_own c tenant cutoff anchor rows r m seg open_end w e =
      let past : is_past seg.max_id (low_id anchor seg.min_id) ≡ false =
        ap (λ (o : Option ℕ). is_past o (low_id anchor seg.min_id)) open_end in
      rw
        (
          past,
          filter-append (wanted tenant cutoff anchor seg) rows (r ∷ []),
          w,
          filter_map-append (delivered codec seg.stream)
              (filter (wanted tenant cutoff anchor seg) rows) (r ∷ []),
        )
        (ap
          (λ (ys : List (ℕ × Message)).
            filter_map (delivered codec seg.stream) (filter (wanted tenant cutoff anchor seg) rows)
            ++ ys)
          (filter_map_one (delivered codec seg.stream) r (delivered_new c seg.stream m r e)))

  -- A message stored on a stream, forked or not, is what a replay of the stream hands over last, once
  -- and under the id that `store_event` returned; what the replay handed over before is unchanged.
  -- Decoding undoes encoding, neither the client's event nor a fork point lies behind the table's
  -- sequence, and the new event has not expired at the time of the replay.
  pub replay_stream-stored :
      (c : IsFaithful codec) (s : SqliteStore) (stream : Text) (m : Message) (now : ℕ) (anchor : ℕ)
      (later : ℕ)
      → ForksBelow s.db.table.seq s.db.forks
      → anchor ≤ s.db.table.seq
      → at_least (ttl_cutoff s.ttl later) now ≡ true
      → replay_stream codec (store_event codec s stream (some m) now).1 anchor stream later
        ≡ replay_stream codec s anchor stream later
          ++ ((store_event codec s stream (some m) now).0, m) ∷ []
  replay_stream-stored c s stream m now anchor later below a alive =
      let r = new_row codec s stream (some m) now in
      let hi = s.db.table.seq in
      let cut = ttl_cutoff s.ttl later in
      let g = get_stream_segments-IsSegmented hi s.db.forks stream below in
      let tenant = s.tenant_id in
      let rows = s.db.table.rows in
      let old : List Segment = reverse g.ancestors in
      let wants : wanted tenant cut anchor g.own r ≡ true =
        own_wanted tenant cut anchor hi r g.own (sym g.own_stream) refl g.own_max g.own_min a
          (omega arith) alive in
      rw
        (
          replay_stream-store_event s stream (some m) now anchor stream later,
          (store_event-insert codec s stream (some m) now).0,
        )
        (unfold replay_stream insert in
          rw
            (
              g.segments,
              replay_segments-append codec tenant cut anchor (rows ++ r ∷ []) old (g.own ∷ []),
              replay_segments-append codec tenant cut anchor rows old (g.own ∷ []),
              replay_segments-snoc codec tenant cut anchor rows r old (
                  Every-mono (BoundedBy hi) _ old
                    (λ seg b. BoundedBy-unwanted tenant cut anchor hi r seg (omega arith) b)
                    g.bounded),
            )
            (unfold replay_segments in
              rw (
                append-nil,
                append-nil,
                replay_segment_own c tenant cut anchor rows r m g.own g.own_max wants
                    (ap (λ t. codec.encode t m) (sym g.own_stream)),
                append_assoc,
              )))

  foreign_unwanted :
      (tenant : Option Text) (cutoff : Option ℕ) (anchor : ℕ) (r : Row) (seg : Segment)
      → seg.stream ≢ r.stream_id
      → wanted tenant cutoff anchor seg r ≡ false
  foreign_unwanted tenant cutoff anchor r seg ne =
      elim (Bool-cases (text_eq r.stream_id seg.stream)) [
        | inl same ↦ absurd (ne (sym ((text_eq_iff r.stream_id seg.stream).0 same)))
        | inr other ↦ rw other
      ]

  -- An event stored on a stream that is neither the replayed one nor an ancestor of it does not change
  -- the replay.
  pub replay_stream_elsewhere :
      (s : SqliteStore) (stream : Text) (message : Option Message) (now : ℕ) (anchor : ℕ)
      (other : Text) (later : ℕ)
      → Every (λ seg. seg.stream ≢ stream) (get_stream_segments s.db.forks other)
      → replay_stream codec (store_event codec s stream message now).1 anchor other later
        ≡ replay_stream codec s anchor other later
  replay_stream_elsewhere s stream message now anchor other later apart =
      let r = new_row codec s stream message now in
      let cut = ttl_cutoff s.ttl later in
      let segs = get_stream_segments s.db.forks other in
      replay_stream-store_event s stream message now anchor other later
      ∙ unfold replay_stream in
        replay_segments-snoc codec s.tenant_id cut anchor s.db.table.rows r segs (
          Every-mono (λ seg. seg.stream ≢ stream) _ segs
            (λ seg ne. foreign_unwanted s.tenant_id cut anchor r seg ne) apart)

  other_tenant_unwanted :
      (t u : Text) (cutoff : Option ℕ) (anchor : ℕ) (r : Row) (seg : Segment)
      → r.tenant_id ≡ some u
      → t ≢ u
      → wanted (some t) cutoff anchor seg r ≡ false
  other_tenant_unwanted t u cutoff anchor r seg e ne = elim (Bool-cases (text_eq t u)) [
    | inl same ↦ absurd (ne ((text_eq_iff t u).0 same))
    | inr other ↦ ground (arith, e, other)
  ]

  wanted_none :
      (t u : Text) (cutoff : Option ℕ) (anchor : ℕ) (r : Row) (segs : List Segment)
      → r.tenant_id ≡ some u
      → t ≢ u
      → Every (λ seg. wanted (some t) cutoff anchor seg r ≡ false) segs
  wanted_none t u cutoff anchor r [] e ne = tt
  wanted_none t u cutoff anchor r (seg ∷ segs) e ne = (
    other_tenant_unwanted t u cutoff anchor r seg e ne,
    wanted_none t u cutoff anchor r segs e ne,
  )

  -- Two stores of different tenants, both with one, share a database: what one stores, on whatever
  -- stream, does not change what the other replays.
  pub replay_stream-tenant :
      (s o : SqliteStore) (t u : Text) (stream : Text) (message : Option Message) (now : ℕ)
      (anchor : ℕ) (other : Text) (later : ℕ)
      → s.tenant_id ≡ some t
      → o.tenant_id ≡ some u
      → t ≢ u
      → o.db ≡ s.db
      → replay_stream codec
          (record s { db = (store_event codec o stream message now).1.db })
          anchor
          other
          later
        ≡ replay_stream codec s anchor other later
  replay_stream-tenant s o t u stream message now anchor other later st ot ne shared =
      let (_, table, forks, _, _) = store_event-insert codec o stream message now in
      let cut = ttl_cutoff s.ttl later in
      let r : Row = record (new_row codec o stream message now) { event_id = s.db.table.seq + 1 } in
      let segs = get_stream_segments s.db.forks other in
      unfold replay_stream insert in
      rw (table, forks, shared)
        (replay_segments-snoc codec s.tenant_id cut anchor s.db.table.rows r segs (
          subst (λ (x : Option Text). Every (λ seg. wanted x cut anchor seg r ≡ false) segs)
            (sym st) (wanted_none t u cut anchor r segs ot ne)))
