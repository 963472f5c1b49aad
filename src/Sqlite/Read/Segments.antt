-- ===== src/Sqlite/Read/Segments.antt =====
-- What a replay hands over, segment by segment.
use mcp_persist.Prelude.{
  ℕ, ◌≤◌, ◌<◌, ◌≡◌, refl, ap₂, Bool, true, false, List, [], ◌∷◌, ◌++◌, append-nil, append_assoc,
  Option, none, some, arith, Text, text_eq_iff, if◌then◌else◌, filter, filter-append, filter_map,
  filter-filter_absorb, Every-filter_map-filter, Every, Every-append, Elem, inl, inr,
}
use mcp_persist.Table.{Row, in_scope}
use mcp_persist.Sqlite.State.{Codec, SqliteStore}
use mcp_persist.Sqlite.Forks.{Segment, get_stream_segments}
use mcp_persist.Sqlite.Read.{
  ttl_cutoff, at_least, at_most, low_id, is_past, selected, delivered, replay_segment,
  replay_segments, replay_stream,
}

abbrev pub wanted : Option Text → Option ℕ → ℕ → Segment → Row → Bool
wanted tenant cutoff anchor seg = selected tenant cutoff seg (low_id anchor seg.min_id)

module _ {Message : Type 0} (codec : Codec Message) where
  -- Where an event that a replay delivers comes from: a row behind the client's event, in one of the
  -- segments and in the store's scope, not expired, whose payload decodes to the message.
  pub record IsReplayed (tenant : Option Text) (cutoff : Option ℕ) (anchor : ℕ) (rows : List Row)
      (segs : List Segment) (e : ℕ × Message) : Type 0 where
    pub row : Row
    pub stored : Elem row rows
    pub segment : Segment
    pub in_chain : Elem segment segs
    pub stream : row.stream_id ≡ segment.stream
    pub upper : at_most segment.max_id row.event_id ≡ true
    pub id : row.event_id ≡ e.0
    pub later : anchor < e.0
    pub scope : in_scope tenant row ≡ true
    pub alive : at_least cutoff row.created_at ≡ true
    pub message : codec.decode row.stream_id row.payload ≡ some e.1

  delivered-eq-some :
      (stream : Text) (r : Row) (e : ℕ × Message)
      → delivered codec stream r ≡ some e
      → (r.event_id ≡ e.0) × (codec.decode stream r.payload ≡ some e.1)
  delivered-eq-some stream r e d = ground arith

  low_id-le : (anchor : ℕ) (min : Option ℕ) → anchor ≤ low_id anchor min
  low_id-le anchor none = omega arith
  low_id-le anchor (some m) = ground arith

  module _ (tenant : Option Text) (cutoff : Option ℕ) (anchor : ℕ) (rows : List Row) where
    deliver_sound :
        (segs : List Segment) (seg : Segment) (r : Row)
        → Elem seg segs
        → Elem r rows
        → wanted tenant cutoff anchor seg r ≡ true
        → (e : ℕ × Message) → delivered codec seg.stream r ≡ some e
        → IsReplayed tenant cutoff anchor rows segs e
    deliver_sound segs seg r n m w e d =
        let (id, decoded) = delivered-eq-some seg.stream r e d in
        let on : r.stream_id ≡ seg.stream = (text_eq_iff r.stream_id seg.stream).0 (ground arith) in
        record {
          row = r;
          stored = m;
          segment = seg;
          in_chain = n;
          stream = on;
          upper = ground arith;
          id = id;
          later = ground (arith, low_id-le anchor seg.min_id);
          scope = ground arith;
          alive = ground arith;
          message = rw on decoded;
        }

    segment_sound :
        (segs : List Segment) (seg : Segment)
        → Elem seg segs
        → Every
            (IsReplayed tenant cutoff anchor rows segs)
            (replay_segment codec tenant cutoff anchor rows seg)
    segment_sound segs seg n =
        elim (is_past seg.max_id (low_id anchor seg.min_id))
          as (λ b. Every (IsReplayed tenant cutoff anchor rows segs) (
            if b
            then []
            else filter_map (delivered codec seg.stream)
                (filter (wanted tenant cutoff anchor seg) rows))) [
                  | true ↦ tt
                  | false ↦
                      Every-filter_map-filter _ (delivered codec seg.stream)
                        (wanted tenant cutoff anchor seg) rows
                        (λ r m w e d. deliver_sound segs seg r n m w e d)
                ]

    segments_sound :
        (all segs : List Segment)
        → ((seg : Segment) → Elem seg segs → Elem seg all)
        → Every
            (IsReplayed tenant cutoff anchor rows all)
            (replay_segments codec tenant cutoff anchor rows segs)
    unfolding replay_segments
    segments_sound all [] incl = tt
    segments_sound all (seg ∷ segs) incl =
        Every-append _ (replay_segment codec tenant cutoff anchor rows seg) _
          (segment_sound all seg (incl seg (inl refl)))
          (segments_sound all segs (λ g m. incl g (inr m)))

  -- Every event of a replay is a stored event of one of the stream's segments, no later than the upper
  -- bound of the segment, behind the client's event, in the store's scope, not expired, and decoded from
  -- its payload.
  pub replay_stream-IsReplayed :
      (s : SqliteStore) (anchor : ℕ) (stream : Text) (now : ℕ)
      → Every
          (IsReplayed s.tenant_id
            (ttl_cutoff s.ttl now)
            anchor
            s.db.table.rows
            (get_stream_segments s.db.forks stream))
          (replay_stream codec s anchor stream now)
  unfolding replay_stream
  replay_stream-IsReplayed s anchor stream now =
      segments_sound s.tenant_id (ttl_cutoff s.ttl now) anchor s.db.table.rows
        (get_stream_segments s.db.forks stream) (get_stream_segments s.db.forks stream) (λ g m. m)

  pub replay_segments-append :
      (tenant : Option Text) (cutoff : Option ℕ) (anchor : ℕ) (rows : List Row)
      (xs ys : List Segment)
      → replay_segments codec tenant cutoff anchor rows (xs ++ ys)
        ≡ replay_segments codec tenant cutoff anchor rows xs
          ++ replay_segments codec tenant cutoff anchor rows ys
  unfolding replay_segments
  replay_segments-append tenant cutoff anchor rows [] ys = refl
  replay_segments-append tenant cutoff anchor rows (x ∷ xs) ys =
      rw (replay_segments-append tenant cutoff anchor rows xs ys, append_assoc)

  -- A row that a segment does not want makes no difference to its replay.
  pub replay_segment-snoc :
      (tenant : Option Text) (cutoff : Option ℕ) (anchor : ℕ) (rows : List Row) (r : Row)
      (seg : Segment)
      → wanted tenant cutoff anchor seg r ≡ false
      → replay_segment codec tenant cutoff anchor (rows ++ r ∷ []) seg
        ≡ replay_segment codec tenant cutoff anchor rows seg
  replay_segment-snoc tenant cutoff anchor rows r seg h =
      rw (filter-append (wanted tenant cutoff anchor seg) rows (r ∷ []), h, append-nil)

  pub replay_segments-snoc :
      (tenant : Option Text) (cutoff : Option ℕ) (anchor : ℕ) (rows : List Row) (r : Row)
      (segs : List Segment)
      → Every (λ seg. wanted tenant cutoff anchor seg r ≡ false) segs
      → replay_segments codec tenant cutoff anchor (rows ++ r ∷ []) segs
        ≡ replay_segments codec tenant cutoff anchor rows segs
  unfolding replay_segments
  replay_segments-snoc tenant cutoff anchor rows r [] h = refl
  replay_segments-snoc tenant cutoff anchor rows r (seg ∷ segs) h =
      ap₂ ◌++◌ (replay_segment-snoc tenant cutoff anchor rows r seg h.0)
        (replay_segments-snoc tenant cutoff anchor rows r segs h.1)

  -- Rows that no segment can want, taken out beforehand, make no difference either.
  pub replay_segments-filter :
      (tenant : Option Text) (cutoff : Option ℕ) (anchor : ℕ) (rows : List Row) (q : Row → Bool)
      (segs : List Segment)
      → ((seg : Segment) (r : Row) → wanted tenant cutoff anchor seg r ≡ true → q r ≡ true)
      → replay_segments codec tenant cutoff anchor (filter q rows) segs
        ≡ replay_segments codec tenant cutoff anchor rows segs
  unfolding replay_segments
  replay_segments-filter tenant cutoff anchor rows q [] h = refl
  replay_segments-filter tenant cutoff anchor rows q (seg ∷ segs) h = rw (
    filter-filter_absorb (wanted tenant cutoff anchor seg) q (h seg) rows,
    replay_segments-filter tenant cutoff anchor rows q segs h,
  )
