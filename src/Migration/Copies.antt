-- ===== src/Migration/Copies.antt =====
-- What reaches the destination, and how progress is reported.
use mcp_persist.Prelude.{
  ℕ, suc, ◌+◌, ◌≡◌, refl, sym, ap, ◌∙◌, arith, Bool, true, false, not, List, [], ◌∷◌, ◌++◌, Option,
  ◌-◌, ◌⊎◌, inl, inr, Bool-cases, Text, length, length-append, foldl, foldl-append, Every, ◌==◌,
}
use mcp_persist.Migration.{
  Reading, MigrationResult, Progress, Reporting, Run, counted, finished, copy_events, migrate_end,
  migrate_one, settled, run, run_all, chosen, migrate_all, migrate, Listing, listing_raises, raised,
  returned, copy_streams,
}

settled_total :
    {D : Type 0} (sid : Text) (result : MigrationResult) (out : Bool × (Progress × D))
    → (settled sid result out).result.streams_migrated
        + length (settled sid result out).result.failed_streams
      ≡ suc (result.streams_migrated + length result.failed_streams)
settled_total sid result (false, (p, d)) =
    omega (arith, length-append result.failed_streams (sid ∷ []))
settled_total sid result (true, (p, d)) = omega arith

run_all_total :
    {Message D : Type 0} (store : D → Text → Option Message → Bool × D) (r : Reporting)
    (xs : List (Text × Reading Message)) (s : Run D)
    → (run_all store r xs s).result.streams_migrated
        + length (run_all store r xs s).result.failed_streams
      ≡ (s.result.streams_migrated + length s.result.failed_streams) + length xs
unfolding run_all
run_all_total store r [] s = omega arith
run_all_total store r ((sid, reading) ∷ xs) s =
    let e : (run store r (sid, reading) s).result.streams_migrated
          + length (run store r (sid, reading) s).result.failed_streams
        ≡ suc (s.result.streams_migrated + length s.result.failed_streams) =
      unfold run in settled_total sid s.result (migrate_one store r sid reading s.reports s.dest) in
    omega (arith, e, run_all_total store r xs (run store r (sid, reading) s))

abbrev pub blank : {D : Type 0} → D → Run D
blank d = record {
  dest = d;
  result = record {
    streams_migrated = 0;
    events_migrated = 0;
    failed_streams = [];
    skipped_events = 0;
  };
  reports = [];
}

-- A run whose counts of the streams migrated and failed add up to a number.
abbrev pub IsCounted : {D : Type 0} → Run D → ℕ → Type 0
IsCounted ran n = ran.result.streams_migrated + length ran.result.failed_streams ≡ n

-- With a positive batch size, whatever raises in the copy of a stream, `migrate` goes on to the next one:
-- it returns where the listing of the streams ends, and raises, with the streams listed so far behind it,
-- exactly where the listing raises. Either way the streams migrated and the streams failed are together
-- as many as the streams chosen.
pub migrate_total :
    {Message D : Type 0} (store : D → Text → Option Message → Bool × D) (r : Reporting)
    (read : Text → Reading Message) (before after : ℕ) (stream_id : Option Text) (listing : Listing)
    (d : D)
    → (r.batch_size == 0) ≡ false
    → (ran : Run D) × IsCounted ran (length (chosen read stream_id listing.streams))
      × ((listing_raises stream_id listing ≡ false)
            × (migrate store r read before after stream_id listing d ≡ returned ran)
          ⊎ (listing_raises stream_id listing ≡ true)
            × (migrate store r read before after stream_id listing d ≡ raised ran))
unfolding migrate
migrate_total store r read before after stream_id listing d h =
    let ran = copy_streams store r read stream_id listing.streams d in
    let counts : IsCounted ran (length (chosen read stream_id listing.streams)) =
      unfold copy_streams in
      omega (arith, run_all_total store r (chosen read stream_id listing.streams) (blank d)) in
    elim (Bool-cases (listing_raises stream_id listing)) [
      | inl e ↦ (ran, counts, inr (e, unfold migrate_all in rw (h, e) refl))
      | inr e ↦ (
        record ran { result = record ran.result { skipped_events = after - before } },
        counts,
        inl (e, unfold migrate_all in rw (h, e) refl),
      )
    ]

-- The events of the readings, in the order in which they are read, each with its stream.
abbrev pub tagged : {Message : Type 0} → Text → List (Option Message) → List (Text × Option Message)
tagged sid [] = []
tagged sid (m ∷ ms) = (sid, m) ∷ tagged sid ms

abbrev pub all_events :
    {Message : Type 0} → List (Text × Reading Message) → List (Text × Option Message)
all_events [] = []
all_events ((sid, reading) ∷ xs) = tagged sid reading.events ++ all_events xs

abbrev pub Sound : {Message : Type 0} → Text × Reading Message → Type 0
Sound x = x.1.raises ≡ false

module _ {Message D : Type 0} (put : D → Text → Option Message → D) where
  abbrev pub accepting : D → Text → Option Message → Bool × D
  accepting d sid m = (true, put d sid m)

  abbrev pub put_all : D → List (Text × Option Message) → D
  put_all d es = foldl (λ d e. put d e.0 e.1) d es

  counted-migrated :
      (r : Reporting) (sid : Text) (p : Progress) → (counted r sid p).migrated ≡ suc p.migrated
  counted-migrated r sid p = ground arith

  finished-migrated :
      (r : Reporting) (sid : Text) (p : Progress) → (finished r sid p).migrated ≡ p.migrated
  finished-migrated r sid p = ground arith

  IsCopied : Bool × (Progress × D) → ℕ → D → Type 0
  IsCopied (ok, (p, d)) n d' = (ok ≡ true) × (p.migrated ≡ n) × (d ≡ d')

  copy_events-IsCopied :
      (r : Reporting) (sid : Text) (raises : Bool) (ms : List (Option Message)) (p : Progress)
      (d : D)
      → raises ≡ false
      → IsCopied
          (copy_events accepting r sid raises ms p d)
          (p.migrated + length ms)
          (put_all d (tagged sid ms))
  unfolding IsCopied copy_events
  copy_events-IsCopied r sid raises [] p d h = (ap not h, omega arith, refl)
  copy_events-IsCopied r sid raises (m ∷ ms) p d h =
      let ih : IsCopied (copy_events accepting r sid raises ms (counted r sid p) (put d sid m))
          ((counted r sid p).migrated + length ms) (put_all (put d sid m) (tagged sid ms)) =
        copy_events-IsCopied r sid raises ms (counted r sid p) (put d sid m) h in
      (ih.0, omega (arith, ih.1, counted-migrated r sid p), ih.2)

  migrate_end-IsCopied :
      (r : Reporting) (sid : Text) (out : Bool × (Progress × D)) (n : ℕ) (d : D)
      → IsCopied out n d
      → IsCopied (migrate_end r sid out) n d
  unfolding IsCopied
  migrate_end-IsCopied r sid (false, (p, d')) n d h = h
  migrate_end-IsCopied r sid (true, (p, d')) n d h = (refl, finished-migrated r sid p ∙ h.1, h.2)

  -- What a run of sound streams leaves: counters and destination.
  pub IsSettled : Run D → ℕ → ℕ → List Text → D → Type 0
  IsSettled s streams events failed d =
      (s.result.streams_migrated ≡ streams)
      × (s.result.events_migrated ≡ events)
      × (s.result.failed_streams ≡ failed)
      × (s.dest ≡ d)

  settled-IsSettled :
      (sid : Text) (result : MigrationResult) (out : Bool × (Progress × D)) (n : ℕ) (d : D)
      → IsCopied out n d
      → IsSettled
          (settled sid result out)
          (suc result.streams_migrated)
          (result.events_migrated + n)
          result.failed_streams
          d
  unfolding IsCopied IsSettled
  settled-IsSettled sid result (false, (p, d')) n d h = ground (arith, h.0)
  settled-IsSettled sid result (true, (p, d')) n d h = (omega arith, omega (arith, h.1), refl, h.2)

  run-IsSettled :
      (r : Reporting) (sid : Text) (reading : Reading Message) (s : Run D)
      → reading.raises ≡ false
      → IsSettled
          (run accepting r (sid, reading) s)
          (suc s.result.streams_migrated)
          (s.result.events_migrated + (0 + length reading.events))
          s.result.failed_streams
          (put_all s.dest (tagged sid reading.events))
  unfolding run
  run-IsSettled r sid reading s h =
      settled-IsSettled sid s.result _ (0 + length reading.events)
        (put_all s.dest (tagged sid reading.events))
        (unfold migrate_one in
          migrate_end-IsCopied r sid _ (0 + length reading.events)
            (put_all s.dest (tagged sid reading.events))
            (copy_events-IsCopied r sid reading.raises reading.events
              (record { migrated = 0; last_reported = 0; reports = s.reports }) s.dest h))

  length-tagged : (sid : Text) (ms : List (Option Message)) → length (tagged sid ms) ≡ length ms
  length-tagged sid [] = refl
  length-tagged sid (m ∷ ms) = ap suc (length-tagged sid ms)

  run_all-IsSettled :
      (r : Reporting) (xs : List (Text × Reading Message)) (s : Run D)
      → Every Sound xs
      → IsSettled
          (run_all accepting r xs s)
          (s.result.streams_migrated + length xs)
          (s.result.events_migrated + length (all_events xs))
          s.result.failed_streams
          (put_all s.dest (all_events xs))
  unfolding run_all IsSettled
  run_all-IsSettled r [] s h = (omega arith, omega arith, refl, refl)
  run_all-IsSettled r ((sid, reading) ∷ xs) s h =
      let one : IsSettled (run accepting r (sid, reading) s) (suc s.result.streams_migrated)
          (s.result.events_migrated + (0 + length reading.events)) s.result.failed_streams
          (put_all s.dest (tagged sid reading.events)) =
        run-IsSettled r sid reading s h.0 in
      let rest : IsSettled (run_all accepting r xs (run accepting r (sid, reading) s)) _ _ _ _ =
        run_all-IsSettled r xs (run accepting r (sid, reading) s) h.1 in
      (
        omega (arith, one.0, rest.0),
        omega (
          arith,
          one.1,
          rest.1,
          length-tagged sid reading.events,
          length-append (tagged sid reading.events) (all_events xs),
        ),
        rest.2 ∙ one.2,
        rest.3
            ∙ ap (λ e. put_all e (all_events xs)) one.3
            ∙ sym (
                foldl-append (λ e x. put e x.0 x.1) s.dest (tagged sid reading.events)
                  (all_events xs)),
      )

  -- Where the source lists its streams without raising and reads every chosen one to its end, and the
  -- destination accepts every event, `migrate` returns and all events of all chosen streams are stored,
  -- stream by stream and each in the order of its stream; every stream and every event is counted, and
  -- none failed. The batch size is positive.
  pub migrate_complete :
      (r : Reporting) (read : Text → Reading Message) (before after : ℕ) (stream_id : Option Text)
      (listing : Listing) (d : D)
      → (r.batch_size == 0) ≡ false
      → listing_raises stream_id listing ≡ false
      → Every Sound (chosen read stream_id listing.streams)
      → (ran : Run D) × (migrate accepting r read before after stream_id listing d ≡ returned ran)
        × IsSettled ran
            (length (chosen read stream_id listing.streams))
            (length (all_events (chosen read stream_id listing.streams)))
            []
            (put_all d (all_events (chosen read stream_id listing.streams)))
  unfolding migrate
  migrate_complete r read before after stream_id listing d h listed sound =
      let ran = copy_streams accepting r read stream_id listing.streams d in
      (
        record ran { result = record ran.result { skipped_events = after - before } },
        unfold migrate_all in rw (h, listed) refl,
        unfold copy_streams IsSettled in
            let done =
              run_all-IsSettled r (chosen read stream_id listing.streams) (blank d) sound in
            (omega (arith, done.0), omega (arith, done.1), done.2, done.3),
      )
