-- ===== src/Migration.antt =====
-- src/mcp_persist/migration.py: events copied from one store to another, stream by stream. The source
-- and the destination are parameters; a store that raises says so in what it returns,
-- and `on_progress` does not raise.
pub mod Copies
use mcp_persist.Prelude.{
  ℕ, zero, suc, ◌+◌, ◌-◌, Bool, true, false, not, ◌&&◌, List, [], ◌∷◌, ◌++◌, Option, none, some,
  Text, leb, ◌==◌, if◌then◌else◌, ◌⊎◌, inl, inr,
}

-- What `_iter_stream_events` yields for a stream, and whether it raises behind its last event.
pub record Reading (Message : Type 0) : Type 0 where
  pub events : List (Option Message)
  pub raises : Bool

pub record MigrationResult : Type 0 where
  pub streams_migrated : ℕ
  pub events_migrated : ℕ
  pub failed_streams : List Text
  pub skipped_events : ℕ

-- `migrated`, `last_reported`, and the calls of `on_progress` so far.
pub record Progress : Type 0 where
  pub migrated : ℕ
  pub last_reported : ℕ
  pub reports : List (Text × ℕ)

-- `batch_size`, and whether there is an `on_progress`
pub record Reporting : Type 0 where
  pub batch_size : ℕ
  pub on_progress : Bool

abbrev pub report : Text → Progress → Progress
report sid p = record p {
  last_reported = p.migrated;
  reports = p.reports ++ (sid, p.migrated) ∷ [];
}

-- `migrated += 1`, and the report of a full batch
abbrev pub counted : Reporting → Text → Progress → Progress
counted r sid p =
    let q : Progress = record p { migrated = p.migrated + 1 } in
    if r.on_progress && leb r.batch_size (q.migrated - q.last_reported) then report sid q else q

-- The report behind the loop.
abbrev pub finished : Reporting → Text → Progress → Progress
finished r sid p = if r.on_progress && not (p.migrated == p.last_reported) then report sid p else p

-- A run's state: the destination, the result so far, and the reports.
pub record Run (D : Type 0) : Type 0 where
  pub dest : D
  pub result : MigrationResult
  pub reports : List (Text × ℕ)

-- What `list_streams` yields, and whether it raises behind its last stream.
pub record Listing : Type 0 where
  pub streams : List Text
  pub raises : Bool

-- How `migrate` ends: the batch size is refused, the listing raised after some streams were copied, or
-- it returns. Its result reaches the caller only in the last case.
pub data Outcome (D : Type 0) : Type 0 where
  refused : Outcome D
  raised : Run D → Outcome D
  returned : Run D → Outcome D

-- `list_streams` is not called where a stream is asked for.
abbrev pub listing_raises : Option Text → Listing → Bool
listing_raises none listing = listing.raises
listing_raises (some sid) listing = false

-- The streams to copy: the one asked for, or all that `list_streams` yields.
abbrev pub chosen :
    {Message : Type 0}
    → (Text → Reading Message)
    → Option Text
    → List Text
    → List (Text × Reading Message)
chosen read (some sid) streams = (sid, read sid) ∷ []
chosen read none [] = []
chosen read none (sid ∷ sids) = (sid, read sid) ∷ chosen read none sids

-- `migrate_one`
abbrev pub migrate_end :
    {D : Type 0} → Reporting → Text → Bool × (Progress × D) → Bool × (Progress × D)
migrate_end r sid (false, (p, d)) = (false, (p, d))
migrate_end r sid (true, (p, d)) = (true, (finished r sid p, d))

-- `run`
abbrev pub settled : {D : Type 0} → Text → MigrationResult → Bool × (Progress × D) → Run D
settled sid result (false, (p, d)) = record {
  dest = d;
  result = record result { failed_streams = result.failed_streams ++ sid ∷ [] };
  reports = p.reports;
}
settled sid result (true, (p, d)) = record {
  dest = d;
  result = record result {
    streams_migrated = result.streams_migrated + 1;
    events_migrated = result.events_migrated + p.migrated;
  };
  reports = p.reports;
}

module _ {Message D : Type 0} (store_event : D → Text → Option Message → Bool × D) where
  -- The loop of `migrate_one`: whether it came to the end, its counters and the destination.
  pub copy_events :
      Reporting → Text → Bool → List (Option Message) → Progress → D → Bool × (Progress × D)
  copy_events r sid raises [] p d = (not raises, (p, d))
  copy_events r sid raises (m ∷ ms) p d =
      let (stored, d') = store_event d sid m in
      elim stored [
        | false ↦ (false, (p, d'))
        | true ↦ copy_events r sid raises ms (counted r sid p) d'
      ]

  unfoldable pub migrate_one :
      Reporting → Text → Reading Message → List (Text × ℕ) → D → Bool × (Progress × D)
  unfolding copy_events
  migrate_one r sid reading reports d =
      let start : Progress = record { migrated = 0; last_reported = 0; reports = reports } in
      migrate_end r sid (copy_events r sid reading.raises reading.events start d)

  unfoldable pub run : Reporting → Text × Reading Message → Run D → Run D
  unfolding migrate_one
  run r (sid, reading) s = settled sid s.result (migrate_one r sid reading s.reports s.dest)

  pub run_all : Reporting → List (Text × Reading Message) → Run D → Run D
  unfolding run
  run_all r [] s = s
  run_all r (x ∷ xs) s = run_all r xs (run r x s)

  -- The streams of the listing, each copied as it is listed, up to where the listing ends or raises.
  pub copy_streams : Reporting → (Text → Reading Message) → Option Text → List Text → D → Run D
  unfolding run_all
  copy_streams r read stream_id streams d =
      let blank : MigrationResult = record {
        streams_migrated = 0;
        events_migrated = 0;
        failed_streams = [];
        skipped_events = 0;
      } in
      let todo = chosen read stream_id streams in
      run_all r todo (record { dest = d; result = blank; reports = [] })

  -- `migrate` behind the check of its batch size, with the source's count of unreadable events before
  -- and after the run.
  pub migrate_all :
      Reporting → (Text → Reading Message) → ℕ → ℕ → Option Text → Listing → D → Outcome D
  unfolding copy_streams
  migrate_all r read unreadable_before unreadable_after stream_id listing d =
      let ran = copy_streams r read stream_id listing.streams d in
      if listing_raises stream_id listing
      then raised ran
      else returned (record ran {
        result = record ran.result { skipped_events = unreadable_after - unreadable_before };
      })

  -- `migrate`
  unfoldable pub migrate :
      Reporting → (Text → Reading Message) → ℕ → ℕ → Option Text → Listing → D → Outcome D
  unfolding migrate_all
  migrate r read unreadable_before unreadable_after stream_id listing d =
      if r.batch_size == 0
      then refused
      else migrate_all r read unreadable_before unreadable_after stream_id listing d
