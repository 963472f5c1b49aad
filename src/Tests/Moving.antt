-- ===== src/Tests/Moving.antt =====
-- Events moved between stores.
use mcp_persist.Prelude.{
  ℕ, zero, suc, ◌≡◌, inl, refl, arith, Bool, true, false, List, [], ◌∷◌, ◌++◌, ◌⊎◌, Option, none,
  some, Text, codes, length, foldl, map,
}
use mcp_persist.Table.Order.{IsValid}
use mcp_persist.Sqlite.State.{SqliteStore, ok}
use mcp_persist.Sqlite.Read.{event_exists, stream_id_for_event, replay_stream}
use mcp_persist.Archive.{archive_expired_batch}
use mcp_persist.Archive.Lossless.{Stands, archive_expired_batch-Stands}
use mcp_persist.Tiered.{ChainedEventStore, replay_events_after}
use mcp_persist.Tiered.Replay.{merged, replay_events_after-merged}
use mcp_persist.Migration.{
  Reading, Reporting, Run, Listing, listing_raises, raised, returned, chosen, migrate,
}
use mcp_persist.Migration.Copies.{
  migrate_total, migrate_complete, accepting, IsCounted, IsSettled, all_events, put_all,
}
use mcp_persist.Portability.{
  Json, string, object, number, no_fields, wrong_format, export_stream, import_stream,
}
use mcp_persist.Portability.Restore.{import_stream-export_stream, import_stream_refused}
use mcp_persist.Tests.Storing.{marked, main, row_at, store}

abbrev cold : SqliteStore
cold = record store {
  ttl = none;
  db = record { table = record { rows = row_at 1 main 10 ∷ []; seq = 1 }; forks = [] };
}

abbrev hot : SqliteStore
hot = record store {
  db = record {
    table = record { rows = row_at 2 main 20 ∷ row_at 4 main 30 ∷ []; seq = 4 };
    forks = [];
  };
}

hot-IsValid : IsValid hot.db.table
hot-IsValid = (omega arith, (omega arith, omega arith))

archive_expired_batch-Stands_example :
    (k : ℕ) × (hot' : SqliteStore) × (cold' : SqliteStore) × (archive_expired_batch hot cold 10 40
      ≡ ok (k, (hot', cold')))
    × Stands (row_at 2 main 20) cold hot' cold'
archive_expired_batch-Stands_example =
    archive_expired_batch-Stands hot cold 9 40 (row_at 2 main 20) hot-IsValid refl

-- The clock goes from 38 to 50: the event of the time 30 is expired for the second batch only.
abbrev ticking : ℕ → ℕ
ticking zero = 38
ticking (suc i) = 50

abbrev chain : ChainedEventStore
chain = record { hot = hot; cold = cold }

abbrev chained : Option Text × List (ℕ × Text)
chained = replay_events_after marked chain (some 1) none 40

replay_events_after-merged_example :
    chained ≡ (some main, replay_stream marked (merged chain) 1 main 40)
replay_events_after-merged_example =
    replay_events_after-merged marked chain 1 none main 40 1 (unfold stream_id_for_event in refl)
      (unfold event_exists in refl) (unfold event_exists in refl) refl refl refl refl
      (omega arith, tt) (omega arith, (omega arith, tt)) (omega arith)

abbrev reading : Text → Reading ℕ
reading sid = record { events = some (length sid) ∷ none ∷ []; raises = false }

abbrev keep : List (Text × Option ℕ) → Text → Option ℕ → List (Text × Option ℕ)
keep kept sid message = kept ++ (sid, message) ∷ []

-- A destination that refuses every event.
abbrev refuse : List (Text × Option ℕ) → Text → Option ℕ → Bool × List (Text × Option ℕ)
refuse kept sid message = (false, kept)

abbrev reporting : Reporting
reporting = record { batch_size = 1; on_progress = true }

-- A listing that raises behind its second stream, and one that ends there.
abbrev broken_off : Listing
broken_off = record { streams = main ∷ codes "b" ∷ []; raises = true }

abbrev two_streams : Listing
two_streams = record broken_off { raises = false }

migrate_total_example :
    (ran : Run (List (Text × Option ℕ))) × IsCounted ran
      (length (chosen reading none broken_off.streams))
    × ((listing_raises none broken_off ≡ false)
          × (migrate refuse reporting reading 0 0 none broken_off [] ≡ returned ran)
        ⊎ (listing_raises none broken_off ≡ true)
          × (migrate refuse reporting reading 0 0 none broken_off [] ≡ raised ran))
migrate_total_example = migrate_total refuse reporting reading 0 0 none broken_off [] refl

migrate_complete_example :
    (ran : Run (List (Text × Option ℕ))) × (migrate
        (accepting keep)
        reporting
        reading
        0
        0
        none
        two_streams
        []
      ≡ returned ran)
    × IsSettled keep ran
        (length (chosen reading none two_streams.streams))
        (length (all_events (chosen reading none two_streams.streams)))
        []
        (put_all keep [] (all_events (chosen reading none two_streams.streams)))
migrate_complete_example =
    migrate_complete keep reporting reading 0 0 none two_streams [] refl refl (refl, (refl, tt))

-- Messages that are numbers.
abbrev validate : Json → Option ℕ
validate (number n) = some n
validate _ = none

abbrev keep_json : List (Json × Option ℕ) → Json → Option ℕ → List (Json × Option ℕ)
keep_json kept sid message = kept ++ (sid, message) ∷ []

abbrev dumped : List (Text × Option ℕ)
dumped = (codes "1", some 5) ∷ (codes "2", none) ∷ []

import_stream-export_stream_example :
    import_stream validate keep_json [] (export_stream number dumped main none 9) none
    ≡ (inl (length dumped), foldl (λ t m. keep_json t (string main) m) [] (map (λ e. e.1) dumped))
import_stream-export_stream_example =
    import_stream-export_stream number validate (λ m e. ground arith) (λ m. refl) keep_json []
      dumped 109 (codes "ain") none 9

import_stream_refused_example : (import_stream validate keep_json [] (object no_fields) none).1 ≡ []
import_stream_refused_example =
    import_stream_refused validate keep_json [] (object no_fields) none wrong_format
      (unfold import_stream in refl)
