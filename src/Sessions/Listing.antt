-- ===== src/Sessions/Listing.antt =====
-- src/mcp_persist/sessions.py, `RedisSessionRegistry.list_sessions`: the index read in pages, newest
-- first, until there are enough records.
use mcp_persist.Prelude.{
  ℕ, zero, suc, ◌+◌, max, Bool, not, ◌&&◌, List, [], ◌∷◌, ◌++◌, Option, none, some, Text, ltb, leb,
  if◌then◌else◌, length, take, drop,
}
use mcp_persist.Sessions.{JsonText, SessionRecord}
use mcp_persist.Sessions.Redis.{Redis, Hash, get, record_of_hash, exec_all, zrem_commands}

-- What is collected, and the ids whose hash is gone.
pub record Collected (Object : Type 0) : Type 0 where
  pub out : List (SessionRecord Object)
  pub stale : List Text

-- What the commands of a listing see: the index when a page of it is read, and the hash of an id of that
-- page when it is. Other clients can write between any two of them.
pub record Views : Type 0 where
  pub index : ℕ → List (Text × ℕ)
  pub hashes : ℕ → Text → Option Hash

-- No other client writes during the listing.
abbrev pub still : Redis → Views
still s = record { index = λ i. s.index; hashes = λ i. s.hashes }

module _ {Object : Type 0} (j : JsonText Object) (include_terminated : Bool) (limit : ℕ) where
  -- `record.terminated and not include_terminated`
  abbrev pub is_hidden : SessionRecord Object → Bool
  is_hidden r = r.terminated && not include_terminated

  -- What a record adds, with the rest of the page to read.
  abbrev pub collect :
      (List (SessionRecord Object) → List Text → Collected Object)
      → Text
      → List (SessionRecord Object)
      → List Text
      → Option (SessionRecord Object)
      → Collected Object
  collect again id out stale none = again out (stale ++ id ∷ [])
  collect again id out stale (some r) =
      if is_hidden r
      then again out stale
      else if leb limit (length (out ++ r ∷ []))
      then record { out = out ++ r ∷ []; stale = stale }
      else again (out ++ r ∷ []) stale

  -- One page.
  unfoldable pub read_page :
      (Text → Option Hash)
      → List (Text × ℕ)
      → List (SessionRecord Object)
      → List Text
      → Collected Object
  read_page hashes [] out stale = record { out = out; stale = stale }
  read_page hashes (m ∷ ms) out stale =
      collect (λ out' stale'. read_page hashes ms out' stale') m.0 out stale
        (record_of_hash j m.0 (hashes m.0))

  -- The loop from the offset `start` on, with the number of pages already read.
  unfoldable pub read_pages : Views → ℕ → ℕ → ℕ → Collected Object → Collected Object
  unfolding read_page
  read_pages v zero pages start c = c
  read_pages v (suc fuel) pages start c =
      let page = max limit 50 in
      let ids = take page (drop start (v.index pages)) in
      let rest =
        read_pages v fuel (suc pages) (start + page)
          (read_page (v.hashes pages) ids c.out c.stale) in
      if ltb (length c.out) limit then elim ids [ [] ↦ c | m ∷ ms ↦ rest ] else c

  -- The records, and Redis, as it is then, without the stale members.
  unfoldable pub list_sessions : Views → ℕ → Redis → List (SessionRecord Object) × Redis
  unfolding read_pages exec_all
  list_sessions v fuel last =
      let c = read_pages v fuel 0 0 (record { out = []; stale = [] }) in
      (c.out, exec_all (zrem_commands c.stale) last)

  -- The records of an index that are shown, newest first.
  abbrev pub add_shown :
      Option (SessionRecord Object) → List (SessionRecord Object) → List (SessionRecord Object)
  add_shown none rs = rs
  add_shown (some r) rs = if is_hidden r then rs else r ∷ rs

  abbrev pub shown : Redis → List (Text × ℕ) → List (SessionRecord Object)
  shown s [] = []
  shown s (m ∷ ms) = add_shown (get j s m.0) (shown s ms)
