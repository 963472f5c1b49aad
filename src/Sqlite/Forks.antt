-- ===== src/Sqlite/Forks.antt =====
-- sqlite.py, `_get_stream_segments`: a forked stream as the pieces of its ancestors.
pub mod Chains
use mcp_persist.Prelude.{
  ℕ, zero, suc, ◌+◌, Bool, true, false, List, [], ◌∷◌, Option, none, some, Text, text_eq,
  if◌then◌else◌, any, find?, length,
}
use mathlib.Core.List.{reverse}
use mcp_persist.Sqlite.State.{Fork}

-- The rows of `stream` with `min_id < event_id ≤ max_id`.
pub record Segment : Type 0 where
  pub stream : Text
  pub min_id : Option ℕ
  pub max_id : Option ℕ

abbrev pub find_fork : List Fork → Text → Option Fork
find_fork forks child = find? (λ f. text_eq f.child child) forks

-- The loop, from the stream up to its root; `none` if the fuel runs out.
pub walk : ℕ → List Fork → List Text → Text → Option ℕ → Option (List Segment)
walk zero forks visited current max_id = none
walk (suc fuel) forks visited current max_id =
    let last : Segment = record { stream = current; min_id = none; max_id = max_id } in
    if any (text_eq current) visited then some (last ∷ []) else elim (find_fork forks current) [
      | none ↦ some (last ∷ [])
      | some f ↦ elim (walk fuel forks (current ∷ visited) f.parent (some f.event_id)) [
        | none ↦ none
        | some rest ↦
            some (record { stream = current; min_id = some f.event_id; max_id = max_id } ∷ rest)
      ]
    ]

abbrev pub or_empty : Option (List Segment) → List Segment
or_empty none = []
or_empty (some l) = l

-- `_get_stream_segments`: no stream is walked twice, so the forks bound the turns.
unfoldable pub get_stream_segments : List Fork → Text → List Segment
unfolding walk
get_stream_segments forks stream = reverse (or_empty (walk (length forks + 1) forks [] stream none))
