-- ===== src/Batching/Bounds.antt =====
-- The bound on the backlog while the wrapped store takes every write.
use mcp_persist.Prelude.{ℕ, ◌≤◌, ◌≡◌, List, Option, some, length}
use mcp_persist.Batching.{PendingWrite, Backend, Batcher}

module _ {Message S : Type 0} (b : Backend Message S) where
  -- No write raises, of one event or of a batch.
  pub record IsUp : Type 0 where
    pub stores : (s : S) (w : PendingWrite Message) → (s' : S) × (b.store_with_id s w ≡ some s')
    pub stores_batch :
        (f : S → List (PendingWrite Message) → Option S) (s : S)
        (batch : List (PendingWrite Message))
        → b.store_batch ≡ some f
        → (s' : S) × (f s batch ≡ some s')

  -- What waits, and what is in flight, are each within `max_pending`, which is `n`.
  pub record IsBounded (n : ℕ) (s : Batcher Message S) : Type 0 where
    pub limit : s.max_pending ≡ n
    pub waiting : length s.pending ≤ n
    pub flying : (batch : List (PendingWrite Message)) → s.in_flight ≡ some batch → length batch ≤ n
