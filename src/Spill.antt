-- ===== src/Spill.antt =====
-- The disk queue behind a lane, as the lane sees it: the operations of DiskSpillQueue
-- (src/internal/delivery/DiskSpillQueue.ts) that ClientLane calls.
pub mod Entry
use stream_fence_js.Prelude.{ℕ, ◌≤◌, Bool, List, length}
use stream_fence_js.Message.{LaneEntry, Heap}

pub record SpillQueue (P : Type 0) : Type 1 where
  pub State : Type 0
  pub spill : Heap → LaneEntry P → State → State
  pub has_spilled : State → Bool
  pub recover : ℕ → Heap → State → List (LaneEntry P) × Heap × State
  pub clear : State → State
  -- `files.slice(0, maxCount)` bounds what is read.
  pub recover-le : (n : ℕ) (h : Heap) (s : State) → length (recover n h s).0 ≤ n
