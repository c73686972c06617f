-- ===== src/Queue.antt =====
-- server/src/queue.h and queue.cc: `Q::Queue`, the ring of entries that the driver shares with the
-- hardware, and `Q::enqueue`.
pub mod Ring
pub mod Objects
use l4rdma.Prelude.{ℕ, ◌+◌, ◌%◌, ◌^◌, ltb, if◌then◌else◌}
use l4rdma.Dma.{DmaMem}

pub record Queue : Type 0 where
  pub start : ℕ
  pub size : ℕ
  pub head : ℕ
  pub dma_mem : DmaMem

-- The slot to use, and the queue with its head moved on.
unfoldable pub enqueue : Queue → ℕ × Queue
enqueue q =
    let slot = q.head in
    let head = (q.head + 1) % 2 ^ 32 in
    (slot, record q { head = if ltb head q.size then head else 0 })
