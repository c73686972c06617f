-- ===== src/Event/Ownership.antt =====
-- server/src/event.cc: which entries of an event queue belong to the hardware at the start, in
-- which order they are read, and what CREATE_EQ is told.
use l4rdma.Prelude.{
  ℕ, zero, suc, ◌+◌, ◌-◌, ◌%◌, ◌<◌, ◌≡◌, refl, true, ◌&&◌, leb, ltb, ◌==◌, if◌then◌else◌, arith,
}
use l4rdma.Bits.{bit_and-low1}
use l4rdma.Io.{Memory, iowrite32be, ioread32be}
use l4rdma.Io.Endian.{ioread32be-iowrite32be}
use l4rdma.Queue.{Queue}
use l4rdma.Queue.Ring.{IsRing, enqueue_times, enqueue-enqueue_times, start-enqueue_times}
use l4rdma.Event.{eqe, eqe_ctrl, init_loop, init_eq, owned_by_hw, eqe_words, read_entry}

-- Register `eqe_ctrl` of entry `j` after the loop.
init_loop-ctrl :
    (m : Memory) (start i rounds j : ℕ)
    → ioread32be (init_loop m start i rounds) (eqe start j + eqe_ctrl)
      ≡ (if leb i j && ltb j (i + rounds) then 1 else ioread32be m (eqe start j + eqe_ctrl))
unfolding init_loop
init_loop-ctrl m start i zero j = ground arith
init_loop-ctrl m start i (suc rounds) j = ground (
  arith,
  init_loop-ctrl (iowrite32be m (eqe start i + eqe_ctrl) 0x1) start (i + 1) rounds j,
  ioread32be-iowrite32be m (eqe start i + eqe_ctrl) 1 (eqe start j + eqe_ctrl),
)

-- After `init_eq` the hardware owns every entry but the last one, whose owner is as the memory said
-- before.
pub init_eq-owned_by_hw :
    (m : Memory) (q : Queue) (j : ℕ)
    → j < q.size
    → owned_by_hw (init_eq m q) (record q { head = j })
      ≡ (if j + 1 == q.size then owned_by_hw m (record q { head = j }) else true)
unfolding init_eq owned_by_hw
init_eq-owned_by_hw m q j inside =
    ground (arith, init_loop-ctrl m q.start 0 (q.size - 1) j, bit_and-low1 1)

-- The event that is read after `n` others is the entry `n` places behind the head, around the ring.
pub read_entry-enqueue_times :
    (m : Memory) (n : ℕ) (q : Queue)
    → IsRing q
    → (read_entry m (enqueue_times n q)).0 ≡ eqe_words m (eqe q.start ((q.head + n) % q.size)) 0 7
unfolding read_entry
read_entry-enqueue_times m n q h = rw (enqueue-enqueue_times n q h, start-enqueue_times n q) refl
