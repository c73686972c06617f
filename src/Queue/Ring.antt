-- ===== src/Queue/Ring.antt =====
-- server/src/queue.cc: `enqueue` hands out the slots of the ring in turn.
use native.Mathlib.Decide.{dec_lt}
use native.Mathlib.Nat.{add-zero, mod-eq_of_lt, mod-add-mod, mod_self}
use l4rdma.Prelude.{ℕ, zero, suc, ◌+◌, ◌%◌, ◌^◌, ◌≤◌, ◌<◌, ◌≡◌, refl, sym, ap, ◌∙◌, arith}
use l4rdma.Queue.{Queue, enqueue}

-- The head names an entry, and the size fits the 32-bit head.
pub record IsRing (q : Queue) : Type 0 where
  pub head_in : q.head < q.size
  pub size_fits : q.size ≤ 2 ^ 32

pub enqueue-IsRing : (q : Queue) → IsRing q → IsRing (enqueue q).1
unfolding enqueue
enqueue-IsRing q h = ground arith

pub head-enqueue : (q : Queue) → IsRing q → (enqueue q).1.head ≡ (q.head + 1) % q.size
unfolding enqueue
head-enqueue q h = elim (dec_lt (q.head + 1) q.size) [
  | yes inside ↦ ground (arith, mod-eq_of_lt inside)
  | no around ↦
      let full : q.head + 1 ≡ q.size = omega arith in ground (arith, full, mod_self q.size)
]

-- The queue after `n` calls.
pub enqueue_times : ℕ → Queue → Queue
enqueue_times zero q = q
enqueue_times (suc n) q = enqueue_times n (enqueue q).1

size-enqueue : (q : Queue) → (enqueue q).1.size ≡ q.size
unfolding enqueue
size-enqueue q = refl

-- The slot that the call after `n` others hands out is the first slot plus `n`, modulo the size.
pub enqueue-enqueue_times :
    (n : ℕ) (q : Queue) → IsRing q → (enqueue (enqueue_times n q)).0 ≡ (q.head + n) % q.size
unfolding enqueue_times
enqueue-enqueue_times zero q h = rw add-zero (unfold enqueue in sym (mod-eq_of_lt h.head_in))
enqueue-enqueue_times (suc n) q h =
    enqueue-enqueue_times n (enqueue q).1 (enqueue-IsRing q h)
    ∙ rw (size-enqueue, head-enqueue q h, mod-add-mod) (ap (λ k. k % q.size) (omega arith))

pub start-enqueue_times : (n : ℕ) (q : Queue) → (enqueue_times n q).start ≡ q.start
unfolding enqueue_times enqueue
start-enqueue_times zero q = refl
start-enqueue_times (suc n) q = start-enqueue_times n (enqueue q).1
