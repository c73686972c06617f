-- ===== src/Queue/Objects/Supply.antt =====
-- server/src/queue.h: `Q::alloc_block` keeps the promise that the pool relies on.
use l4rdma.Prelude.{
  suc, ◌≡◌, ◌≢◌, refl, ap, ◌∙◌, ◌⊎◌, inl, inr, List, [], ◌∷◌, arith, ◌==◌, length, Bool-cases,
}
use l4rdma.Run.{Fails, Fails-first, ◌>>=◌}
use l4rdma.Pool.{Ptr, null, Element, create_block}
use l4rdma.Pool.Chain.{Cells}
use l4rdma.Pool.FirstFit.{AllFull}
use l4rdma.Pool.RoundTrip.{load-write}
use l4rdma.Pool.Blocks.{
  IsMalloc, AllUnused, raw_block, create_block-null, create_block-ok, filled-Added,
}
use l4rdma.Pool.Invariant.{IsPool, Added, Supply}
use l4rdma.Queue.Objects.{QueueObj, QueueStore, QueueServices, init_objects, alloc_block}

module _ {C : Type 0} where
  init_objects-unused :
      (b : Ptr) (raw_ctx : C) (es : List (Element (QueueObj C)))
      → (length (init_objects b raw_ctx es) ≡ length es) × AllUnused b (init_objects b raw_ctx es)
  unfolding init_objects
  init_objects-unused b raw_ctx [] = (refl, tt)
  init_objects-unused b raw_ctx (e ∷ es) =
      let later = init_objects-unused b raw_ctx es in (ap suc later.0, ((refl, refl), later.1))

module _ {C : Type 0} (l4 : QueueServices C) (law : IsMalloc l4.malloc) where
  alloc_block-adds :
      (s : QueueStore C) (bs : Cells (Unit {0}) (QueueObj C))
      → IsPool s bs
      → AllFull s.pool.block_size bs
      → s.pool.size ≢ s.pool.max
      → Fails (alloc_block l4 s) ⊎ Added s bs (alloc_block l4 s)
  unfolding alloc_block
  alloc_block-adds s bs inv full open_pool =
      let a = l4.malloc.address s.heap in
      elim (Bool-cases (a == null)) [
        | inl no_memory ↦ inl (
            Fails-first (create_block l4.malloc s) _ (create_block-null l4.malloc s (ground arith)))
        | inr memory ↦
            let there : a ≢ null = λ e. ground (arith, memory, e) in
            let raw = raw_block l4.malloc s in
            let objects = init_objects-unused a l4.raw_ctx raw.elements in
            inr (
              rw (create_block-ok l4.malloc s there, ◌>>=◌, load-write s.heap a raw there, ◌>>=◌)
                (filled-Added l4.malloc s bs tt (init_objects a l4.raw_ctx raw.elements) law inv
                  full open_pool there (objects.0 ∙ law.whole s.pool.block_size) objects.1))
      ]

  -- Where `malloc` keeps its promise, a pool of queue objects that is not full but whose blocks are
  -- is given one more block of unused objects at its end, or the call fails.
  pub alloc_block-Supply : Supply (alloc_block l4)
  alloc_block-Supply = record { adds = alloc_block-adds }
