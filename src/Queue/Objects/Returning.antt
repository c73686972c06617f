-- ===== src/Queue/Objects/Returning.antt =====
-- server/src/queue.cc: `free_queue` on well-formed pools of queue objects and of region pages.
use l4rdma.Prelude.{
  ℕ, ◌≡◌, refl, ◌⊎◌, inl, inr, ap, ◌∙◌, none, ◌==◌, if◌then◌else◌, true, false, some, Bool-cases,
}
use l4rdma.Run.{Run, ok, throw, l4_error, ◌>>=◌}
use l4rdma.Pool.{Slot}
use l4rdma.Pool.Chain.{Cells}
use l4rdma.Pool.Usage.{used_at}
use l4rdma.Pool.Invariant.{IsPool, with_content, with_content-IsPool}
use l4rdma.Pool.Discarding.{Discharge, discard-Discharge}
use l4rdma.Pool.Returning.{Keeps, WithoutPlace, free_page-Returns}
use l4rdma.Mem.{find_page, forget_page, free_dma_mem}
use l4rdma.Mem.Index.{find_page-forget_page}
use l4rdma.Uar.{Uar, UarStore}
use l4rdma.Uar.Returning.{return_region-Returns}
use l4rdma.Queue.Objects.{
  QueueObj, QueueStore, QueuePools, QueueServices, free_block, not_null, object_at, free_queue,
}

module _ {C : Type 0} where
  free_block-Discharge : Discharge (λ (s : QueueStore C) a. ⊥) free_block
  unfolding free_block
  free_block-Discharge = discard-Discharge free_block (λ s a. refl)

  -- The places of a queue and of its region are not used any more, and its entry is gone; every
  -- other place and entry is as before.
  abbrev pub Frees :
      QueueStore C
      → Cells (Unit {0}) (QueueObj C)
      → UarStore
      → Cells (Unit {0}) Uar
      → ℕ
      → Slot
      → Slot
      → Run (QueueStore C × UarStore)
      → Type 0
  Frees s bs regions us id slot uarp r =
      (s' : QueueStore C) × (bs' : Cells (Unit {0}) (QueueObj C)) × (regions' : UarStore)
      × (us' : Cells (Unit {0}) Uar) × (r ≡ ok (s', regions'))
      × WithoutPlace bs slot s' bs'
      × WithoutPlace us uarp regions' us'
      × (s'.pool.content.page_entry_count ≡ s.pool.content.page_entry_count)
      × ((q : ℕ)
          → find_page q s'.pool.content.index
            ≡ (if id == q then none else find_page q s.pool.content.index))

  module _ (l4 : QueueServices C) (s : QueueStore C) (bs : Cells (Unit {0}) (QueueObj C))
      (regions : UarStore) (us : Cells (Unit {0}) Uar) (id : ℕ) (slot : Slot)
      (obj : QueueObj C) where
    -- Freeing a queue by its number, where it stands in the index at a used object of a well-formed
    -- pool, its region is a used page of a well-formed pool, and both stand in blocks that keep
    -- another used element or are not the first of several, either succeeds: the kernel unmaps the
    -- DMA memory of its ring, the places of the object and of the region are not used any more and
    -- every other place of both pools is as before, the number is not in the index and every other
    -- entry is as before, and both pools are well-formed again. Or the kernel does not unmap the
    -- memory, and the call throws an error of L4Re.
    pub free_queue-Frees :
        IsPool s bs
        → IsPool regions us
        → find_page id s.pool.content.index ≡ some slot
        → object_at s slot ≡ ok obj
        → used_at bs slot.home slot.index ≡ true
        → Keeps bs slot.home
        → used_at us obj.uarp.home obj.uarp.index ≡ true
        → Keeps us obj.uarp.home
        → ((l4.unmap s.heap obj.queue.dma_mem ≡ true)
            × Frees s bs regions us id slot obj.uarp (free_queue l4 s regions id))
          ⊎ ((l4.unmap s.heap obj.queue.dma_mem ≡ false)
              × (free_queue l4 s regions id ≡ throw l4_error))
    unfolding free_queue not_null object_at free_dma_mem
    free_queue-Frees inv inv_regions found read used keeps lent region_keeps =
        let pools : QueuePools = record (s.pool.content) {
          index = forget_page id s.pool.content.index;
        } in
        let (regions', us', returns, without_region, _) =
          return_region-Returns regions us obj.uarp inv_regions lent region_keeps in
        elim (free_page-Returns (λ t a. ⊥) free_block (with_content s pools) bs slot
          free_block-Discharge (with_content-IsPool s pools bs inv) used keeps) [
            | inr refused ↦ absurd refused.3
            | inl (s', bs', gives, without, content) ↦
                elim (Bool-cases (l4.unmap s.heap obj.queue.dma_mem)) [
                  | inr mapped ↦
                      inr
                        (mapped, rw (found, ◌>>=◌, read, ◌>>=◌, returns, ◌>>=◌, mapped, ◌>>=◌) refl)
                  | inl unmapped ↦ inl (
                    unmapped,
                    (
                      s',
                      bs',
                      regions',
                      us',
                      rw (found, ◌>>=◌, read, ◌>>=◌, returns, ◌>>=◌, unmapped, ◌>>=◌, gives, ◌>>=◌)
                          refl,
                      without,
                      without_region,
                      ap (λ c. c.page_entry_count) content,
                      λ q.
                          ap (λ c. find_page q c.index) content
                          ∙ find_page-forget_page q id s.pool.content.index,
                    ),
                  )
                ]
          ]
