-- ===== src/Uar/Returning.antt =====
-- server/src/uar.cc: `free_page` on a well-formed pool of region pages never fails.
use l4rdma.Prelude.{◌≡◌, refl, inl, inr, true}
use l4rdma.Pool.{Slot}
use l4rdma.Pool.Chain.{Cells}
use l4rdma.Pool.Usage.{used_at}
use l4rdma.Pool.Invariant.{IsPool}
use l4rdma.Pool.Discarding.{Discharge, discard-Discharge}
use l4rdma.Pool.Returning.{Keeps, Returns, free_page-Returns}
use l4rdma.Uar.{Uar, UarStore, free_block, return_region}

free_block-Discharge : Discharge (λ (s : UarStore) a. ⊥) free_block
unfolding free_block
free_block-Discharge = discard-Discharge free_block (λ s a. refl)

-- Giving back a used page of a region, from a block that keeps another used page or is not the
-- first of several, succeeds.
pub return_region-Returns :
    (s : UarStore) (bs : Cells (Unit {0}) Uar) (slot : Slot)
    → IsPool s bs
    → used_at bs slot.home slot.index ≡ true
    → Keeps bs slot.home
    → Returns s bs slot (return_region s slot)
unfolding return_region
return_region-Returns s bs slot inv used keeps =
    elim (free_page-Returns (λ s a. ⊥) free_block s bs slot free_block-Discharge inv used keeps) [
      | inl returned ↦ returned
      | inr refused ↦ absurd refused.3
    ]
