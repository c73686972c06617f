-- ===== src/Mem/Discharge.antt =====
-- server/src/mem.cc: `free_block` gives up a block of pages as the pool relies on.
use l4rdma.Prelude.{◌≡◌, refl, inl, inr, false, some, none, Bool-cases}
use l4rdma.Run.{ok, ◌>>=◌}
use l4rdma.Dma.{DmaMem}
use l4rdma.Pool.{Ptr, Block, write, remove_block_from_pool}
use l4rdma.Pool.Chain.{load-ok}
use l4rdma.Pool.Discarding.{Discharge, remove_block_from_pool-Removes, destroy_block-there}
use l4rdma.Mem.{MemPage, MemStore, L4re, free_block, free_dma_mem}

-- The kernel does not unmap the memory of the block, which is out of the list by then.
abbrev pub StaysMapped : L4re → MemStore → Ptr → Type 0
StaysMapped l4 s a =
    (t : MemStore) × (b : Block DmaMem MemPage) × (remove_block_from_pool s a ≡ ok t)
    × (t.heap a ≡ some b)
    × (l4.unmap t.heap b.content ≡ false)

pub free_block-Discharge : (l4 : L4re) → Discharge (StaysMapped l4) (free_block l4)
unfolding free_block free_dma_mem
free_block-Discharge l4 = record {
  discards = λ s front back a b none_used off inv.
      let (t, bs', c, gives, found, there, inv', same, content) =
        remove_block_from_pool-Removes s front back a b none_used off inv in
      let loaded = load-ok t.heap a c there found in
      elim (Bool-cases (l4.unmap t.heap c.content)) [
        | inl unmapped ↦ inr (
          record t { heap = write t.heap a none },
          bs',
          rw (gives, ◌>>=◌, loaded, ◌>>=◌, unmapped, ◌>>=◌) (destroy_block-there t a c there found),
          inv',
          same,
          content,
        )
        | inr mapped ↦
            inl ((t, c, gives, found, mapped), rw (gives, ◌>>=◌, loaded, ◌>>=◌, mapped, ◌>>=◌) refl)
      ];
}
