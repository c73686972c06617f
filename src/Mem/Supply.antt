-- ===== src/Mem/Supply.antt =====
-- server/src/mem.cc: `MEM::alloc_block` keeps the promise that the pool relies on.
use l4rdma.Prelude.{
  ◌%◌, ◌^◌, ℕ, suc, ◌+◌, ◌*◌, ◌≡◌, ◌≢◌, refl, ap, ◌∙◌, ◌⊎◌, inl, inr, some, List, [], ◌∷◌, arith,
  ◌==◌, length, Bool-cases,
}
use l4rdma.Run.{Fails, Fails-first, Run-cases, ◌>>=◌}
use l4rdma.Dma.{DmaMem, hca_page_size}
use l4rdma.Pool.{Ptr, null, Element, create_block, write}
use l4rdma.Pool.Chain.{Cells}
use l4rdma.Pool.FirstFit.{AllFull}
use l4rdma.Pool.RoundTrip.{load-write}
use l4rdma.Pool.Blocks.{
  IsMalloc, AllUnused, raw_block, create_block-null, create_block-ok, filled-Added,
}
use l4rdma.Pool.Invariant.{IsPool, Added, Supply}
use l4rdma.Mem.{MemPage, MemStore, L4re, init_pages, alloc_dma_mem, alloc_block}

init_pages-unused :
    (b : Ptr) (dma : DmaMem) (i : ℕ) (es : List (Element MemPage))
    → (length (init_pages b dma i es) ≡ length es) × AllUnused b (init_pages b dma i es)
unfolding init_pages
init_pages-unused b dma i [] = (refl, tt)
init_pages-unused b dma i (e ∷ es) =
    let later = init_pages-unused b dma (i + 1) es in (ap suc later.0, ((refl, refl), later.1))

module _ (l4 : L4re) (law : IsMalloc l4.malloc) where
  alloc_block-there :
      (s : MemStore) (bs : Cells DmaMem MemPage)
      → IsPool s bs
      → AllFull s.pool.block_size bs
      → s.pool.size ≢ s.pool.max
      → l4.malloc.address s.heap ≢ null
      → Fails (alloc_block l4 s) ⊎ Added s bs (alloc_block l4 s)
  unfolding alloc_block
  alloc_block-there s bs inv full open_pool there =
      let a = l4.malloc.address s.heap in
      let raw = raw_block l4.malloc s in
      let h : Ptr → _ = write s.heap a (some raw) in
      let request =
        alloc_dma_mem l4.superpage_shift (l4.grant h)
          (hca_page_size * s.pool.block_size % 2 ^ 64) in
      elim (Run-cases request) [
        | inl refused ↦
            inl (rw (create_block-ok l4.malloc s there, ◌>>=◌) (Fails-first request _ refused))
        | inr (dma, granted) ↦
            let pages = init_pages-unused a dma 0 raw.elements in
            inr (
              rw
                (
                  create_block-ok l4.malloc s there,
                  ◌>>=◌,
                  granted,
                  ◌>>=◌,
                  load-write s.heap a raw there,
                  ◌>>=◌,
                )
                (filled-Added l4.malloc s bs dma (init_pages a dma 0 raw.elements) law inv full
                  open_pool there (pages.0 ∙ law.whole s.pool.block_size) pages.1))
      ]

  alloc_block-null : (s : MemStore) → l4.malloc.address s.heap ≡ null → Fails (alloc_block l4 s)
  unfolding alloc_block
  alloc_block-null s no_memory =
      Fails-first (create_block l4.malloc s) _ (create_block-null l4.malloc s no_memory)

  -- Where `malloc` keeps its promise, a pool of DMA pages that is not full but whose blocks are is
  -- given one more block of unused pages at its end, or the call fails.
  pub alloc_block-Supply : Supply (alloc_block l4)
  alloc_block-Supply = record {
    adds = λ s bs inv full open_pool. elim (Bool-cases (l4.malloc.address s.heap == null)) [
      | inl no_memory ↦ inl (alloc_block-null s (ground arith))
      | inr memory ↦ alloc_block-there s bs inv full open_pool (λ e. ground (arith, memory, e))
    ];
  }
