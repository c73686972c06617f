-- ===== src/Uar/Supply.antt =====
-- server/src/uar.cc: `UAR::alloc_block` keeps the promise that the pool relies on.
use l4rdma.Prelude.{
  ℕ, suc, ◌+◌, ◌≡◌, ◌≢◌, refl, ap, ◌∙◌, ◌⊎◌, inl, inr, List, [], ◌∷◌, arith, ◌==◌, length,
  Bool-cases,
}
use l4rdma.Run.{Fails, Fails-first, ◌>>=◌}
use l4rdma.Pool.{Ptr, null, Element, Malloc, create_block}
use l4rdma.Pool.Chain.{Cells}
use l4rdma.Pool.FirstFit.{AllFull}
use l4rdma.Pool.RoundTrip.{load-write}
use l4rdma.Pool.Blocks.{
  IsMalloc, AllUnused, raw_block, create_block-null, create_block-ok, filled-Added,
}
use l4rdma.Pool.Invariant.{IsPool, Added, Supply}
use l4rdma.Uar.{Uar, UarStore, init_regions, alloc_block}

init_regions-unused :
    (b : Ptr) (base : Uar) (i : ℕ) (es : List (Element Uar))
    → (length (init_regions b base i es) ≡ length es) × AllUnused b (init_regions b base i es)
unfolding init_regions
init_regions-unused b base i [] = (refl, tt)
init_regions-unused b base i (e ∷ es) =
    let later = init_regions-unused b base (i + 1) es in (ap suc later.0, ((refl, refl), later.1))

module _ (malloc : Malloc (Unit {0}) Uar) (law : IsMalloc malloc) where
  alloc_block-adds :
      (s : UarStore) (bs : Cells (Unit {0}) Uar)
      → IsPool s bs
      → AllFull s.pool.block_size bs
      → s.pool.size ≢ s.pool.max
      → Fails (alloc_block malloc s) ⊎ Added s bs (alloc_block malloc s)
  unfolding alloc_block
  alloc_block-adds s bs inv full open_pool =
      let a = malloc.address s.heap in
      elim (Bool-cases (a == null)) [
        | inl no_memory ↦
            inl (Fails-first (create_block malloc s) _ (create_block-null malloc s (ground arith)))
        | inr memory ↦
            let there : a ≢ null = λ e. ground (arith, memory, e) in
            let raw = raw_block malloc s in
            let regions = init_regions-unused a s.pool.content.base 0 raw.elements in
            inr (
              rw (create_block-ok malloc s there, ◌>>=◌, load-write s.heap a raw there, ◌>>=◌)
                (filled-Added malloc s bs tt (init_regions a s.pool.content.base 0 raw.elements) law
                  inv full open_pool there (regions.0 ∙ law.whole s.pool.block_size) regions.1))
      ]

  -- Where `malloc` keeps its promise, a pool of pages of a user access region that is not full but
  -- whose blocks are is given one more block of unused pages at its end, or the call fails.
  pub alloc_block-Supply : Supply (alloc_block malloc)
  alloc_block-Supply = record { adds = alloc_block-adds }
