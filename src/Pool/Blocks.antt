-- ===== src/Pool/Blocks.antt =====
-- server/src/pool.h: `create_block`, and what it relies on `malloc` for.
use l4rdma.Prelude.{
  ℕ, ◌≡◌, ◌≢◌, refl, sym, true, false, none, some, List, [], ◌∷◌, All, arith, ◌==◌, length, subst,
}
use l4rdma.Run.{ok, Fails}
use l4rdma.Pool.{
  Ptr, null, Element, Block, Heap, Store, Malloc, write, create_block, add_block_to_pool,
}
use l4rdma.Pool.Chain.{Cells}
use l4rdma.Pool.FirstFit.{AllFull}
use l4rdma.Pool.RoundTrip.{write-write}
use l4rdma.Pool.Usage.{count_used}
use l4rdma.Pool.Invariant.{IsPool, Added}
use l4rdma.Pool.Supply.{add_block_to_pool-Added}

-- An address that is not null is not in use, and an array has the length that was asked for.
pub record IsMalloc {BD ED : Type 0} (malloc : Malloc BD ED) : Type 0 where
  pub fresh : (h : Heap BD ED) → malloc.address h ≢ null → h (malloc.address h) ≡ none
  pub whole : (n : ℕ) → length (malloc.raw_elements n) ≡ n

module _ {ED : Type 0} where
  -- Elements as a block starts with them.
  abbrev pub AllUnused : Ptr → List (Element ED) → Type 0
  AllUnused a es = All (λ e. (e.used ≡ false) × (e.owner ≡ a)) es

  count_used-unused : (a : Ptr) (es : List (Element ED)) → AllUnused a es → count_used es ≡ 0
  count_used-unused a [] all = refl
  count_used-unused a (e ∷ es) all = rw all.0.0 (count_used-unused a es all.1)

  owner-unused : (a : Ptr) (es : List (Element ED)) → AllUnused a es → All (λ e. e.owner ≡ a) es
  owner-unused a [] all = tt
  owner-unused a (e ∷ es) all = (all.0.1, owner-unused a es all.1)

module _ {PD BD ED : Type 0} (malloc : Malloc BD ED) (s : Store PD BD ED) where
  -- The block as `create_block` returns it.
  abbrev pub raw_block : Block BD ED
  raw_block = record {
    element_count = 0;
    next = null;
    prev = null;
    content = malloc.raw_content;
    elements = malloc.raw_elements s.pool.block_size;
  }

  pub create_block-null : malloc.address s.heap ≡ null → Fails (create_block malloc s)
  unfolding create_block
  create_block-null no_memory =
      let is_null : (malloc.address s.heap == null) ≡ true = ground arith in rw is_null refl

  -- What follows `create_block` runs on the heap with the raw block at a new address.
  pub create_block-ok :
      malloc.address s.heap ≢ null
      → create_block malloc s
        ≡ ok (
          malloc.address s.heap,
          record s { heap = write s.heap (malloc.address s.heap) (some raw_block) },
        )
  unfolding create_block
  create_block-ok there =
      let not_there : (malloc.address s.heap == null) ≡ false = ground arith in rw not_there refl

  -- A block that is filled with unused elements and then added.
  pub filled-Added :
      (bs : Cells BD ED) (content : BD) (elements : List (Element ED))
      → IsMalloc malloc
      → IsPool s bs
      → AllFull s.pool.block_size bs
      → s.pool.size ≢ s.pool.max
      → malloc.address s.heap ≢ null
      → length elements ≡ s.pool.block_size
      → AllUnused (malloc.address s.heap) elements
      → let a = malloc.address s.heap in
        let filled : Block BD ED = record raw_block { content = content; elements = elements } in
        Added s bs (
          add_block_to_pool
            (record s { heap = write (write s.heap a (some raw_block)) a (some filled) })
            a)
  filled-Added bs content elements law inv full open_pool there whole unused =
      let a = malloc.address s.heap in
      let filled : Block BD ED = record raw_block { content = content; elements = elements } in
      subst (λ h. Added s bs (add_block_to_pool (record s { heap = h }) a))
        (sym (write-write s.heap a (some raw_block) (some filled)))
        (add_block_to_pool-Added s bs a filled inv full open_pool there (law.fresh s.heap there)
          (record {
            whole = whole;
            counted = count_used-unused a elements unused;
            owned = owner-unused a elements unused;
          })
          (refl, refl, refl))
