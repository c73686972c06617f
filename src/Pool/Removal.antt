-- ===== src/Pool/Removal.antt =====
-- server/src/pool.h: removing the first of several blocks.
use l4rdma.Prelude.{
  ◌≡◌, ◌≢◌, refl, ap, ◌∙◌, none, ◌∷◌, arith, ◌==◌, true, false, inl, inr, Bool-cases,
}
use l4rdma.Run.{Run, ok, throw, fault, ◌>>=◌}
use l4rdma.Pool.{
  Ptr, null, Block, Store, write, load, decrement, unlink_block, remove_block_from_pool,
  destroy_block,
}
use l4rdma.Pool.Chain.{Cells, Chain, load-ok, load-other, load-removed, not_null}

module _ {PD BD ED : Type 0} where
  -- What `free_block` does to the list: the block is taken out and freed.
  abbrev pub discard : Store PD BD ED → Ptr → Run (Store PD BD ED)
  discard s b = remove_block_from_pool s b >>= λ s'. destroy_block s' b

  -- The pool without block `a`, which came before `start`.
  abbrev pub without_first : Store PD BD ED → (a start : Ptr) → Store PD BD ED
  without_first s a start = record {
    pool = record (s.pool) { start = start; block_count = decrement s.pool.block_count };
    heap = write s.heap a none;
  }

  discard-first :
      (s : Store PD BD ED) (a b : Ptr) (x y : Block BD ED) (bs : Cells BD ED)
      → Chain s.heap null s.pool.start ((a, x) ∷ (b, y) ∷ bs)
      → discard s a ≡ ok (without_first s a b)
  unfolding remove_block_from_pool unlink_block destroy_block
  discard-first s a b x y bs ch =
      let found = load-ok s.heap a x ch.1 ch.2 in
      let first : (x.prev == null) ≡ true = ground (arith, ch.3) in
      rw (found, ◌>>=◌, first, ch.5.0, not_null ch.5.1, ◌>>=◌, found, ◌>>=◌) refl

  -- The former first block is gone, but the next one still points back to it.
  stale-prev :
      (s : Store PD BD ED) (a b : Ptr) (y : Block BD ED)
      → a ≢ null
      → load s.heap b ≡ ok y
      → y.prev ≡ a
      → load s.heap a ≡ throw fault
      → discard s b ≡ throw fault
  unfolding remove_block_from_pool unlink_block
  stale-prev s a b y there found back gone =
      let prev_gone : load s.heap y.prev ≡ throw fault = ap (load s.heap) back ∙ gone in
      let later : (y.prev == null) ≡ false = ground (arith, back) in
      elim (Bool-cases (y.next == null)) [
        | inl last ↦ rw (found, ◌>>=◌, later, last, prev_gone, ◌>>=◌) refl
        | inr inner ↦ rw (found, ◌>>=◌, later, inner, prev_gone, ◌>>=◌) refl
      ]

  -- In a pool of several blocks, taking out the first one and freeing it leaves the next block with
  -- a pointer to the freed one: taking out that block as well accesses freed memory.
  pub discard_two :
      (s : Store PD BD ED) (a b : Ptr) (x y : Block BD ED) (bs : Cells BD ED)
      → Chain s.heap null s.pool.start ((a, x) ∷ (b, y) ∷ bs)
      → (discard s a >>= λ t. discard t b) ≡ throw fault
  discard_two s a b x y bs ch =
      let apart : (a == b) ≡ false = ground (arith, ch.4) in
      ap (λ r. r >>= λ t. discard t b) (discard-first s a b x y bs ch)
      ∙ stale-prev (without_first s a b) a b y ch.1 (load-other s.heap a b y apart ch.5.1 ch.5.2)
          ch.5.3 (load-removed s.heap a ch.1)
