-- ===== src/Pool/Discarding.antt =====
-- server/src/pool.h: what `free_block` does to a pool, where it takes a block without used elements
-- out of the list and frees it.
use l4rdma.Prelude.{ℕ, ◌≡◌, ◌≢◌, refl, sym, ◌∙◌, ◌⊎◌, inr, some, none, [], ◌∷◌, ◌++◌, arith, subst}
use l4rdma.Run.{Run, ok, ◌>>=◌, Fails}
use l4rdma.Pool.{Ptr, null, Block, Store, write, decrement, remove_block_from_pool, destroy_block}
use l4rdma.Pool.Chain.{Cells, last_of, load-ok}
use l4rdma.Pool.Usage.{used_at, count_used, is_used-none, Chain-apart, Chain-there}
use l4rdma.Pool.Invariant.{IsBlock-middle, IsPool, Ends, link}
use l4rdma.Pool.Relink.{
  behind, length-relinked, total_used-relinked, AllBlocks-relinked, Ends-relinked, last_of-append,
  used_at-relinked,
}
use l4rdma.Pool.Unlinking.{
  pool_without, end_without, remove_block_from_pool-behind, remove_block_from_pool-only,
}

module _ {BD ED : Type 0} where
  -- Block `a` is not the first of several blocks.
  abbrev pub OffHead : Cells BD ED → Ptr → Type 0
  OffHead [] a = Unit
  OffHead (c ∷ []) a = Unit
  OffHead ((x, b) ∷ (c ∷ r)) a = a ≢ x

  -- The same places are used.
  abbrev pub SamePlaces : Cells BD ED → Cells BD ED → Type 0
  SamePlaces bs bs' = (home : Ptr) (i : ℕ) → used_at bs' home i ≡ used_at bs home i

  pub OffHead-middle :
      (front back : Cells BD ED) (a : Ptr) (b c : Block BD ED)
      → OffHead (front ++ (a, b) ∷ back) a
      → OffHead (front ++ (a, c) ∷ back) a
  OffHead-middle [] [] a b c off = tt
  OffHead-middle [] (y ∷ back) a b c off = off
  OffHead-middle (x ∷ []) back a b c off = off
  OffHead-middle (x ∷ (y ∷ front)) back a b c off = off

  end-without :
      (old x a : Ptr) (c b : Block BD ED) (r back : Cells BD ED)
      → Ends old ((x, c) ∷ r ++ (a, b) ∷ back)
      → end_without old (last_of x r) back ≡ last_of (last_of x r) back
  end-without old x a c b r [] ends = refl
  end-without old x a c b r ((y, d) ∷ back) ends = ends ∙ last_of-append x a b r ((y, d) ∷ back)

module _ {PD BD ED : Type 0} where
  -- The block is out of the list but still on the heap; without it, on a heap from which it is
  -- freed, the pool is well-formed and has the same used places.
  abbrev pub Removes : Store PD BD ED → Cells BD ED → Ptr → Run (Store PD BD ED) → Type 0
  Removes s bs a r =
      (t : Store PD BD ED) × (bs' : Cells BD ED) × (b : Block BD ED) × (r ≡ ok t)
      × (t.heap a ≡ some b)
      × (a ≢ null)
      × IsPool (record t { heap = write t.heap a none }) bs'
      × SamePlaces bs bs'
      × (t.pool.content ≡ s.pool.content)

  -- A block is taken out and freed: the pool is well-formed and has the same used places.
  abbrev pub Discards : Store PD BD ED → Cells BD ED → Run (Store PD BD ED) → Type 0
  Discards s bs r =
      (t : Store PD BD ED) × (bs' : Cells BD ED) × (r ≡ ok t)
      × IsPool t bs'
      × SamePlaces bs bs'
      × (t.pool.content ≡ s.pool.content)

  remove-only :
      (s : Store PD BD ED) (a : Ptr) (b : Block BD ED)
      → b.element_count ≡ 0
      → IsPool s ((a, b) ∷ [])
      → Removes s ((a, b) ∷ []) a (remove_block_from_pool s a)
  remove-only s a b none_used inv =
      let none_marked : count_used b.elements ≡ 0 = inv.blocks.0.counted ∙ none_used in
      (
        record s {
          pool = record (s.pool) { start = null; block_count = decrement s.pool.block_count };
        },
        [],
        b,
        remove_block_from_pool-only s a b inv.chain,
        inv.chain.2,
        inv.chain.1,
        record {
          chain = refl;
          ends = tt;
          blocks = tt;
          listed = omega (arith, inv.listed);
          few = omega (arith, inv.few);
          total = omega (arith, inv.total, none_used);
          within = inv.within;
          bounded = inv.bounded;
          not_trivial = inv.not_trivial;
        },
        (λ home i. ground (arith, is_used-none b.elements i none_marked)),
        refl,
      )

  remove-behind :
      (s : Store PD BD ED) (x a : Ptr) (c b : Block BD ED) (r back : Cells BD ED)
      → b.element_count ≡ 0
      → IsPool s ((x, c) ∷ r ++ (a, b) ∷ back)
      → Removes s ((x, c) ∷ r ++ (a, b) ∷ back) a (remove_block_from_pool s a)
  remove-behind s x a c b r back none_used inv =
      let (h, gives, kept, chain) = remove_block_from_pool-behind s x a c b r back inv.chain in
      let front = (x, c) ∷ r in
      let last = last_of x r in
      let block = IsBlock-middle s.pool.block_size a b front back inv.blocks in
      let fewer = length-relinked b.next last a b front back in
      (
        pool_without s last back h,
        link b.next front ++ behind last back,
        b,
        gives,
        kept,
        Chain-there s.heap null s.pool.start a b front back inv.chain,
        record {
          chain = chain;
          ends =
              Ends-relinked (end_without s.pool.end last back) b.next last x c r back
                (end-without s.pool.end x a c b r back inv.ends);
          blocks = AllBlocks-relinked s.pool.block_size b.next last a b front back inv.blocks;
          listed = omega (arith, inv.listed, inv.few, fewer);
          few = omega (arith, inv.few);
          total = inv.total ∙ sym (total_used-relinked b.next last a b front back none_used);
          within = inv.within;
          bounded = inv.bounded;
          not_trivial = inv.not_trivial;
        },
        (λ home i.
            used_at-relinked b.next last a b front back home i (block.counted ∙ none_used)
              (Chain-apart s.heap null s.pool.start a b front back inv.chain).1),
        refl,
      )

  -- A block without used elements, which is not the first of several, is taken out of the list.
  pub remove_block_from_pool-Removes :
      (s : Store PD BD ED) (front back : Cells BD ED) (a : Ptr) (b : Block BD ED)
      → b.element_count ≡ 0
      → OffHead (front ++ (a, b) ∷ back) a
      → IsPool s (front ++ (a, b) ∷ back)
      → Removes s (front ++ (a, b) ∷ back) a (remove_block_from_pool s a)
  remove_block_from_pool-Removes s [] [] a b none_used off inv = remove-only s a b none_used inv
  remove_block_from_pool-Removes s [] (y ∷ back) a b none_used off inv = absurd (off refl)
  remove_block_from_pool-Removes s ((x, c) ∷ r) back a b none_used off inv =
      remove-behind s x a c b r back none_used inv

  -- What a pool relies on where it gives up a block without used elements: on a well-formed pool
  -- in which it is not the first of several, the function is refused, and fails, or it discards the
  -- block.
  pub record Discharge (Refused : Store PD BD ED → Ptr → Type 0)
      (free_block : Store PD BD ED → Ptr → Run (Store PD BD ED)) : Type 0 where
    pub discards :
        (s : Store PD BD ED) (front back : Cells BD ED) (a : Ptr) (b : Block BD ED)
        → b.element_count ≡ 0
        → OffHead (front ++ (a, b) ∷ back) a
        → IsPool s (front ++ (a, b) ∷ back)
        → (Refused s a × Fails (free_block s a))
          ⊎ Discards s (front ++ (a, b) ∷ back) (free_block s a)

  pub destroy_block-there :
      (s : Store PD BD ED) (a : Ptr) (b : Block BD ED)
      → a ≢ null
      → s.heap a ≡ some b
      → destroy_block s a ≡ ok (record s { heap = write s.heap a none })
  unfolding destroy_block
  destroy_block-there s a b there found = rw (load-ok s.heap a b there found, ◌>>=◌) refl

  -- A block that is taken out of the list and then freed is discarded.
  pub discard-Discards :
      (s : Store PD BD ED) (front back : Cells BD ED) (a : Ptr) (b : Block BD ED)
      → b.element_count ≡ 0
      → OffHead (front ++ (a, b) ∷ back) a
      → IsPool s (front ++ (a, b) ∷ back)
      → Discards s (front ++ (a, b) ∷ back) (remove_block_from_pool s a >>= λ t. destroy_block t a)
  discard-Discards s front back a b none_used off inv =
      let (t, bs', c, gives, found, there, inv', same, content) =
        remove_block_from_pool-Removes s front back a b none_used off inv in
      (
        record t { heap = write t.heap a none },
        bs',
        rw (gives, ◌>>=◌) (destroy_block-there t a c there found),
        inv',
        same,
        content,
      )

  pub discard-Discharge :
      (free_block : Store PD BD ED → Ptr → Run (Store PD BD ED))
      → ((s : Store PD BD ED) (a : Ptr)
          → free_block s a ≡ (remove_block_from_pool s a >>= λ t. destroy_block t a))
      → Discharge (λ s a. ⊥) free_block
  discard-Discharge free_block same = record {
    discards = λ s front back a b none_used off inv. inr (
        subst (Discards s (front ++ (a, b) ∷ back)) (sym (same s a))
          (discard-Discards s front back a b none_used off inv));
  }
