-- ===== src/Pool/Supply.antt =====
-- server/src/pool.h: `add_block_to_pool` on a well-formed pool.
use l4rdma.Prelude.{
  ℕ, ◌+◌, ◌^◌, ◌≤◌, ◌<◌, ◌≡◌, ◌≢◌, refl, sym, ap, ◌∙◌, inl, inr, true, false, ◌||◌, Option, some,
  none, [], ◌∷◌, ◌++◌, arith, ◌==◌, length, Bool-cases,
}
use l4rdma.Run.{◌>>=◌}
use l4rdma.Pool.{Ptr, null, Block, Heap, Store, increment, write, add_block_to_pool}
use l4rdma.Pool.Chain.{Cells, Chain, has, last_of, load-ok, not_null}
use l4rdma.Pool.FirstFit.{AllFull}
use l4rdma.Pool.Usage.{total_used}
use l4rdma.Pool.Invariant.{IsBlock, IsPool, Ends, AllBlocks, link, Added}

module _ {BD ED : Type 0} where
  abbrev pub last_block : Block BD ED → Cells BD ED → Block BD ED
  last_block c [] = c
  last_block c ((y, d) ∷ r) = last_block d r

  Chain-last :
      (h : Heap BD ED) (prev p x : Ptr) (c : Block BD ED) (r : Cells BD ED)
      → Chain h prev p ((x, c) ∷ r)
      → (last_of x r ≢ null) × (h (last_of x r) ≡ some (last_block c r))
  Chain-last h prev p x c [] ch = (ch.1, ch.2)
  Chain-last h prev p x c ((y, d) ∷ r) ch = Chain-last h x c.next y d r ch.5

  -- An address at which there is no block does not stand in the list.
  Chain-free :
      (h : Heap BD ED) (prev p a : Ptr) (bs : Cells BD ED)
      → h a ≡ none
      → Chain h prev p bs
      → has a bs ≡ false
  Chain-free h prev p a [] free ch = refl
  Chain-free h prev p a ((x, c) ∷ r) free ch = elim (Bool-cases (a == x)) [
    | inl here ↦ let same : a ≡ x = ground arith in cc (ch.2, ap h same, free)
    | inr away ↦ rw away (Chain-free h x c.next a r free ch.5)
  ]

  has-link :
      (z a : Ptr) (nb : Block BD ED) (bs : Cells BD ED)
      → has z (link a bs ++ (a, nb) ∷ []) ≡ (has z bs || (z == a))
  has-link z a nb [] = ground arith
  has-link z a nb ((x, c) ∷ []) = ground arith
  has-link z a nb ((x, c) ∷ (d ∷ r)) = ground (arith, has-link z a nb (d ∷ r))

  pub last_of-has :
      (z x : Ptr) (c : Block BD ED) (r : Cells BD ED) → has z ((x, c) ∷ r) ≡ false → z ≢ last_of x r
  last_of-has z x c [] out = λ e. ground (arith, out, e)
  last_of-has z x c ((y, d) ∷ r) out = last_of-has z y d r (ground arith)

  last_of-link :
      (prev x a : Ptr) (c nb : Block BD ED) (r : Cells BD ED)
      → last_of prev (link a ((x, c) ∷ r) ++ (a, nb) ∷ []) ≡ a
  last_of-link prev x a c nb [] = refl
  last_of-link prev x a c nb ((y, d) ∷ r) = last_of-link x y a d nb r

  -- The list with one more block, on a heap that differs at the last block and at the new one.
  Chain-link :
      (h k : Heap BD ED) (a : Ptr) (nb : Block BD ED) (prev p x : Ptr) (c : Block BD ED)
      (r : Cells BD ED)
      → a ≢ null
      → k a ≡ some nb
      → nb.next ≡ null
      → nb.prev ≡ last_of x r
      → k (last_of x r) ≡ some (record (last_block c r) { next = a })
      → ((z : Ptr) → z ≢ last_of x r → z ≢ a → k z ≡ h z)
      → has a ((x, c) ∷ r) ≡ false
      → Chain h prev p ((x, c) ∷ r)
      → Chain k prev p (link a ((x, c) ∷ r) ++ (a, nb) ∷ [])
  Chain-link h k a nb prev p x c [] there new ends back last same out ch =
      (ch.0, ch.1, last, ch.3, ground (arith, out), (refl, there, new, back, refl, ends))
  Chain-link h k a nb prev p x c ((y, d) ∷ r) there new ends back last same out ch =
      let apart = last_of-has x y d r ch.4 in
      let other : x ≢ a = λ e. ground (arith, out, e) in
      let rest : has a ((y, d) ∷ r) ≡ false = ground (arith, out) in
      (
        ch.0,
        ch.1,
        same x apart other ∙ ch.2,
        ch.3,
        has-link x a nb ((y, d) ∷ r) ∙ ground (arith, ch.4, out),
        Chain-link h k a nb x c.next y d r there new ends back last same rest ch.5,
      )

  pub write-at : (h : Heap BD ED) (p : Ptr) (b : Option (Block BD ED)) → write h p b p ≡ b
  unfolding write
  write-at h p b = ground arith

  pub write-away :
      (h : Heap BD ED) (p z : Ptr) (b : Option (Block BD ED)) → z ≢ p → write h p b z ≡ h z
  unfolding write
  write-away h p z b away = ground arith

  AllBlocks-link :
      (n a : ℕ) (nb : Block BD ED) (bs : Cells BD ED)
      → IsBlock n a nb
      → AllBlocks n bs
      → AllBlocks n (link a bs ++ (a, nb) ∷ [])
  AllBlocks-link n a nb [] good all = (good, tt)
  AllBlocks-link n a nb ((x, c) ∷ []) good all =
      (record { whole = all.0.whole; counted = all.0.counted; owned = all.0.owned }, (good, tt))
  AllBlocks-link n a nb ((x, c) ∷ (d ∷ r)) good all =
      (all.0, AllBlocks-link n a nb (d ∷ r) good all.1)

  length-link :
      (a : Ptr) (nb : Block BD ED) (bs : Cells BD ED)
      → length (link a bs ++ (a, nb) ∷ []) ≡ length bs + 1
  length-link a nb [] = omega arith
  length-link a nb ((x, c) ∷ []) = omega arith
  length-link a nb ((x, c) ∷ (d ∷ r)) = omega (arith, length-link a nb (d ∷ r))

  total_used-link :
      (a : Ptr) (nb : Block BD ED) (bs : Cells BD ED)
      → nb.element_count ≡ 0
      → total_used (link a bs ++ (a, nb) ∷ []) ≡ total_used bs
  total_used-link a nb [] empty = omega arith
  total_used-link a nb ((x, c) ∷ []) empty = omega arith
  total_used-link a nb ((x, c) ∷ (d ∷ r)) empty = omega (arith, total_used-link a nb (d ∷ r) empty)

  length-le-total_used :
      (n : ℕ) (bs : Cells BD ED) → 0 < n → AllFull n bs → length bs ≤ total_used bs
  length-le-total_used n [] some_place full = omega arith
  length-le-total_used n ((x, c) ∷ r) some_place full =
      omega (arith, full.0, length-le-total_used n r some_place full.1)

  Ends-link :
      (a : Ptr) (nb : Block BD ED) (x : Ptr) (c : Block BD ED) (r : Cells BD ED)
      → Ends a (link a ((x, c) ∷ r) ++ (a, nb) ∷ [])
  Ends-link a nb x c [] = refl
  Ends-link a nb x c ((y, d) ∷ r) = sym (last_of-link x y a d nb r)

module _ {PD BD ED : Type 0} where
  -- A new block without used elements, at an address that was free, is added to a pool that is not
  -- full but whose blocks are.
  pub add_block_to_pool-Added :
      (s : Store PD BD ED) (bs : Cells BD ED) (a : Ptr) (nb : Block BD ED)
      → IsPool s bs
      → AllFull s.pool.block_size bs
      → s.pool.size ≢ s.pool.max
      → a ≢ null
      → s.heap a ≡ none
      → IsBlock s.pool.block_size a nb
      → (nb.element_count ≡ 0) × (nb.next ≡ null) × (nb.prev ≡ null)
      → Added s bs (add_block_to_pool (record s { heap = write s.heap a (some nb) }) a)
  unfolding add_block_to_pool
  add_block_to_pool-Added s [] a nb inv full open_pool there free good raw =
      let none_yet : (s.pool.start == null) ≡ true = ground (arith, inv.chain) in
      let here = write-at s.heap a (some nb) in
      let one : increment s.pool.block_count ≡ 1 = omega (arith, inv.listed) in
      (
        record {
          pool = record (s.pool) { start = a; end = a; block_count = increment s.pool.block_count };
          heap = write s.heap a (some nb);
        },
        a,
        nb,
        rw none_yet refl,
        record {
          chain = (refl, there, here, raw.2, refl, raw.1);
          ends = refl;
          blocks = (good, tt);
          listed = one;
          few = omega (arith, one);
          total = omega (arith, inv.total, raw.0);
          within = inv.within;
          bounded = inv.bounded;
          not_trivial = inv.not_trivial;
        },
        raw.0,
        refl,
        refl,
        refl,
        refl,
      )
  add_block_to_pool-Added s ((x, c) ∷ r) a nb inv full open_pool there free good raw =
      let some_block : (s.pool.start == null) ≡ false =
        not_null (λ e. inv.chain.1 (sym inv.chain.0 ∙ e)) in
      let last = Chain-last s.heap null s.pool.start x c r inv.chain in
      let out = Chain-free s.heap null s.pool.start a ((x, c) ∷ r) free inv.chain in
      let apart : a ≢ last_of x r = last_of-has a x c r out in
      let apart' : last_of x r ≢ a = λ e. apart (sym e) in
      let new : Block BD ED = record nb { prev = last_of x r } in
      let linked : Block BD ED = record (last_block c r) { next = a } in
      let h₀ = write s.heap a (some nb) in
      let h₁ = write h₀ (last_of x r) (some linked) in
      let h₂ = write h₁ a (some new) in
      let found_last = write-away s.heap a (last_of x r) (some nb) apart' ∙ last.1 in
      let found_new =
        write-away h₀ (last_of x r) a (some linked) apart ∙ write-at s.heap a (some nb) in
      let fits : s.pool.block_count + 1 < 2 ^ 64 = omega (
        arith,
        inv.listed,
        inv.total,
        inv.within,
        inv.bounded,
        open_pool,
        length-le-total_used s.pool.block_size ((x, c) ∷ r) inv.not_trivial.0 full,
      ) in
      let count : increment s.pool.block_count ≡ s.pool.block_count + 1 = omega (arith, fits) in
      (
        record {
          pool = record (s.pool) { end = a; block_count = increment s.pool.block_count };
          heap = h₂;
        },
        a,
        new,
        rw
            (
              some_block,
              inv.ends,
              load-ok h₀ (last_of x r) (last_block c r) last.0 found_last,
              ◌>>=◌,
              load-ok h₁ a nb there found_new,
              ◌>>=◌,
            )
            refl,
        record {
          chain =
              Chain-link s.heap h₂ a new null s.pool.start x c r there (write-at h₁ a (some new))
                raw.1 refl
                (write-away h₁ a (last_of x r) (some new) apart'
                  ∙ write-at h₀ (last_of x r) (some linked))
                (λ z far away.
                  write-away h₁ a z (some new) away
                  ∙ write-away h₀ (last_of x r) z (some linked) far
                  ∙ write-away s.heap a z (some nb) away)
                out inv.chain;
          ends = Ends-link a new x c r;
          blocks =
              AllBlocks-link s.pool.block_size a new ((x, c) ∷ r)
                (record { whole = good.whole; counted = good.counted; owned = good.owned })
                inv.blocks;
          few = omega (arith, count, fits);
          listed = count ∙ omega (arith, inv.listed, length-link a new ((x, c) ∷ r));
          total = inv.total ∙ sym (total_used-link a new ((x, c) ∷ r) raw.0);
          within = inv.within;
          bounded = inv.bounded;
          not_trivial = inv.not_trivial;
        },
        raw.0,
        refl,
        refl,
        refl,
        refl,
      )
