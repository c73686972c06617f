-- ===== src/Pool/Growing.antt =====
-- server/src/pool.h: the walk of `alloc_page` along blocks that are full, to one that is added.
use l4rdma.Prelude.{
  ℕ, zero, suc, ◌+◌, ◌≤◌, ◌<◌, ◌≡◌, ◌≢◌, refl, sym, ap, ◌∙◌, some, [], ◌∷◌, ◌++◌, arith, length,
  subst,
}
use l4rdma.Run.{Run, ok, ◌>>=◌, Fails, FailsAs, FailsAs-bind}
use l4rdma.Pool.{Ptr, null, Block, Heap, Store, load, walk}
use l4rdma.Pool.Chain.{Cells, Chain, load-ok}
use l4rdma.Pool.FirstFit.{AllFull, find_slot-full, walk-passed}
use l4rdma.Pool.Usage.{used_at, count_used, is_used-none}
use l4rdma.Pool.Invariant.{link}

module _ {BD ED : Type 0} where
  AllFull-link : (n a : ℕ) (bs : Cells BD ED) → AllFull n bs → AllFull n (link a bs)
  AllFull-link n a [] full = tt
  AllFull-link n a ((x, c) ∷ []) full = full
  AllFull-link n a ((x, c) ∷ (d ∷ r)) full = (full.0, AllFull-link n a (d ∷ r) full.1)

  pub link-start :
      (h : Heap BD ED) (prev p a x : Ptr) (c : Block BD ED) (r more : Cells BD ED)
      → Chain h prev p (link a ((x, c) ∷ r) ++ more)
      → p ≡ x
  link-start h prev p a x c [] more ch = ch.0
  link-start h prev p a x c (d ∷ r) more ch = ch.0

  -- A block without used elements adds no used place.
  pub used_at-added :
      (a : Ptr) (b : Block BD ED) (bs : Cells BD ED) (h : Ptr) (i : ℕ)
      → count_used b.elements ≡ 0
      → used_at (link a bs ++ (a, b) ∷ []) h i ≡ used_at bs h i
  used_at-added a b [] h i none_used = ground (arith, is_used-none b.elements i none_used)
  used_at-added a b ((x, c) ∷ []) h i none_used =
      ground (arith, is_used-none b.elements i none_used)
  used_at-added a b ((x, c) ∷ (d ∷ r)) h i none_used =
      ground (arith, used_at-added a b (d ∷ r) h i none_used)

module _ {PD BD ED : Type 0} where
  module _ (alloc_block : Store PD BD ED → Run (Store PD BD ED)) (s : Store PD BD ED) where
    walk-last :
        (fuel : ℕ) (x : Ptr) (c : Block BD ED)
        → x ≢ null
        → s.heap x ≡ some c
        → c.next ≡ null
        → s.pool.block_size ≤ c.element_count
        → walk alloc_block (suc fuel) s x
          ≡ (alloc_block s >>= λ s'. load s'.heap x >>= λ c'. walk alloc_block fuel s' c'.next)
    unfolding walk
    walk-last fuel x c there found ends full =
        rw (load-ok s.heap x c there found, ◌>>=◌, find_slot-full s c full, ends) refl

    -- Behind full blocks, the walk goes on at the block that was added.
    pub walk-added :
        (s' : Store PD BD ED) (a : Ptr) (b : Block BD ED) (fuel prev p x : ℕ) (c : Block BD ED)
        (r : Cells BD ED)
        → alloc_block s ≡ ok s'
        → Chain s.heap prev p ((x, c) ∷ r)
        → Chain s'.heap prev p (link a ((x, c) ∷ r) ++ (a, b) ∷ [])
        → AllFull s.pool.block_size ((x, c) ∷ r)
        → length r + 1 < fuel
        → (fuel' : ℕ) × (prev' : Ptr) × (walk alloc_block fuel s p ≡ walk alloc_block fuel' s' a)
          × (0 < fuel')
          × Chain s'.heap prev' a ((a, b) ∷ [])
    walk-added s' a b zero prev p x c r added ch ch' full enough = absurd (omega arith)
    walk-added s' a b (suc fuel) prev p x c [] added ch ch' full enough = (
      fuel,
      x,
      ap (walk alloc_block (suc fuel) s) ch.0
          ∙ walk-last fuel x c ch.1 ch.2 ch.5 full.0
          ∙ rw (added, ◌>>=◌, load-ok s'.heap x (record c { next = a }) ch'.1 ch'.2, ◌>>=◌) refl,
      omega (arith, enough),
      ch'.5,
    )
    walk-added s' a b (suc fuel) prev p x c ((y, d) ∷ r) added ch ch' full enough =
        let later =
          walk-added s' a b fuel x c.next y d r added ch.5 ch'.5 full.1 (omega (arith, enough)) in
        (
          later.0,
          later.1,
          ap (walk alloc_block (suc fuel) s) ch.0
              ∙ walk-passed alloc_block s fuel x c (load-ok s.heap x c ch.1 ch.2)
                  (find_slot-full s c full.0) (λ none_left. ch.5.1 (sym ch.5.0 ∙ none_left))
              ∙ later.2,
          later.3,
          later.4,
        )

    pub walk-refused :
        (fuel prev p x : ℕ) (c : Block BD ED) (r : Cells BD ED)
        → Fails (alloc_block s)
        → Chain s.heap prev p ((x, c) ∷ r)
        → AllFull s.pool.block_size ((x, c) ∷ r)
        → length r + 1 < fuel
        → FailsAs (walk alloc_block fuel s p) (alloc_block s)
    walk-refused zero prev p x c r refused ch full enough = absurd (omega arith)
    walk-refused (suc fuel) prev p x c [] refused ch full enough =
        subst (λ w. FailsAs w (alloc_block s))
          (sym (ap (walk alloc_block (suc fuel) s) ch.0 ∙ walk-last fuel x c ch.1 ch.2 ch.5 full.0))
          (FailsAs-bind (alloc_block s) _ refused)
    walk-refused (suc fuel) prev p x c ((y, d) ∷ r) refused ch full enough =
        subst (λ w. FailsAs w (alloc_block s))
          (sym (
            ap (walk alloc_block (suc fuel) s) ch.0
            ∙ walk-passed alloc_block s fuel x c (load-ok s.heap x c ch.1 ch.2)
                (find_slot-full s c full.0) (λ none_left. ch.5.1 (sym ch.5.0 ∙ none_left))))
          (walk-refused fuel x c.next y d r refused ch.5 full.1 (omega (arith, enough)))
