-- ===== src/Pool/Taking.antt =====
-- server/src/pool.h: `alloc_page` on any pool, as an operation on the set of its used places.
use l4rdma.Prelude.{
  ℕ, ◌+◌, ◌<◌, ◌≡◌, ◌≢◌, refl, sym, ap, ◌∙◌, ◌⊎◌, inl, inr, true, false, Option, none, some, [],
  ◌∷◌, ◌++◌, arith, ◌==◌, ◌&&◌, if◌then◌else◌, Bool-cases, subst,
}
use l4rdma.Run.{Run, ok, ◌>>=◌, Fails, FailsAs, FailsAs-bind, FailsAs-first}
use l4rdma.Pool.{Ptr, null, Block, Store, Slot, walk, alloc_page}
use l4rdma.Pool.Chain.{Cells, Chain}
use l4rdma.Pool.FirstFit.{AllFull}
use l4rdma.Pool.Usage.{find-Gap, count_used}
use l4rdma.Pool.Invariant.{IsPool, IsBlock-middle, link, Added, Supply}
use l4rdma.Pool.Room.{Takes, slot_in, store_in, cells_in, Taken-room, alloc_page-room, walk-room}
use l4rdma.Pool.Growing.{used_at-added, link-start, walk-added, walk-refused}

module _ {PD BD ED : Type 0} where
  abbrev give : Run (Slot × Store PD BD ED) → Run (Option Slot × Store PD BD ED)
  give r = r >>= λ x. ok (some x.0, x.1)

  module _ (alloc_block : Store PD BD ED → Run (Store PD BD ED)) (s : Store PD BD ED)
      (open_pool : s.pool.size ≢ s.pool.max) where
    alloc_page-empty :
        s.pool.block_count ≡ 0
        → alloc_page alloc_block s ≡ (
            alloc_block s >>= λ s'.
            give (walk alloc_block (s'.pool.block_count + 2) s' s'.pool.start))
    unfolding alloc_page
    alloc_page-empty empty =
        let not_max : (s.pool.size == s.pool.max) ≡ false = ground arith in
        let none_yet : (s.pool.block_count == 0) ≡ true = ground arith in
        rw (not_max, none_yet) refl

    alloc_page-listed :
        0 < s.pool.block_count
        → alloc_page alloc_block s ≡ give (walk alloc_block (s.pool.block_count + 2) s s.pool.start)
    unfolding alloc_page
    alloc_page-listed listed =
        let not_max : (s.pool.size == s.pool.max) ≡ false = ground arith in
        let some_block : (s.pool.block_count == 0) ≡ false = ground arith in
        rw (not_max, some_block) refl

  alloc_page-full :
      (alloc_block : Store PD BD ED → Run (Store PD BD ED)) (s : Store PD BD ED)
      → s.pool.size ≡ s.pool.max
      → alloc_page alloc_block s ≡ ok (none, s)
  unfolding alloc_page
  alloc_page-full alloc_block s full =
      let at_max : (s.pool.size == s.pool.max) ≡ true = ground arith in rw at_max refl

  -- The first element of a block that was just added.
  Takes-added :
      (alloc_block : Store PD BD ED → Run (Store PD BD ED)) (s : Store PD BD ED) (bs : Cells BD ED)
      (s' : Store PD BD ED) (a : Ptr) (b : Block BD ED) (r : Run (Option Slot × Store PD BD ED))
      (fuel prev : ℕ)
      → IsPool s' (link a bs ++ (a, b) ∷ [])
      → b.element_count ≡ 0
      → s'.pool.size ≢ s'.pool.max
      → Chain s'.heap prev a ((a, b) ∷ [])
      → 0 < fuel
      → s'.pool.content ≡ s.pool.content
      → r ≡ give (walk alloc_block fuel s' a)
      → Takes s bs r
  Takes-added alloc_block s bs s' a b r fuel prev inv empty open_pool ch enough content eq =
      let room : b.element_count < s'.pool.block_size = omega (arith, inv.not_trivial, empty) in
      let block = IsBlock-middle s'.pool.block_size a b (link a bs) [] inv.blocks in
      let none_used : count_used b.elements ≡ 0 = block.counted ∙ empty in
      let taken = Taken-room s' a b (link a bs) [] inv room open_pool in
      let slot = slot_in s' a b (link a bs) [] inv room in
      (
        slot,
        store_in s' a b (link a bs) [] inv room,
        cells_in s' a b (link a bs) [] inv room,
        eq ∙ ap give (walk-room s' a b (link a bs) [] inv room alloc_block fuel prev ch enough),
        (
          (
            taken.0.0,
            sym (used_at-added a b bs slot.home slot.index none_used) ∙ taken.0.1,
            λ h i.
                taken.0.2 h i
                ∙ ap (λ u. if (h == slot.home) && (i == slot.index) then true else u)
                    (used_at-added a b bs h i none_used),
          ),
          taken.1 ∙ content,
        ),
      )

  abbrev Refused : (Store PD BD ED → Run (Store PD BD ED)) → Store PD BD ED → Cells BD ED → Type 0
  Refused alloc_block s bs =
      AllFull s.pool.block_size bs
      × Fails (alloc_block s)
      × FailsAs (alloc_page alloc_block s) (alloc_block s)

  -- Without room, a block is added first.
  alloc_page-crowded :
      (alloc_block : Store PD BD ED → Run (Store PD BD ED)) (s : Store PD BD ED) (bs : Cells BD ED)
      → s.pool.size ≢ s.pool.max
      → IsPool s bs
      → AllFull s.pool.block_size bs
      → Fails (alloc_block s) ⊎ Added s bs (alloc_block s)
      → Refused alloc_block s bs ⊎ Takes s bs (alloc_page alloc_block s)
  alloc_page-crowded alloc_block s [] open_pool inv full (inl refused) = inl (
    full,
    refused,
    subst (λ w. FailsAs w (alloc_block s))
        (sym (alloc_page-empty alloc_block s open_pool inv.listed))
        (FailsAs-bind (alloc_block s) _ refused),
  )
  alloc_page-crowded alloc_block s [] open_pool inv full
        (inr (s', a, b, added, inv', empty, size, max, same, content)) =
      let first = inv'.chain in
      inr (
        Takes-added alloc_block s [] s' a b (alloc_page alloc_block s) (s'.pool.block_count + 2)
          null inv' empty (λ e. open_pool (sym size ∙ e ∙ max))
          (refl, first.1, first.2, first.3, first.4, first.5) (omega arith) content
          (alloc_page-empty alloc_block s open_pool inv.listed
            ∙ ap (λ m. m >>= λ t. give (walk alloc_block (t.pool.block_count + 2) t t.pool.start))
                added
            ∙ ap (λ p. give (walk alloc_block (s'.pool.block_count + 2) s' p)) first.0))
  alloc_page-crowded alloc_block s ((x, c) ∷ r) open_pool inv full (inl refused) =
      let failed =
        walk-refused alloc_block s (s.pool.block_count + 2) null s.pool.start x c r refused
          inv.chain full (omega (arith, inv.listed)) in
      inl (
        full,
        refused,
        subst (λ w. FailsAs w (alloc_block s))
            (sym (alloc_page-listed alloc_block s open_pool (omega (arith, inv.listed))))
            (FailsAs-first (walk alloc_block (s.pool.block_count + 2) s s.pool.start) _
              (alloc_block s) failed),
      )
  alloc_page-crowded alloc_block s ((x, c) ∷ r) open_pool inv full
        (inr (s', a, b, added, inv', empty, size, max, same, content)) =
      let listed = alloc_page-listed alloc_block s open_pool (omega (arith, inv.listed)) in
      let starts =
        inv.chain.0
        ∙ sym (link-start s'.heap null s'.pool.start a x c r ((a, b) ∷ []) inv'.chain) in
      let chain' =
        subst (λ p. Chain s'.heap null p (link a ((x, c) ∷ r) ++ (a, b) ∷ [])) (sym starts)
          inv'.chain in
      let walked =
        walk-added alloc_block s s' a b (s.pool.block_count + 2) null s.pool.start x c r added
          inv.chain chain' full (omega (arith, inv.listed)) in
      inr (
        Takes-added alloc_block s ((x, c) ∷ r) s' a b (alloc_page alloc_block s) walked.0 walked.1
          inv' empty (λ e. open_pool (sym size ∙ e ∙ max)) walked.4 walked.3 content
          (listed ∙ ap give walked.2))

  -- On a well-formed pool, where the function for another block keeps its promise, `alloc_page`
  -- does one of three things. The pool is full, and it returns a null pointer and changes nothing;
  -- or all blocks are full and the call for another one fails, and it fails in the same way; or it
  -- returns a place that was not used, which is used then, while every other place and the
  -- pool's own data are as before and the pool is well-formed again.
  pub alloc_page-Takes :
      (alloc_block : Store PD BD ED → Run (Store PD BD ED)) (s : Store PD BD ED) (bs : Cells BD ED)
      → Supply alloc_block
      → IsPool s bs
      → ((s.pool.size ≡ s.pool.max) × (alloc_page alloc_block s ≡ ok (none, s)))
        ⊎ (AllFull s.pool.block_size bs
            × Fails (alloc_block s)
            × FailsAs (alloc_page alloc_block s) (alloc_block s))
        ⊎ Takes s bs (alloc_page alloc_block s)
  alloc_page-Takes alloc_block s bs supply inv = elim (Bool-cases (s.pool.size == s.pool.max)) [
    | inl at_max ↦
        let full : s.pool.size ≡ s.pool.max = ground arith in
        inl (full, alloc_page-full alloc_block s full)
    | inr away ↦
        let open_pool : s.pool.size ≢ s.pool.max = λ e. ground (arith, e, away) in
        inr (elim (find-Gap s.pool.block_size bs) [
          | inl full ↦
              alloc_page-crowded alloc_block s bs open_pool inv full
                (supply.adds s bs inv full open_pool)
          | inr (front, a, b, back, parts, full, room) ↦
              let inv' = subst (IsPool s) parts inv in
              inr (
                subst (λ cells. Takes s cells (alloc_page alloc_block s)) (sym parts)
                  (alloc_page-room s a b front back inv' room alloc_block full open_pool))
        ])
  ]
