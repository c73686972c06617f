-- ===== src/Mem/PageCalls.antt =====
-- server/src/mem.h: the pool of pages under any sequence of `alloc_page` and `free_page` calls.
use l4rdma.Prelude.{
  ℕ, ◌≤◌, ◌≡◌, ◌≢◌, sym, ap, ◌∙◌, ◌⊎◌, inl, inr, some, [], ◌∷◌, ◌++◌, true, arith, subst,
}
use l4rdma.Run.{ok, ok-injective, FailsAs-ok}
use l4rdma.Pool.Relink.{has-append}
use l4rdma.Dma.{DmaMem}
use l4rdma.Pool.{Ptr, Block, Heap, Slot, null, load}
use l4rdma.Pool.Chain.{Cells, Chain, load-ok}
use l4rdma.Pool.Blocks.{IsMalloc}
use l4rdma.Pool.Usage.{used_at, Chain-found, Chain-there}
use l4rdma.Pool.Discarding.{OffHead}
use l4rdma.Pool.Invariant.{IsPool}
use l4rdma.Pool.Room.{find-Place}
use l4rdma.Pool.Returning.{Keeps}
use l4rdma.Mem.{MemPage, MemStore, L4re, find_page, alloc_block, free_block, lend_page, return_page}
use l4rdma.Mem.Index.{IsIndexed, insert-IsIndexed, return_page-Unlends}
use l4rdma.Mem.Lending.{lend_page-Lends}

-- The block has another used page, or a block before it, or none behind it.
abbrev pub CanReturn : MemStore → Slot → Type 0
CanReturn s slot =
    (b : Block DmaMem MemPage) × (load s.heap slot.home ≡ ok b)
    × ((2 ≤ b.element_count) ⊎ (b.prev ≢ null) ⊎ (b.next ≡ null))

-- Calls of `lend_page` and `return_page` that succeed, one after the other.
pub data PageCalls (l4 : L4re) (s : MemStore) : MemStore → Type 0 where
  here : PageCalls l4 s s
  lend :
      {t t' : MemStore} (page : MemPage)
      → PageCalls l4 s t
      → lend_page l4 t ≡ ok (page, t')
      → PageCalls l4 s t'
  give_back :
      {t t' : MemStore} (phys : ℕ) (slot : Slot)
      → PageCalls l4 s t
      → find_page phys t.pool.content.index ≡ some slot
      → CanReturn t slot
      → return_page l4 t phys ≡ ok t'
      → PageCalls l4 s t'

pub PageCalls-PageCalls :
    {l4 : L4re} {s t u : MemStore} → PageCalls l4 s t → PageCalls l4 t u → PageCalls l4 s u
PageCalls-PageCalls first here = first
PageCalls-PageCalls first (lend page later gives) =
    lend page (PageCalls-PageCalls first later) gives
PageCalls-PageCalls first (give_back phys slot later found can gives) =
    give_back phys slot (PageCalls-PageCalls first later) found can gives

module _ {BD ED : Type 0} where
  -- A first block with others behind it has a pointer to the next one and none to a previous one.
  OffHead-pointers :
      (h : Heap BD ED) (p a : Ptr) (b : Block BD ED) (front back : Cells BD ED)
      → Chain h null p (front ++ (a, b) ∷ back)
      → (b.prev ≢ null) ⊎ (b.next ≡ null)
      → OffHead (front ++ (a, b) ∷ back) a
  OffHead-pointers h p a b [] [] ch ends = tt
  OffHead-pointers h p a b [] ((y, d) ∷ back) ch (inl later) = absurd (later ch.3)
  OffHead-pointers h p a b [] ((y, d) ∷ back) ch (inr last) = absurd (ch.5.1 (sym ch.5.0 ∙ last))
  OffHead-pointers h p a b ((x, c) ∷ []) back ch ends = λ e. ground (arith, ch.4, e)
  OffHead-pointers h p a b ((x, c) ∷ (d ∷ front)) back ch ends =
      λ e. ground (arith, has-append x (d ∷ front) ((a, b) ∷ back), ch.4, e)

Keeps-CanReturn :
    (s : MemStore) (bs : Cells DmaMem MemPage) (slot : Slot)
    → IsPool s bs
    → used_at bs slot.home slot.index ≡ true
    → CanReturn s slot
    → Keeps bs slot.home
Keeps-CanReturn s bs slot inv used (c, loaded, can) =
    let (front, b, back, taken, e, rest, place, parts, at, marked, counted) =
      find-Place bs slot.home slot.index used in
    let a = slot.home in
    let chain = subst (Chain s.heap null s.pool.start) place inv.chain in
    let found =
      load-ok s.heap a b (Chain-there s.heap null s.pool.start a b front back chain)
        (Chain-found s.heap null s.pool.start a b front back chain) in
    let same : b ≡ c = ok-injective b c (sym found ∙ loaded) in
    elim can [
      | inl busy ↦ inl (omega (arith, busy, counted, ap (λ x. x.element_count) same))
      | inr ends ↦
          let ends' : (b.prev ≢ null) ⊎ (b.next ≡ null) =
            subst (λ x. (x.prev ≢ null) ⊎ (x.next ≡ null)) (sym same) ends in
          inr (
            subst (λ cells. OffHead cells a) (sym place)
              (OffHead-pointers s.heap s.pool.start a b front back chain ends'))
    ]

module _ (l4 : L4re) (law : IsMalloc l4.malloc) where
  lend_page-IsIndexed :
      (s s' : MemStore) (bs : Cells DmaMem MemPage) (page : MemPage)
      → IsIndexed s bs
      → lend_page l4 s ≡ ok (page, s')
      → (bs' : Cells DmaMem MemPage) × IsIndexed s' bs'
  lend_page-IsIndexed s s' bs page inv gives = elim (lend_page-Lends l4 s bs law inv.pool) [
    | inl (full, faults) ↦ cc (gives, faults)
    | inr (inl (full, refused, same)) ↦
        absurd (FailsAs-ok (lend_page l4 s) (alloc_block l4 s) _ same gives)
    | inr (inr (page', slot, t, bs', gives', with_it, read, listed)) ↦
        let same : t ≡ s' = ap (λ x. x.1) (ok-injective _ _ (sym gives' ∙ gives)) in
        (
          bs',
          subst (λ x. IsIndexed x bs') same
              (insert-IsIndexed s t bs bs' page'.phys slot inv with_it listed),
        )
  ]

  return_page-IsIndexed :
      (s s' : MemStore) (bs : Cells DmaMem MemPage) (phys : ℕ) (slot : Slot)
      → IsIndexed s bs
      → find_page phys s.pool.content.index ≡ some slot
      → CanReturn s slot
      → return_page l4 s phys ≡ ok s'
      → (bs' : Cells DmaMem MemPage) × IsIndexed s' bs'
  return_page-IsIndexed s s' bs phys slot inv found can gives =
      let keeps = Keeps-CanReturn s bs slot inv.pool (inv.lent phys slot found) can in
      elim (return_page-Unlends l4 s bs phys slot inv found keeps) [
        | inl (t, bs', gives', inv', without, entries) ↦
            (bs', subst (λ x. IsIndexed x bs') (ok-injective _ _ (sym gives' ∙ gives)) inv')
        | inr (t, bs', without, mapped, fails) ↦
            absurd (FailsAs-ok (return_page l4 s phys) (free_block l4 t slot.home) s' fails gives)
      ]

  -- Whatever the order of the calls, the pool and its index stay well-formed.
  pub PageCalls-IsIndexed :
      {s t : MemStore} (bs : Cells DmaMem MemPage)
      → PageCalls l4 s t
      → IsIndexed s bs
      → (bs' : Cells DmaMem MemPage) × IsIndexed t bs'
  PageCalls-IsIndexed bs here inv = (bs, inv)
  PageCalls-IsIndexed bs (lend page steps gives) inv =
      let (bs₁, inv₁) = PageCalls-IsIndexed bs steps inv in
      lend_page-IsIndexed _ _ bs₁ page inv₁ gives
  PageCalls-IsIndexed bs (give_back phys slot steps found can gives) inv =
      let (bs₁, inv₁) = PageCalls-IsIndexed bs steps inv in
      return_page-IsIndexed _ _ bs₁ phys slot inv₁ found can gives
