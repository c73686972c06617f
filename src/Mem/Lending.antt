-- ===== src/Mem/Lending.antt =====
-- server/src/mem.cc: `MEM::alloc_page` on a well-formed pool of pages.
use l4rdma.Prelude.{◌≡◌, refl, ap, ◌∙◌, ◌⊎◌, inl, inr, true, ◌∷◌, arith}
use l4rdma.Run.{Run, ok, throw, fault, Fails, FailsAs, FailsAs-first, ◌>>=◌}
use l4rdma.Dma.{DmaMem}
use l4rdma.Pool.{Slot, alloc_page}
use l4rdma.Pool.Chain.{Cells}
use l4rdma.Pool.FirstFit.{AllFull}
use l4rdma.Pool.Blocks.{IsMalloc}
use l4rdma.Pool.Usage.{used_at}
use l4rdma.Pool.Invariant.{IsPool, with_content, with_content-IsPool}
use l4rdma.Pool.Room.{WithPlace, place_used}
use l4rdma.Pool.Taking.{alloc_page-Takes}
use l4rdma.Mem.{MemPage, MemPools, MemStore, L4re, alloc_block, page_at, lend_page, find_page}
use l4rdma.Mem.Supply.{alloc_block-Supply}

page_at-used :
    (s : MemStore) (bs : Cells DmaMem MemPage) (slot : Slot)
    → IsPool s bs
    → used_at bs slot.home slot.index ≡ true
    → (page : MemPage) × (page_at s slot ≡ ok page)
unfolding page_at
page_at-used s bs slot inv used =
    let (b, e, loaded, element, marked) =
      place_used s.heap _ s.pool.start bs slot.home slot.index inv.chain used in
    (e.content, rw (loaded, ◌>>=◌, element, ◌>>=◌) refl)

-- A page is lent: its place was not used and is used now, every other place is as before, and the
-- page stands in the index under its address, before the entries that were there.
abbrev pub Lends : MemStore → Cells DmaMem MemPage → Run (MemPage × MemStore) → Type 0
Lends s bs r =
    (page : MemPage) × (slot : Slot) × (s' : MemStore) × (bs' : Cells DmaMem MemPage) × (r
      ≡ ok (page, s'))
    × WithPlace bs s' bs' slot
    × (page_at s' slot ≡ ok page)
    × (s'.pool.content.index ≡ (page.phys, slot) ∷ s.pool.content.index)

-- From a well-formed pool of pages, where `malloc` keeps its promise, `lend_page` does one of three
-- things. The pool is full, and it reads a null pointer; or all blocks are full and the call for
-- another one fails, and it fails in the same way; or it returns a page at a place that was not
-- used, which is used then and stands in the index under the page's address, while every other
-- place and the other entries are as before and the pool is well-formed again.
pub lend_page-Lends :
    (l4 : L4re) (s : MemStore) (bs : Cells DmaMem MemPage)
    → IsMalloc l4.malloc
    → IsPool s bs
    → ((s.pool.size ≡ s.pool.max) × (lend_page l4 s ≡ throw fault))
      ⊎ (AllFull s.pool.block_size bs
          × Fails (alloc_block l4 s)
          × FailsAs (lend_page l4 s) (alloc_block l4 s))
      ⊎ Lends s bs (lend_page l4 s)
unfolding lend_page find_page page_at
lend_page-Lends l4 s bs law inv =
    elim (alloc_page-Takes (alloc_block l4) s bs (alloc_block-Supply l4 law) inv) [
      | inl (full, gives) ↦ inl (full, rw gives refl)
      | inr (inl (full, refused, same)) ↦ inr (
          inl (
            full,
            refused,
            FailsAs-first (alloc_page (alloc_block l4) s) _ (alloc_block l4 s) same,
          ))
      | inr (inr (slot, s₁, bs', gives, ((inv', was, now), content))) ↦
          let used : used_at bs' slot.home slot.index ≡ true =
            now slot.home slot.index ∙ ground arith in
          let (page, read) = page_at-used s₁ bs' slot inv' used in
          let pools : MemPools = record { index = (page.phys, slot) ∷ s₁.pool.content.index } in
          inr (
            inr (
              page,
              slot,
              with_content s₁ pools,
              bs',
              rw (gives, ◌>>=◌, read, ◌>>=◌) refl,
              (with_content-IsPool s₁ pools bs' inv', was, now),
              read,
              ap (λ c. (page.phys, slot) ∷ c.index) content,
            ))
    ]
