-- ===== src/Examples/Mem.antt =====
-- A full block of the pool of pages, and an allocator that knows one free address.
use l4rdma.Prelude.{
  ℕ, ◌≡◌, ◌≢◌, ◌⊎◌, refl, Option, some, none, [], ◌∷◌, ◌+◌, ◌*◌, sym, ap, ◌∙◌, subst, true, arith,
  inl, inr, replicate, length-replicate,
}
use l4rdma.Run.{throw, fault, Fails, FailsAs}
use l4rdma.Dma.{DmaMem}
use l4rdma.Pool.{Block, Heap, Element, Malloc}
use l4rdma.Pool.Chain.{Cells}
use l4rdma.Pool.FirstFit.{AllFull}
use l4rdma.Pool.Blocks.{IsMalloc}
use l4rdma.Pool.Invariant.{IsPool}
use l4rdma.Mem.{find_page, MemPage, L4re, alloc_block, free_block, lend_page, return_page}
use l4rdma.Pool.{Slot}
use l4rdma.Pool.Usage.{used_at}
use l4rdma.Pool.Returning.{Refuses}
use l4rdma.Mem.Discharge.{StaysMapped}
use l4rdma.Mem.Index.{IsIndexed, Unlends, entry-cases, return_page-Unlends}
use l4rdma.Mem.Lending.{Lends, lend_page-Lends}
use l4rdma.Examples.Driver.{block, lent, services, store}

module _ {BD ED : Type 0} where
  abbrev free_address : Option (Block BD ED) → ℕ
  free_address none = 300
  free_address (some b) = 0

  free_address-fresh :
      (h : Heap BD ED) (found : Option (Block BD ED))
      → h 300 ≡ found
      → free_address found ≢ 0
      → h (free_address found) ≡ none
  free_address-fresh h none e there = e
  free_address-fresh h (some b) e there = absurd (there refl)

  -- Memory for one block.
  module _ (content : BD) (element : Element ED) where
    abbrev pub one_block : Malloc BD ED
    one_block = record {
      address = λ h. free_address (h 300);
      raw_content = content;
      raw_elements = λ n. replicate n element;
    }

    pub one_block-IsMalloc : IsMalloc one_block
    one_block-IsMalloc = record {
      fresh = λ h there. free_address-fresh h (h 300) refl there;
      whole = λ n. length-replicate n element;
    }

abbrev malloc : Malloc DmaMem MemPage
malloc = one_block (record { virt = 0; phys = 0 }) (lent 0)

pub malloc-IsMalloc : IsMalloc malloc
malloc-IsMalloc = one_block-IsMalloc (record { virt = 0; phys = 0 }) (lent 0)

abbrev pub l4re : L4re
l4re = record services {
  grant = λ h size. some (record { virt = 0xa0_0000; phys = 0x1_00a0_0000 });
  malloc = malloc;
}

abbrev cells : Cells DmaMem MemPage
cells = (100, block) ∷ []

store-IsPool : IsPool store cells
store-IsPool = record {
  chain = (refl, (λ e. absurd (omega arith)), refl, refl, refl, refl);
  ends = refl;
  blocks = (record { whole = refl; counted = refl; owned = (refl, (refl, tt)) }, tt);
  listed = refl;
  few = omega arith;
  total = refl;
  within = omega arith;
  bounded = omega arith;
  not_trivial = (omega arith, omega arith);
}

lend_page-Lends_example :
    ((store.pool.size ≡ store.pool.max) × (lend_page l4re store ≡ throw fault))
    ⊎ (AllFull 2 cells
        × Fails (alloc_block l4re store)
        × FailsAs (lend_page l4re store) (alloc_block l4re store))
    ⊎ Lends store cells (lend_page l4re store)
lend_page-Lends_example = lend_page-Lends l4re store cells malloc-IsMalloc store-IsPool

abbrev place : ℕ → Slot
place i = record { home = 100; index = i }

abbrev phys : ℕ → ℕ
phys i = 0x1_0080_0000 + i * 4096

-- The two entries of the index.
store_entry :
    (q : ℕ) (slot : Slot)
    → find_page q store.pool.content.index ≡ some slot
    → ((phys 1 ≡ q) × (place 1 ≡ slot)) ⊎ ((phys 0 ≡ q) × (place 0 ≡ slot))
unfolding find_page
store_entry q slot found =
    elim (entry-cases ((phys 0, place 0) ∷ []) (phys 1) q (place 1) slot found) [
      | inl first ↦ inl first
      | inr later ↦ elim (entry-cases [] (phys 0) q (place 0) slot later) [
        | inl second ↦ inr second
        | inr neither ↦ cc
      ]
    ]

store-IsIndexed : IsIndexed store cells
store-IsIndexed = record {
  pool = store-IsPool;
  lent = λ q slot found. elim (store_entry q slot found) [
    | inl (_, at) ↦ subst (λ x. used_at cells x.home x.index ≡ true) at refl
    | inr (_, at) ↦ subst (λ x. used_at cells x.home x.index ≡ true) at refl
  ];
  apart = λ p q slot found other. elim (store_entry p slot found) [
    | inl (here, at) ↦ elim (store_entry q slot other) [
      | inl (there, _) ↦ sym here ∙ there
      | inr (_, at') ↦ absurd (ground (arith, ap (λ x. x.index) at, ap (λ x. x.index) at'))
    ]
    | inr (here, at) ↦ elim (store_entry q slot other) [
      | inl (_, at') ↦ absurd (ground (arith, ap (λ x. x.index) at, ap (λ x. x.index) at'))
      | inr (there, _) ↦ sym here ∙ there
    ]
  ];
}

return_page-Unlends_example :
    Unlends store cells (phys 1) (place 1) (return_page l4re store (phys 1))
    ⊎ Refuses (StaysMapped l4re) (free_block l4re) cells (place 1) (return_page l4re store (phys 1))
return_page-Unlends_example =
    return_page-Unlends l4re store cells (phys 1) (place 1) store-IsIndexed
      (unfold find_page in refl) (inl (omega arith))
