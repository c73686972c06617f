-- ===== src/Examples/Pool.antt =====
-- A pool of two blocks of two elements: the first block is full, one element of the second is used.
use l4rdma.Prelude.{
  inr, ℕ, ◌≡◌, ◌⊎◌, inl, refl, none, some, [], ◌∷◌, Bool, true, false, arith, ◌==◌, if◌then◌else◌,
}
use l4rdma.Run.{Run, ok, throw, fault, Fails, FailsAs, ◌>>=◌}
use l4rdma.Pool.{Ptr, null, Element, Block, Heap, Store, alloc_page, free_page}
use l4rdma.Pool.Chain.{Cells, Chain}
use l4rdma.Pool.FirstFit.{AllFull, with_used, alloc_page-first_fit}
use l4rdma.Pool.RoundTrip.{give_back, free_page-alloc_page}
use l4rdma.Pool.Invariant.{IsPool, Supply}
use l4rdma.Pool.Room.{Takes}
use l4rdma.Pool.Taking.{alloc_page-Takes}
use l4rdma.Pool.Returning.{Returns, Refuses, free_page-Returns}
use l4rdma.Pool.Discarding.{discard-Discharge}
use l4rdma.Pool.Removal.{discard, discard_two}

abbrev element : Ptr → Bool → ℕ → Element ℕ
element home used content = record { used = used; content = content; owner = home }

abbrev first : Block (Unit {0}) ℕ
first = record {
  element_count = 2;
  next = 200;
  prev = null;
  content = tt;
  elements = element 100 true 1 ∷ element 100 true 2 ∷ [];
}

abbrev second : Block (Unit {0}) ℕ
second = record {
  element_count = 1;
  next = null;
  prev = 100;
  content = tt;
  elements = element 200 true 3 ∷ element 200 false 4 ∷ [];
}

abbrev heap : Heap (Unit {0}) ℕ
heap p = if p == 100 then some first else if p == 200 then some second else none

abbrev two_blocks : Store (Unit {0}) (Unit {0}) ℕ
two_blocks = record {
  pool = record {
    max = 1024;
    size = 3;
    block_size = 2;
    block_count = 2;
    content = tt;
    start = 100;
    end = 200;
  };
  heap = heap;
}

two_blocks-Chain : Chain heap null 100 ((100, first) ∷ (200, second) ∷ [])
two_blocks-Chain = (
  refl,
  (λ e. absurd (omega arith)),
  refl,
  refl,
  refl,
  (refl, (λ e. absurd (omega arith)), refl, refl, refl, refl),
)

alloc_page-first_fit_example :
    alloc_page (λ s. throw fault) two_blocks
    ≡ ok (
      some (record { home = 200; index = 1 }),
      with_used two_blocks 200 second (element 200 true 3 ∷ []) (element 200 false 4) [],
    )
alloc_page-first_fit_example =
    alloc_page-first_fit (λ s. throw fault) two_blocks 200 second (element 200 true 3 ∷ [])
      (element 200 false 4) [] (omega arith) refl (refl, tt) refl ((100, first) ∷ []) []
      two_blocks-Chain (omega arith, tt) (λ e. absurd (omega arith)) refl

discard_two_example : (discard two_blocks 100 >>= λ t. discard t 200) ≡ throw fault
discard_two_example = discard_two two_blocks 100 200 first second [] two_blocks-Chain

free_page-alloc_page_example :
    (alloc_page (λ s. throw fault) two_blocks >>= give_back (λ s b. throw fault)) ≡ ok two_blocks
free_page-alloc_page_example =
    free_page-alloc_page (λ s. throw fault) (λ s b. throw fault) two_blocks 200 second
      (element 200 true 3 ∷ []) (element 200 false 4) [] (omega arith, omega arith)
      (refl, (refl, tt), refl, refl) (refl, λ e. absurd (omega arith)) (omega arith, omega arith)
      ((100, first) ∷ []) [] two_blocks-Chain (omega arith, tt) (λ e. absurd (omega arith)) refl

abbrev cells : Cells (Unit {0}) ℕ
cells = (100, first) ∷ (200, second) ∷ []

two_blocks-IsPool : IsPool two_blocks cells
two_blocks-IsPool = record {
  chain = two_blocks-Chain;
  ends = refl;
  blocks = (
    record { whole = refl; counted = refl; owned = (refl, (refl, tt)) },
    (record { whole = refl; counted = refl; owned = (refl, (refl, tt)) }, tt),
  );
  listed = refl;
  few = omega arith;
  total = refl;
  within = omega arith;
  bounded = omega arith;
  not_trivial = (omega arith, omega arith);
}

-- No further block can be had.
refuse : Store (Unit {0}) (Unit {0}) ℕ → Run (Store (Unit {0}) (Unit {0}) ℕ)
refuse s = throw fault

refuse-Supply : Supply refuse
unfolding refuse
refuse-Supply = record { adds = λ s bs inv full open_pool. inl refl }

alloc_page-Takes_example :
    ((two_blocks.pool.size ≡ 1024) × (alloc_page refuse two_blocks ≡ ok (none, two_blocks)))
    ⊎ (AllFull 2 cells
        × Fails (refuse two_blocks)
        × FailsAs (alloc_page refuse two_blocks) (refuse two_blocks))
    ⊎ Takes two_blocks cells (alloc_page refuse two_blocks)
alloc_page-Takes_example = alloc_page-Takes refuse two_blocks cells refuse-Supply two_blocks-IsPool

-- The only used element of the last block is given back.
free_page-Returns_example :
    Returns two_blocks cells
      (record { home = 200; index = 0 })
      (free_page discard two_blocks (record { home = 200; index = 0 }))
    ⊎ Refuses
        (λ s a. ⊥)
        discard
        cells
        (record { home = 200; index = 0 })
        (free_page discard two_blocks (record { home = 200; index = 0 }))
free_page-Returns_example =
    free_page-Returns (λ s a. ⊥) discard two_blocks cells (record { home = 200; index = 0 })
      (discard-Discharge discard (λ s a. refl)) two_blocks-IsPool refl
      (inr (λ e. absurd (omega arith)))
