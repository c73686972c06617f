-- ===== src/Examples/Queue.antt =====
-- A queue object in a pool of one block, with a page of a region in another pool.
use l4rdma.Prelude.{
  ℕ, ◌+◌, ◌*◌, ◌≡◌, ◌⊎◌, inl, refl, none, some, [], ◌∷◌, true, false, arith, ◌==◌, if◌then◌else◌,
}
use l4rdma.Run.{Fails, throw, l4_error}
use l4rdma.Pool.{Ptr, null, Element, Block, Slot, load, element_at}
use l4rdma.Pool.Chain.{Cells}
use l4rdma.Pool.Invariant.{IsPool}
use l4rdma.Mem.{find_page}
use l4rdma.Uar.{Uar, UarStore}
use l4rdma.Queue.Objects.{QueueObj, QueueStore, QueueServices, object_at, alloc_queue, free_queue}
use l4rdma.Queue.Objects.Returning.{Frees, free_queue-Frees}
use l4rdma.Queue.Objects.Taking.{Lacks, Allocates, alloc_queue-Allocates}
use l4rdma.Context.{EqCtx}
use l4rdma.Examples.Cmd.{ring}
use l4rdma.Examples.Event.{eq_ctx, queue_services, queues, regions, raw_object, raw_region}
use l4rdma.Examples.Mem.{one_block, one_block-IsMalloc}

abbrev element : {A : Type 0} → Ptr → A → Element A
element home content = record { used = true; content = content; owner = home }

-- A block of two elements that are both used.
abbrev block : {A : Type 0} → Ptr → A → A → Block (Unit {0}) A
block home x y = record {
  element_count = 2;
  next = null;
  prev = null;
  content = tt;
  elements = element home x ∷ element home y ∷ [];
}

abbrev object : (id : ℕ) → QueueObj EqCtx
object id = record {
  queue = ring;
  id = id;
  uarp = record { home = 800; index = 1 };
  pas_list = [];
  q_ctx = eq_ctx;
}

abbrev place : Slot
place = record { home = 500; index = 1 }

abbrev store : QueueStore EqCtx
store = record {
  pool = record ((queues EqCtx).pool) {
    size = 2;
    block_size = 2;
    block_count = 1;
    content = record { page_entry_count = 64; index = (7, place) ∷ [] };
    start = 500;
    end = 500;
  };
  heap = λ p. if p == 500 then some (block 500 (object 6) (object 7)) else none;
}

abbrev page : ℕ → Uar
page i = record { index = 5; addr = 0x5000 + 4096 * i }

abbrev pages : UarStore
pages = record {
  pool = record (regions.pool) {
    size = 2;
    block_size = 2;
    block_count = 1;
    start = 800;
    end = 800;
  };
  heap = λ p. if p == 800 then some (block 800 (page 0) (page 1)) else none;
}

abbrev object_cells : Cells (Unit {0}) (QueueObj EqCtx)
object_cells = (500, block 500 (object 6) (object 7)) ∷ []

abbrev page_cells : Cells (Unit {0}) Uar
page_cells = (800, block 800 (page 0) (page 1)) ∷ []

store-IsPool : IsPool store object_cells
store-IsPool = record {
  chain = (refl, (λ e. absurd (omega arith)), refl, refl, refl, refl);
  ends = refl;
  blocks = (record { whole = refl; counted = refl; owned = (refl, (refl, tt)) }, tt);
  listed = refl;
  few = omega arith;
  total = refl;
  within = omega arith;
  bounded = omega arith;
  not_trivial = (omega arith, omega arith);
}

pages-IsPool : IsPool pages page_cells
pages-IsPool = record {
  chain = (refl, (λ e. absurd (omega arith)), refl, refl, refl, refl);
  ends = refl;
  blocks = (record { whole = refl; counted = refl; owned = (refl, (refl, tt)) }, tt);
  listed = refl;
  few = omega arith;
  total = refl;
  within = omega arith;
  bounded = omega arith;
  not_trivial = (omega arith, omega arith);
}

free_queue-Frees_example :
    let services = queue_services EqCtx eq_ctx in
    let r = free_queue services store pages 7 in
    ((services.unmap store.heap ring.dma_mem ≡ true)
      × Frees store object_cells pages page_cells 7 place (object 7).uarp r)
    ⊎ ((services.unmap store.heap ring.dma_mem ≡ false) × (r ≡ throw l4_error))
free_queue-Frees_example =
    free_queue-Frees (queue_services EqCtx eq_ctx) store object_cells pages page_cells 7 place
      (object 7) store-IsPool pages-IsPool (unfold find_page in refl)
      (unfold object_at load element_at in refl) refl (inl (omega arith)) refl (inl (omega arith))

-- Memory for a block of each pool, and for more words than are asked for.
abbrev services : QueueServices EqCtx
services = record (queue_services EqCtx eq_ctx) {
  malloc = one_block tt (raw_object EqCtx eq_ctx);
  regions = one_block tt raw_region;
  malloc_words = λ n. 2 * n;
  holds = λ n. omega arith;
}

alloc_queue-Allocates_example :
    (Lacks services store pages 70 × Fails (alloc_queue services store pages 70))
    ⊎ Allocates store object_cells page_cells 70 (alloc_queue services store pages 70)
alloc_queue-Allocates_example =
    alloc_queue-Allocates services store pages 70 object_cells page_cells
      (one_block-IsMalloc tt (raw_object EqCtx eq_ctx)) (one_block-IsMalloc tt raw_region)
      store-IsPool pages-IsPool
