-- ===== src/Queue/Objects.antt =====
-- server/src/queue.h and queue.cc: the pool of queue objects. A queue object is a ring in DMA memory
-- with a page of the user access region, the addresses of its pages, and a context `C`.
pub mod Addresses
pub mod Contents
pub mod Returning
pub mod Supply
pub mod Taking
use l4rdma.Prelude.{
  ℕ, zero, suc, ◌+◌, ◌*◌, ◌/◌, ◌%◌, ◌^◌, ◌≤◌, Option, none, some, List, [], ◌∷◌, Bool, false, ltb,
  ◌==◌, if◌then◌else◌, get_elem?, set,
}
use l4rdma.Run.{Run, ok, throw, fault, ◌>>=◌, ◌>>◌, store_words}
use l4rdma.Dma.{DmaMem, hca_page_size}
use l4rdma.Queue.{Queue}
use l4rdma.Pool.{
  Ptr, Element, Block, Heap, Store, Slot, Malloc, write, load, element_at, create_block,
  add_block_to_pool, remove_block_from_pool, destroy_block, alloc_page, free_page,
}
use l4rdma.Mem.{alloc_dma_mem, free_dma_mem, find_page, forget_page}
use l4rdma.Uar.{Uar, UarStore, take_region, return_region}

pub record QueueObj (C : Type 0) : Type 0 where
  pub queue : Queue
  pub id : ℕ
  pub uarp : Slot
  pub pas_list : List ℕ
  pub q_ctx : C

-- `index` is a table from the numbers of queues to their objects, the latest entry first.
pub record QueuePools : Type 0 where
  pub page_entry_count : ℕ
  pub index : List (ℕ × Slot)

abbrev pub QueueStore : Type 0 → Type 0
QueueStore C = Store QueuePools (Unit {0}) (QueueObj C)

-- The services of L4Re: DMA memory, as for pages; memory for blocks, for contexts with any content
-- and for the pool of regions. `malloc_words` is how many words an allocation of so many words can
-- hold.
pub record QueueServices (C : Type 0) : Type 0 where
  pub superpage_shift : ℕ
  pub grant : Heap (Unit {0}) (QueueObj C) → ℕ → Option DmaMem
  pub unmap : Heap (Unit {0}) (QueueObj C) → DmaMem → Bool
  pub malloc : Malloc (Unit {0}) (QueueObj C)
  pub raw_ctx : C
  pub regions : Malloc (Unit {0}) Uar
  pub malloc_words : ℕ → ℕ
  pub holds : (n : ℕ) → n ≤ malloc_words n

-- A pointer that must not be null.
unfoldable pub not_null : Option Slot → Run Slot
not_null none = throw fault
not_null (some slot) = ok slot

module _ {PD BD ED : Type 0} where
  -- The element behind a pointer, read and written.
  unfoldable pub object_at : Store PD BD ED → Slot → Run ED
  object_at s slot = do block ← load s.heap slot.home; e ← element_at block slot.index; ok e.content

  unfoldable pub put_object : Store PD BD ED → Slot → ED → Run (Store PD BD ED)
  put_object s slot content = do
    block ← load s.heap slot.home
    e ← element_at block slot.index
    let changed = set block.elements slot.index (record e { content = content })
    ok (record s { heap = write s.heap slot.home (some (record block { elements = changed })) })

-- How many pages so many entries take.
unfoldable pub page_count : (page_entry_count size : ℕ) → ℕ
page_count page_entry_count size =
    (if size % page_entry_count == 0 then size / page_entry_count else size / page_entry_count + 1)
    % 2 ^ 32

-- The words that the loop of `alloc_queue` writes from page `i` on: the address of each page.
unfoldable pub pas_words : (phys i rounds : ℕ) → List ℕ
pas_words phys i zero = []
pas_words phys i (suc rounds) =
    let page = (phys + i * hca_page_size % 2 ^ 32) % 2 ^ 64 in
    page / 2 ^ 32 ∷ page % 2 ^ 32 ∷ pas_words phys (i + 1) rounds

module _ {C : Type 0} where
  -- The loop of `alloc_block`.
  unfoldable pub init_objects : Ptr → C → List (Element (QueueObj C)) → List (Element (QueueObj C))
  init_objects b raw_ctx [] = []
  init_objects b raw_ctx (e ∷ es) =
      record { used = false; content = record (e.content) { q_ctx = raw_ctx }; owner = b }
      ∷ init_objects b raw_ctx es

  unfoldable pub alloc_block : QueueServices C → QueueStore C → Run (QueueStore C)
  unfolding init_objects
  alloc_block l4 s = do
    (b, s₁) ← create_block l4.malloc s
    block ← load s₁.heap b
    let filled : Block (Unit {0}) (QueueObj C) = record block {
      elements = init_objects b l4.raw_ctx block.elements;
    }
    add_block_to_pool (record s₁ { heap = write s₁.heap b (some filled) }) b

  -- The contexts of the block are freed with it.
  unfoldable pub free_block : QueueStore C → Ptr → Run (QueueStore C)
  free_block s b = do s₁ ← remove_block_from_pool s b; destroy_block s₁ b

  unfoldable pub index_queue : QueueStore C → Slot → Run (QueueStore C)
  index_queue s slot = do
    obj ← object_at s slot
    let pools = record (s.pool.content) { index = (obj.id, slot) ∷ s.pool.content.index }
    ok (record s { pool = record (s.pool) { content = pools } })

  -- `index[id]`, which is null for a number without a queue.
  unfoldable pub get_queue : QueueStore C → ℕ → Run (Slot × QueueObj C)
  get_queue s id = do
    slot ← not_null (find_page id s.pool.content.index)
    obj ← object_at s slot
    ok (slot, obj)

  -- The list of addresses has room for half of the words that are written to it, unless the
  -- allocation holds more than was asked for.
  unfoldable pub alloc_queue :
      QueueServices C → QueueStore C → UarStore → ℕ → Run (Slot × QueueStore C × UarStore)
  unfolding alloc_block not_null pas_words page_count
  alloc_queue l4 s regions size = do
    (found, s₁) ← alloc_page (alloc_block l4) s
    (region, regions₁) ← take_region l4.regions regions
    slot ← not_null found
    uarp ← not_null region
    obj ← object_at s₁ slot
    let pages = page_count s.pool.content.page_entry_count size
    dma ← alloc_dma_mem l4.superpage_shift (l4.grant s₁.heap) (hca_page_size * pages % 2 ^ 32)
    pas_list ← store_words (l4.malloc_words pages) 0 (pas_words dma.phys 0 pages)
    let ring : Queue = record { start = dma.virt; size = size; head = 0; dma_mem = dma }
    s₂ ← put_object s₁ slot (record obj { queue = ring; uarp = uarp; pas_list = pas_list })
    ok (slot, s₂, regions₁)

  unfoldable pub free_queue :
      QueueServices C → QueueStore C → UarStore → ℕ → Run (QueueStore C × UarStore)
  unfolding free_block not_null
  free_queue l4 s regions id = do
    slot ← not_null (find_page id s.pool.content.index)
    let pools = record (s.pool.content) { index = forget_page id s.pool.content.index }
    let s₁ = record s { pool = record (s.pool) { content = pools } }
    obj ← object_at s₁ slot
    regions₁ ← return_region regions obj.uarp
    free_dma_mem (l4.unmap s₁.heap) obj.queue.dma_mem
    s₂ ← free_page free_block s₁ slot
    ok (s₂, regions₁)
