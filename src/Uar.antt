-- ===== src/Uar.antt =====
-- server/src/uar.h and uar.cc: the pool of pages of a user access region.
pub mod Returning
pub mod Supply
use l4rdma.Prelude.{ℕ, ◌+◌, ◌*◌, ◌%◌, ◌^◌, Option, some, List, [], ◌∷◌, false}
use l4rdma.Run.{Run, ◌>>=◌}
use l4rdma.Dma.{hca_page_size}
use l4rdma.Pool.{
  Ptr, Element, Block, Store, Slot, Malloc, write, load, create_block, add_block_to_pool,
  remove_block_from_pool, destroy_block, alloc_page, free_page,
}

-- `addr` is where the page is mapped.
pub record Uar : Type 0 where
  pub index : ℕ
  pub addr : ℕ

pub record UarPool : Type 0 where
  pub base : Uar

-- The blocks carry no data.
abbrev pub UarStore : Type 0
UarStore = Store UarPool (Unit {0}) Uar

-- Page `i` of the region.
abbrev pub page_of : Uar → ℕ → Uar
page_of base i = record {
  index = (base.index + i) % 2 ^ 32;
  addr = (base.addr + i * hca_page_size) % 2 ^ 64;
}

-- The loop of `alloc_block`, from page `i` on.
pub init_regions : Ptr → Uar → ℕ → List (Element Uar) → List (Element Uar)
init_regions b base i [] = []
init_regions b base i (e ∷ es) =
    record { used = false; content = page_of base i; owner = b } ∷ init_regions b base (i + 1) es

pub alloc_block : Malloc (Unit {0}) Uar → UarStore → Run UarStore
unfolding init_regions
alloc_block malloc s = do
  (b, s₁) ← create_block malloc s
  block ← load s₁.heap b
  let filled : Block (Unit {0}) Uar = record block {
    elements = init_regions b s.pool.content.base 0 block.elements;
  }
  add_block_to_pool (record s₁ { heap = write s₁.heap b (some filled) }) b

pub free_block : UarStore → Ptr → Run UarStore
free_block s b = do s₁ ← remove_block_from_pool s b; destroy_block s₁ b

-- `UAR::alloc_page` and `UAR::free_page`.
unfoldable pub take_region : Malloc (Unit {0}) Uar → UarStore → Run (Option Slot × UarStore)
take_region malloc s = alloc_page (alloc_block malloc) s

pub return_region : UarStore → Slot → Run UarStore
return_region s slot = free_page free_block s slot
