-- ===== src/Mem.antt =====
-- server/src/mem.h and mem.cc: DMA memory, and the pool of pages that are lent to the hardware.
pub mod Discharge
pub mod Index
pub mod Lending
pub mod Rounding
pub mod PageCalls
pub mod Supply
use l4rdma.Prelude.{
  ℕ, zero, suc, ◌+◌, ◌*◌, ◌/◌, ◌%◌, ◌^◌, Option, none, some, List, [], ◌∷◌, ◌==◌, if◌then◌else◌,
  Bool, false,
}
use l4rdma.Run.{Run, ok, throw, fault, l4_error, ◌>>=◌, ◌>>◌}
use l4rdma.Dma.{DmaMem, hca_page_size}
use l4rdma.Pool.{
  Ptr, Element, Block, Pool, Heap, Store, Slot, Malloc, write, load, element_at, create_block,
  add_block_to_pool, remove_block_from_pool, destroy_block, alloc_page, free_page,
}

-- A page of a block.
pub record MemPage : Type 0 where
  pub virt : ℕ
  pub phys : ℕ

-- The pages that are lent, by their physical address, the latest entry first.
pub record MemPools : Type 0 where
  pub index : List (ℕ × Slot)

abbrev pub MemStore : Type 0
MemStore = Store MemPools DmaMem MemPage

-- The services of L4Re. `grant` is the memory that the kernel maps for the device, for the state
-- of the heap and a size, and `none` where one of its calls fails; `unmap` says whether the kernel
-- unmaps memory from the device.
pub record L4re : Type 0 where
  pub superpage_shift : ℕ
  pub grant : Heap DmaMem MemPage → ℕ → Option DmaMem
  pub unmap : Heap DmaMem MemPage → DmaMem → Bool
  pub malloc : Malloc DmaMem MemPage

-- The size that `alloc_dma_mem` asks for.
unfoldable pub round_to_superpage : ℕ → ℕ → ℕ
round_to_superpage shift size =
    if size % 2 ^ shift == 0 then size else (size / 2 ^ shift + 1) * 2 ^ shift % 2 ^ 64

-- `grant` is what the kernel gives at this call.
unfoldable pub alloc_dma_mem : (superpage_shift : ℕ) → (grant : ℕ → Option DmaMem) → ℕ → Run DmaMem
alloc_dma_mem superpage_shift grant size = elim (grant (round_to_superpage superpage_shift size)) [
  | none ↦ throw l4_error
  | some d ↦ ok d
]

-- The loop of `alloc_block`, from page `i` on.
unfoldable pub init_pages : Ptr → DmaMem → ℕ → List (Element MemPage) → List (Element MemPage)
init_pages b dma i [] = []
init_pages b dma i (e ∷ es) =
    record {
      used = false;
      content = record {
        virt = (dma.virt + i * hca_page_size) % 2 ^ 64;
        phys = (dma.phys + i * hca_page_size) % 2 ^ 64;
      };
      owner = b;
    }
    ∷ init_pages b dma (i + 1) es

unfoldable pub alloc_block : L4re → MemStore → Run MemStore
alloc_block l4 s = do
  (b, s₁) ← create_block l4.malloc s
  dma ←
      alloc_dma_mem l4.superpage_shift (l4.grant s₁.heap)
        (hca_page_size * s.pool.block_size % 2 ^ 64)
  block ← load s₁.heap b
  let filled : Block DmaMem MemPage = record block {
    content = dma;
    elements = init_pages b dma 0 block.elements;
  }
  add_block_to_pool (record s₁ { heap = write s₁.heap b (some filled) }) b

-- Giving the memory back to the kernel is left open in the source.
unfoldable pub free_dma_mem : (unmap : DmaMem → Bool) → DmaMem → Run (Unit {0})
free_dma_mem unmap dma = if unmap dma then ok tt else throw l4_error

unfoldable pub free_block : L4re → MemStore → Ptr → Run MemStore
free_block l4 s b = do
  s₁ ← remove_block_from_pool s b
  block ← load s₁.heap b
  free_dma_mem (l4.unmap s₁.heap) block.content
  destroy_block s₁ b

-- The element behind a slot.
unfoldable pub page_at : MemStore → Slot → Run MemPage
page_at s slot = do block ← load s.heap slot.home; e ← element_at block slot.index; ok e.content

-- `MEM::alloc_page`: a pool that is full gives a null pointer, which is then read.
unfoldable pub lend_page : L4re → MemStore → Run (MemPage × MemStore)
lend_page l4 s = do
  (found, s₁) ← alloc_page (alloc_block l4) s
  slot ← (elim found [ none ↦ throw fault | some slot ↦ ok slot ])
  page ← page_at s₁ slot
  let pools : MemPools = record { index = (page.phys, slot) ∷ s₁.pool.content.index }
  ok (page, record s₁ { pool = record (s₁.pool) { content = pools } })

unfoldable pub find_page : ℕ → List (ℕ × Slot) → Option Slot
find_page phys [] = none
find_page phys ((k, slot) ∷ r) = if k == phys then some slot else find_page phys r

unfoldable pub forget_page : ℕ → List (ℕ × Slot) → List (ℕ × Slot)
forget_page phys [] = []
forget_page phys ((k, slot) ∷ r) =
    if k == phys then forget_page phys r else (k, slot) ∷ forget_page phys r

-- `MEM::free_page`: an address that is not lent gives an empty node, whose value is then read.
unfoldable pub return_page : L4re → MemStore → ℕ → Run MemStore
return_page l4 s phys = elim (find_page phys s.pool.content.index) [
  | none ↦ throw fault
  | some slot ↦
      let pools : MemPools = record { index = forget_page phys s.pool.content.index } in
      free_page (free_block l4) (record s { pool = record (s.pool) { content = pools } }) slot
]
