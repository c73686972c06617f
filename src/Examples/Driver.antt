-- ===== src/Examples/Driver.antt =====
-- The driver's commands with the firmware and the queue of the command interface's examples.
use l4rdma.Prelude.{
  ℕ, ◌+◌, ◌*◌, ◌^◌, ◌≤◌, ◌<◌, ◌≡◌, arith, [], ◌∷◌, some, none, ◌==◌, if◌then◌else◌, Bool, true,
  false, ◌&&◌, refl,
}
use l4rdma.Cmd.Mail.{imb_max_data}
use l4rdma.Cmd.Complete.Errors.{FailsByCommand}
use l4rdma.Driver.{Hca}
use l4rdma.Driver.Wait.{init_wait, WaitEnds, init_wait-WaitEnds}
use l4rdma.Driver.Issi.{configure_issi}
use l4rdma.Driver.Issi.Support.{configure_issi_errors}
use l4rdma.Driver.Pages.{cmd_count, payload_page_count, page_words, return_pages}
use l4rdma.Driver.Pages.Addresses.{return_all, return_pages-page_words}
use l4rdma.Driver.Pages.Chunks.{pages_from, provide_pages_chunks}
use l4rdma.Run.{Run, ok, throw, out_of_fuel}
use l4rdma.Dma.{DmaMem}
use l4rdma.Mem.{
  MemPage, MemStore, L4re, round_to_superpage, return_page, find_page, forget_page, free_block,
  free_dma_mem,
}
use l4rdma.Mem.Rounding.{round_to_superpage_bounds}
use l4rdma.Pool.{
  Element, Block, Heap, Slot, free_page, release_slot, remove_block_from_pool, unlink_block,
  destroy_block, load, element_at, write,
}
use l4rdma.Examples.Cmd.{args, zeroed, slow}

abbrev pub hca : Hca
hca = record { cmd = args; memory = zeroed }

configure_issi_errors_example : FailsByCommand (configure_issi slow hca)
configure_issi_errors_example = configure_issi_errors slow hca

provide_pages_chunks_example :
    (pages_from 7000 0 (cmd_count 7000) ≡ 7000)
    × ((i : ℕ) → (1 ≤ payload_page_count 7000 i) × (payload_page_count 7000 i * 2 ≤ imb_max_data))
provide_pages_chunks_example = provide_pages_chunks 7000 (omega arith)

round_to_superpage_small :
    (k : ℕ) × (round_to_superpage 21 4096 ≡ k * 2 ^ 21)
    × (4096 ≤ round_to_superpage 21 4096)
    × (round_to_superpage 21 4096 < 4096 + 2 ^ 21)
round_to_superpage_small = round_to_superpage_bounds 21 4096 (omega arith)

init_wait-WaitEnds_example : WaitEnds slow zeroed 0x1fc (init_wait slow zeroed 0x1fc)
init_wait-WaitEnds_example = init_wait-WaitEnds slow zeroed 0x1fc

-- Both pages of the only block are lent.
abbrev page : ℕ → MemPage
page i = record { virt = 0x800000 + i * 4096; phys = 0x1_0080_0000 + i * 4096 }

abbrev pub lent : ℕ → Element MemPage
lent i = record { used = true; content = page i; owner = 100 }

abbrev pub block : Block DmaMem MemPage
block = record {
  element_count = 2;
  next = 0;
  prev = 0;
  content = record { virt = 0x800000; phys = 0x1_0080_0000 };
  elements = lent 0 ∷ lent 1 ∷ [];
}

abbrev heap : Heap DmaMem MemPage
heap p = if p == 100 then some block else none

abbrev entry_of : ℕ → ℕ × Slot
entry_of i = ((page i).phys, record { home = 100; index = i })

abbrev pub store : MemStore
store = record {
  pool = record {
    max = 4096;
    size = 2;
    block_size = 2;
    block_count = 1;
    content = record { index = entry_of 1 ∷ entry_of 0 ∷ [] };
    start = 100;
    end = 100;
  };
  heap = heap;
}

abbrev pub services : L4re
services = record {
  superpage_shift = 21;
  grant = λ h size. none;
  unmap = λ h dma. true;
  malloc = record {
    address = λ h. 300;
    raw_content = record { virt = 0; phys = 0 };
    raw_elements = λ n. [];
  };
}

return_pages-page_words_example :
    return_pages services store (0 ∷ 2 ∷ page_words (page 0 ∷ page 1 ∷ [])) 0 2
    ≡ return_all services store (page 0 ∷ page 1 ∷ [])
return_pages-page_words_example = return_pages-page_words services store 0 2 (page 0 ∷ page 1 ∷ [])

-- Where an `ok` outcome leaves no page lent and no block in the pool.
abbrev is_empty : Run MemStore → Bool
is_empty (throw e) = false
is_empty out_of_fuel = false
is_empty (ok s) = (s.pool.size == 0) && (s.pool.block_count == 0) && (s.pool.start == 0)

return_all_empties : is_empty (return_all services store (page 0 ∷ page 1 ∷ [])) ≡ true
unfolding return_all return_page find_page forget_page free_block free_dma_mem free_page
    release_slot remove_block_from_pool unlink_block destroy_block load element_at write
return_all_empties = refl
