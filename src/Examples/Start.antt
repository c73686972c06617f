-- ===== src/Examples/Start.antt =====
-- The start on the command interface's examples.
use l4rdma.Prelude.{◌*◌, ◌≡◌, ◌⊎◌, some, ℕ, ◌+◌, refl, inl, [], arith}
use l4rdma.Dma.{DmaMem}
use l4rdma.Uar.{Uar}
use l4rdma.Driver.Pages.{PageState}
use l4rdma.Start.{first_mem_pool, Started, start_up}
use l4rdma.Run.{ok, ok_or, Fails}
use l4rdma.Pool.{
  alloc_page, free_page, release_slot, walk, take_slot, find_slot, first_unused, create_block,
  add_block_to_pool, element_at, load, write,
}
use l4rdma.Pool.Chain.{Cells}
use l4rdma.Mem.{
  MemPage, MemStore, lend_page, return_page, find_page, forget_page, alloc_block, alloc_dma_mem,
  round_to_superpage, init_pages, page_at,
}
use l4rdma.Mem.Index.{IsIndexed}
use l4rdma.Mem.PageCalls.{PageCalls, here, lend, give_back}
use l4rdma.Context.{Services}
use l4rdma.Examples.Cmd.{zeroed}
use l4rdma.Examples.Event.{svc}
use l4rdma.Examples.Pci.{adapter, regs, bus}
use l4rdma.Start.Lending.{start_up-IsIndexed, first_mem_pool-PageCalls}
use l4rdma.Examples.Driver.{hca}
use l4rdma.Examples.Mem.{l4re, malloc-IsMalloc}

abbrev uar : Uar
uar = record { index = 5; addr = 0x5000 }

abbrev pages : PageState
pages = record { hca = hca; pool = first_mem_pool 7 }

abbrev area : ℕ → DmaMem
area at = record { virt = at; phys = 0x1_0000_0000 + at }

abbrev server : Services
server = record svc { l4re = l4re }

abbrev nothing : MemPage × MemStore
nothing = (record { virt = 0; phys = 0 }, first_mem_pool 7)

-- Two pages are lent, and the first one comes back.
abbrev first_lent : MemPage × MemStore
first_lent = ok_or nothing (lend_page l4re (first_mem_pool 7))

abbrev second_lent : MemPage × MemStore
second_lent = ok_or nothing (lend_page l4re first_lent.1)

abbrev one_back : MemStore
one_back = ok_or nothing.1 (return_page l4re second_lent.1 first_lent.0.phys)

one_back-PageCalls : PageCalls l4re (first_mem_pool 7) one_back
unfolding first_mem_pool lend_page return_page find_page forget_page free_page release_slot
    alloc_page walk take_slot find_slot first_unused alloc_block create_block alloc_dma_mem
    round_to_superpage init_pages add_block_to_pool page_at element_at load write
one_back-PageCalls =
    give_back first_lent.0.phys (record { home = 300; index = 0 })
      (lend second_lent.0 (lend first_lent.0 here refl) refl) refl (_, refl, inl (omega arith)) refl

first_mem_pool-PageCalls_example : (bs : Cells DmaMem MemPage) × IsIndexed one_back bs
first_mem_pool-PageCalls_example =
    first_mem_pool-PageCalls l4re 7 malloc-IsMalloc one_back-PageCalls

start_up-IsIndexed_example :
    let r =
      start_up server adapter bus
        (λ call size. some (area (0x20_0000 * (call + 1))))
        []
        7
        regs
        0
        zeroed in
    Fails r
    ⊎ ((started : Started) × (r ≡ ok started)
        × (bs : Cells DmaMem MemPage) × IsIndexed started.ctx.pages.pool bs)
start_up-IsIndexed_example =
    start_up-IsIndexed server adapter bus (λ call size. some (area (0x20_0000 * (call + 1)))) [] 7
      regs 0 zeroed malloc-IsMalloc
