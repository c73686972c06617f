-- ===== src/Start.antt =====
-- server/src/main.cc: the start of the server, from the adapter on the bus to a work queue. The
-- pools that `main`, `init_queue_obj_pool` and `alloc_uar` (server/src/driver.cc) set up.
pub mod Lending
pub mod Pools
use l4rdma.Prelude.{
  ℕ, ◌+◌, ◌*◌, ◌%◌, ◌^◌, Option, none, some, List, [], Bool, true, false, ltb, ◌==◌, if◌then◌else◌,
}
use l4rdma.Run.{Run, ok, throw, terminated, ◌>>=◌, ◌>>◌}
use l4rdma.Io.{Memory}
use l4rdma.Dma.{DmaMem, hca_page_size}
use l4rdma.Pool.{Ptr, null}
use l4rdma.Mem.{MemStore, alloc_dma_mem}
use l4rdma.Uar.{Uar, UarStore}
use l4rdma.Queue.Objects.{QueueStore}
use l4rdma.Cmd.Mail.{mbb_max_count}
use l4rdma.Cmd.Args.{CmdArgs}
use l4rdma.Driver.Pages.{PageState}
use l4rdma.Driver.BringUp.{init_hca}
use l4rdma.Pci.{PciDev, map_pci_bar, setup_msix}
use l4rdma.Pci.Bus.{BusServices, create_icu_cap, bind_dma_space_to_device}
use l4rdma.Interrupt.{IrqServices, msix_thread_args}
use l4rdma.Context.{EqCtx, CqCtx, WqCtx, Context, Services}
use l4rdma.Event.{page_eqe_count}
use l4rdma.Completion.{page_cqe_count}
use l4rdma.Requests.{setup_event_queue, page_request_handler, teardown_hca}
use l4rdma.Work.{setup_work_queue}

-- The offset of `dbv` in `struct Init_Seg`.
abbrev pub dbv_offset : ℕ
dbv_offset = 24

-- The pools before their first block; `end` is not set.
unfoldable pub first_mem_pool : (end : Ptr) → MemStore
first_mem_pool end = record {
  pool = record {
    max = 65536;
    size = 0;
    block_size = 1024;
    block_count = 0;
    content = record { index = [] };
    start = null;
    end = end;
  };
  heap = λ p. none;
}

unfoldable pub first_uar_pool : Uar → (end : Ptr) → UarStore
first_uar_pool uar end = record {
  pool = record {
    max = 1024;
    size = 0;
    block_size = 64;
    block_count = 0;
    content = record { base = uar };
    start = null;
    end = end;
  };
  heap = λ p. none;
}

unfoldable pub first_queue_pool : (C : Type 0) (page_entry_count : ℕ) (end : Ptr) → QueueStore C
first_queue_pool C page_entry_count end = record {
  pool = record {
    max = 1024;
    size = 0;
    block_size = 64;
    block_count = 0;
    content = record { page_entry_count = page_entry_count; index = [] };
    start = null;
    end = end;
  };
  heap = λ p. none;
}

-- The command interface on its queue and its two mailboxes.
unfoldable pub first_args : (init_seg : ℕ) → (cq imb omb : DmaMem) → CmdArgs
first_args init_seg cq imb omb = record {
  cq = record { start = cq.virt; size = 32; head = 0; dma_mem = cq };
  dbv = init_seg + dbv_offset;
  imb_mem = imb;
  omb_mem = omb;
}

-- The context after `init_hca`.
unfoldable pub first_context : PageState → Uar → (end : Ptr) → Context
unfolding first_uar_pool first_queue_pool
first_context pages uar end = record {
  pages = pages;
  uar_page_pool = first_uar_pool uar end;
  event_queue_pool = first_queue_pool EqCtx page_eqe_count end;
  compl_queue_pool = first_queue_pool CqCtx page_cqe_count end;
  work_queue_pool = first_queue_pool WqCtx 1 end;
}

-- What `main` has when the server starts to serve: the address of the table of interrupts, the
-- capability of the interrupt controller, and the number of the event queue.
pub record Started : Type 0 where
  pub table : ℕ
  pub icu : ℕ
  pub eq_number : ℕ
  pub ctx : Context

module _ (svc : Services) (raw : List ℕ) (end : Ptr) where
  -- The adapter is brought up, and the event queue and a work queue are set up.
  unfoldable pub start_adapter : (bar0 : ℕ) → CmdArgs → Memory → Run (ℕ × Context)
  unfolding first_context first_mem_pool
  start_adapter bar0 args m = do
    let s : PageState = record {
      hca = record { cmd = args; memory = m };
      pool = first_mem_pool end;
    }
    (pages, uar) ← init_hca svc.firmware svc.l4re bar0 raw s
    (eq_number, ctx₁) ← setup_event_queue svc (first_context pages uar end)
    ctx₂ ← setup_work_queue svc ctx₁
    ok (eq_number, ctx₂)

-- `main` once the adapter is found. `grant` is what the kernel gives at each of the first three
-- calls for memory.
module _ (svc : Services) (dev : PciDev) (bus : BusServices)
    (grant : (call size : ℕ) → Option DmaMem) (raw : List ℕ) (end : Ptr) where
  unfoldable pub start_up : dev.Config → bus.State → Memory → Run Started
  unfolding first_args start_adapter
  start_up c b m = do
    (bar0, c₁) ← map_pci_bar dev c 0
    (found, c₂) ← setup_msix dev c₁
    table ← (elim found [ none ↦ throw terminated | some t ↦ ok t ])
    if ltb (table.table_size + 1) 10 then throw terminated else (do
      (table_bar, c₃) ← (if table.bir == 0 then ok (bar0, c₂) else map_pci_bar dev c₂ table.bir)
      (icu, b₁) ← create_icu_cap bus b
      (dma_cap, b₂) ← bind_dma_space_to_device bus b₁
      let shift = svc.l4re.superpage_shift
      cq ← alloc_dma_mem shift (grant 0) hca_page_size
      imb ← alloc_dma_mem shift (grant 1) (hca_page_size * mbb_max_count)
      omb ← alloc_dma_mem shift (grant 2) (hca_page_size * mbb_max_count)
      let args = first_args bar0 cq imb omb
      (eq_number, ctx) ← start_adapter svc raw end bar0 args m
      ok (record {
        table = (table_bar + table.table_offset) % 2 ^ 64;
        icu = icu;
        eq_number = eq_number;
        ctx = ctx;
      }))

  -- From there to the end of `main`: the thread of the handler has its arguments in time and runs
  -- for so many rounds, `between` being what the hardware and the main thread have done by the time
  -- that one starts; then the server shuts down. `icu_src` is the source that the bus gives the
  -- adapter, `fuel` bounds the rounds of `reclaim_all_pages`.
  unfoldable pub main :
      (k : IrqServices)
      → k.State
      → (self icu_src : ℕ) (between : ℕ → Context → Context) (rounds fuel : ℕ) → dev.Config
      → bus.State
      → Memory
      → Run (k.State × Context)
  unfolding start_up
  main k s self icu_src between rounds fuel c b m = do
    started ← start_up c b m
    let args =
        msix_thread_args k icu_src started.table 0 started.icu (record { eq = started.eq_number })
    (s', ctx₁) ← page_request_handler svc k s self args between rounds started.ctx
    ctx₂ ← teardown_hca svc fuel ctx₁
    ok (s', ctx₂)
