-- ===== src/Work.antt =====
-- server/src/wq.h and wq.cc: the contexts of work queues.
use l4rdma.Prelude.{ℕ, ◌*◌, ◌/◌, ◌%◌, ◌^◌, bit_and, ◌==◌, if◌then◌else◌}
use l4rdma.Run.{Run, ok, throw, fault, ◌>>=◌}
use l4rdma.Dma.{hca_page_size}
use l4rdma.Mem.{lend_page}
use l4rdma.Queue.Objects.{object_at, put_object, index_queue, get_queue, alloc_queue}
use l4rdma.Driver.Pages.{PageState}
use l4rdma.Driver.Setup.{alloc_pd, dealloc_pd}
use l4rdma.Context.{WqCtx, Context, Services, with_hca}
use l4rdma.Event.{log2}

-- The field of a word of `WQC`.
abbrev wqe_wq_size_mask : ℕ
wqe_wq_size_mask = 0x0000001f

-- The context of a queue of a size, of which the source takes the logarithm in bytes.
unfoldable pub wq_context : (size pd uar_index phys : ℕ) → WqCtx
wq_context size pd uar_index phys = record {
  pd = pd;
  uar = uar_index;
  dbr_msb = phys / 2 ^ 32;
  dbr_lsb = phys % 2 ^ 32;
  log_wq_sizes = bit_and (log2 64 (size * hca_page_size % 2 ^ 64) % 2 ^ 8) wqe_wq_size_mask;
}

module _ (svc : Services) where
  -- A size whose bytes are 0 modulo 2 ^ 64 has no logarithm.
  unfoldable pub create_wqc : Context → (size wq_number : ℕ) → Run (ℕ × Context)
  unfolding wq_context
  create_wqc ctx size wq_number = do
    (slot, wqs, regions) ← alloc_queue svc.wq ctx.work_queue_pool ctx.uar_page_pool size
    obj ← object_at wqs slot
    wqs₁ ← put_object wqs slot (record obj { id = wq_number })
    wqs₂ ← index_queue wqs₁ slot
    (page, pool) ← lend_page svc.l4re ctx.pages.pool
    (pd, hca) ← alloc_pd svc.firmware ctx.pages.hca
    uar ← object_at regions obj.uarp
    if size * hca_page_size % 2 ^ 64 == 0 then throw fault else (do
      let wqc = wq_context size pd uar.index page.phys
      wqs₃ ← put_object wqs₂ slot (record obj { id = wq_number; q_ctx = wqc })
      let pages : PageState = record { hca = hca; pool = pool }
      ok (wq_number, record ctx { pages = pages; uar_page_pool = regions; work_queue_pool = wqs₃ }))

  -- The rest of the clean-up is left open in the source.
  unfoldable pub destroy_wqc : Context → ℕ → Run Context
  destroy_wqc ctx wq_number = do
    (_, obj) ← get_queue ctx.work_queue_pool wq_number
    hca ← dealloc_pd svc.firmware ctx.pages.hca obj.q_ctx.pd
    ok (with_hca ctx hca)

  -- `Driver::setup_work_queue`, a test in the source.
  unfoldable pub setup_work_queue : Context → Run Context
  unfolding create_wqc destroy_wqc
  setup_work_queue ctx = do (wq_number, ctx₁) ← create_wqc ctx 2 0; destroy_wqc ctx₁ wq_number
