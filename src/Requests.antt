-- ===== src/Requests.antt =====
-- server/src/driver.cc: the event queue for page requests and the thread that serves them, and the
-- teardown with its event queues.
pub mod Handler
pub mod Lending
use l4rdma.Prelude.{
  ℕ, zero, suc, ◌+◌, ◌-◌, ◌*◌, ◌^◌, List, [], ◌∷◌, Bool, true, false, ◌&&◌, ◌==◌, leb, ltb,
  if◌then◌else◌, get_or,
}
use l4rdma.Run.{Run, ok, throw, fault, ◌>>=◌}
use l4rdma.Pool.{load, element_at}
use l4rdma.Uar.{Uar}
use l4rdma.Queue.Objects.{QueueObj}
use l4rdma.Driver.Pages.{PageState, is_negative, provide_pages, reclaim_pages}
use l4rdma.Driver.Teardown.{teardown_commands}
use l4rdma.Interrupt.{IrqServices, IrqhArgs, create_msix_irq}
use l4rdma.Context.{EqCtx, Context, Services, with_hca}
use l4rdma.Event.{create_eq, get_eq_state, destroy_eq, eqe_owned_by_hw, read_eqe, arm_eq}

abbrev pub event_type_page_request : ℕ
event_type_page_request = 0xb

-- `sizeof` of a block of event queues: the count, two pointers, the empty structure `QOP_BD` with its
-- padding, and a pointer.
abbrev pub block_bytes : ℕ
block_bytes = 40

-- `PRH_OPT`: the context is an argument of what uses it, and `active` the number of rounds.
pub record PrhOpt : Type 0 where
  pub eq : ℕ

module _ (svc : Services) where
  -- The number of the queue; the thread with its interrupt is L4Re's.
  unfoldable pub setup_event_queue : Context → Run (ℕ × Context)
  setup_event_queue ctx = do
    (eq_number, ctx₁) ← create_eq svc ctx 4 event_type_page_request 0
    (_, ctx₂) ← get_eq_state svc ctx₁ eq_number
    ctx₃ ← arm_eq ctx₂ eq_number
    (_, ctx₄) ← get_eq_state svc ctx₃ eq_number
    ok (eq_number, ctx₄)

  -- What the handler does for the number of pages in an event, an `int32_t`: pages are lent for a
  -- positive number and taken back for any other. The least number has no absolute value.
  unfoldable pub serve : PageState → ℕ → Run PageState
  serve s page_count =
      if ltb 0 page_count && ltb page_count (2 ^ 31)
      then provide_pages svc.firmware svc.l4re s page_count
      else if page_count == 2 ^ 31
      then throw fault
      else (do
        (_, s') ←
            reclaim_pages svc.firmware svc.l4re s
              (if page_count == 0 then 0 else 2 ^ 32 - page_count)
        ok s')

  -- One round of the handler's loop, after the wait for the interrupt ended or timed out.
  unfoldable pub handler_round : Context → ℕ → Run Context
  unfolding serve
  handler_round ctx eq = do
    waiting ← eqe_owned_by_hw ctx eq
    if waiting then ok ctx else (do
      (payload, ctx₁) ← read_eqe ctx eq
      pages ← serve ctx₁.pages (get_or payload 1 0)
      ok (record ctx₁ { pages = pages }))

  -- `while (opt->active)`, for so many rounds in which it reads true. `between` is what the hardware
  -- and the other thread have done by the time that a round starts.
  unfoldable pub handler_loop :
      (between : ℕ → Context → Context) → (rounds eq : ℕ) → Context → Run Context
  unfolding handler_round
  handler_loop between zero eq ctx = ok ctx
  handler_loop between (suc rounds) eq ctx = do
    ctx₁ ← handler_round (between rounds ctx) eq
    handler_loop between rounds eq ctx₁

  -- `self` is the thread, `s` the state of the kernel.
  unfoldable pub page_request_handler :
      (k : IrqServices)
      → k.State
      → (self : ℕ) → IrqhArgs PrhOpt
      → (between : ℕ → Context → Context) (rounds : ℕ) → Context
      → Run (k.State × Context)
  unfolding handler_loop
  page_request_handler k s self args between rounds ctx = do
    (irq, s₁, m) ←
        create_msix_irq k s ctx.pages.hca.memory self args.icu_src args.msix_table args.irq_num
          args.msix_vec_l4 args.icu
    let ctx₁ = with_hca ctx (record (ctx.pages.hca) { memory = m })
    ctx₂ ← handler_loop between rounds args.opt.eq ctx₁
    ok (k.detach s₁ irq, ctx₂)

  -- The inner loop of the teardown, over the elements `start[i].start[j]` from `j` on: the pool's
  -- blocks are read as an array, the address of block `i` being that of the first one and the size
  -- of `i` blocks.
  unfoldable pub destroy_slots : Context → (i j rounds : ℕ) → Run Context
  destroy_slots ctx i j zero = ok ctx
  destroy_slots ctx i j (suc rounds) = do
    let pool = ctx.event_queue_pool
    block ← load pool.heap (pool.pool.start + block_bytes * i)
    e ← element_at block j
    ctx₁ ← (if e.used then destroy_eq svc ctx e.content.id else ok ctx)
    destroy_slots ctx₁ i (j + 1) rounds

  -- The outer loop, from block `i` on.
  unfoldable pub destroy_blocks : Context → (i rounds : ℕ) → Run Context
  unfolding destroy_slots
  destroy_blocks ctx i zero = ok ctx
  destroy_blocks ctx i (suc rounds) = do
    ctx₁ ← destroy_slots ctx i 0 ctx.event_queue_pool.pool.block_size
    destroy_blocks ctx₁ (i + 1) rounds

  unfoldable pub destroy_event_queues : Context → Run Context
  unfolding destroy_blocks
  destroy_event_queues ctx = destroy_blocks ctx 0 ctx.event_queue_pool.pool.block_count

  -- `fuel` bounds the rounds of `reclaim_all_pages`.
  unfoldable pub teardown_hca : (fuel : ℕ) → Context → Run Context
  unfolding destroy_event_queues
  teardown_hca fuel ctx = do
    ctx₁ ← destroy_event_queues ctx
    let uar_index = ctx₁.uar_page_pool.pool.content.base.index
    pages ← teardown_commands svc.firmware svc.l4re fuel uar_index ctx₁.pages
    ok (record ctx₁ { pages = pages })
