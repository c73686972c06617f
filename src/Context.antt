-- ===== src/Context.antt =====
-- server/src/driver.h: the main context `MLX5_Context`, and the contexts of the three kinds of
-- queues.
use l4rdma.Prelude.{ℕ, List}
use l4rdma.Cmd.Complete.{Firmware}
use l4rdma.Mem.{L4re}
use l4rdma.Uar.{UarStore}
use l4rdma.Queue.Objects.{QueueStore, QueueServices}
use l4rdma.Driver.{Hca}
use l4rdma.Driver.Pages.{PageState}

-- `Event::EQ_CTX`.
pub record EqCtx : Type 0 where
  pub irq_num : ℕ
  pub type : ℕ

-- `CQ::CQ_CTX`.
pub record CqCtx : Type 0 where
  pub eq_number : ℕ

-- `WQ::WQ_CTX`, by the words of `WQC` that are set.
pub record WqCtx : Type 0 where
  pub pd : ℕ
  pub uar : ℕ
  pub dbr_msb : ℕ
  pub dbr_lsb : ℕ
  pub log_wq_sizes : ℕ

pub record Context : Type 0 where
  pub pages : PageState
  pub uar_page_pool : UarStore
  pub event_queue_pool : QueueStore EqCtx
  pub compl_queue_pool : QueueStore CqCtx
  pub work_queue_pool : QueueStore WqCtx

abbrev pub with_hca : Context → Hca → Context
with_hca ctx hca = record ctx { pages = record (ctx.pages) { hca = hca } }

-- What is outside: the firmware, L4Re, and the words that a function finds on its stack.
pub record Services : Type 0 where
  pub firmware : Firmware
  pub l4re : L4re
  pub eq : QueueServices EqCtx
  pub cq : QueueServices CqCtx
  pub wq : QueueServices WqCtx
  pub stack : List ℕ
