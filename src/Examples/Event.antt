-- ===== src/Examples/Event.antt =====
-- Event queues, their pages and page requests, on the memory and the pools of the driver's examples.
use l4rdma.Prelude.{
  ℕ, ◌-◌, ◌^◌, ◌≡◌, refl, none, some, [], true, arith, length, take, drop, replicate, ◌==◌,
  if◌then◌else◌,
}
use l4rdma.Run.{Fails}
use l4rdma.Pool.{Element, Block}
use l4rdma.Uar.{Uar, UarStore}
use l4rdma.Queue.Objects.{QueueObj, QueueStore, QueueServices, pas_words, page_count, alloc_queue}
use l4rdma.Queue.Objects.Addresses.{alloc_queue-Fails}
use l4rdma.Context.{EqCtx, CqCtx, WqCtx, Context, Services}
use l4rdma.Driver.Pages.{PageState}
use l4rdma.Event.{init_eq, owned_by_hw, eq_payload, eqi_words}
use l4rdma.Event.Ownership.{init_eq-owned_by_hw}
use l4rdma.Event.Payload.{eq_payload-stack}
use l4rdma.Requests.{serve, teardown_hca}
use l4rdma.Requests.Handler.{serve-Fails, teardown_hca-Fails}
use l4rdma.Examples.Cmd.{zeroed, slow, ring}
use l4rdma.Examples.Driver.{hca, store, services}

init_eq-owned_by_hw_example :
    owned_by_hw (init_eq zeroed ring) (record ring { head = 31 })
    ≡ owned_by_hw zeroed (record ring { head = 31 })
init_eq-owned_by_hw_example = init_eq-owned_by_hw zeroed ring 31 (omega arith)

eq_payload-stack_example :
    let eqi = eqi_words 2048 5 0 0xb in
    let payload = eq_payload (replicate 128 0xdead_beef) eqi (pas_words 0x1_0000_0000 0 4) 4 in
    (length payload ≡ 74)
    × (take 4 (drop 66 payload) ≡ take 4 (pas_words 0x1_0000_0000 0 4))
    × (drop 70 payload ≡ take 4 (drop 70 (replicate 128 0xdead_beef)))
eq_payload-stack_example =
    eq_payload-stack (replicate 128 0xdead_beef) 2048 5 0 0xb 0x1_0000_0000 4 refl (omega arith)

abbrev pub raw_object : (C : Type 0) → C → Element (QueueObj C)
raw_object C ctx = record {
  used = true;
  content = record {
    queue = ring;
    id = 0;
    uarp = record { home = 0; index = 0 };
    pas_list = [];
    q_ctx = ctx;
  };
  owner = 0;
}

abbrev pub raw_region : Element Uar
raw_region = record { used = true; content = record { index = 0; addr = 0 }; owner = 0 }

-- Memory for exactly what is asked for.
abbrev pub queue_services : (C : Type 0) → C → QueueServices C
queue_services C ctx = record {
  superpage_shift = 21;
  grant = λ h size. some (record { virt = 0x800000; phys = 0x1_0080_0000 });
  unmap = λ h dma. true;
  malloc = record {
    address = λ h. 300;
    raw_content = tt;
    raw_elements = λ n. replicate n (raw_object C ctx);
  };
  raw_ctx = ctx;
  regions = record {
    address = λ h. 400;
    raw_content = tt;
    raw_elements = λ n. replicate n raw_region;
  };
  malloc_words = λ n. n;
  holds = λ n. omega arith;
}

abbrev pub queues : (C : Type 0) → QueueStore C
queues C = record {
  pool = record {
    max = 1024;
    size = 0;
    block_size = 64;
    block_count = 0;
    content = record { page_entry_count = 64; index = [] };
    start = 0;
    end = 0;
  };
  heap = λ p. none;
}

abbrev pub regions : UarStore
regions = record {
  pool = record {
    max = 1024;
    size = 0;
    block_size = 64;
    block_count = 0;
    content = record { base = record { index = 5; addr = 0x5000 } };
    start = 0;
    end = 0;
  };
  heap = λ p. none;
}

abbrev pub eq_ctx : EqCtx
eq_ctx = record { irq_num = 0; type = 0 }

alloc_queue-Fails_example :
    Fails (alloc_queue (queue_services EqCtx eq_ctx) (queues EqCtx) regions 4)
unfolding page_count
alloc_queue-Fails_example =
    alloc_queue-Fails (queue_services EqCtx eq_ctx) (queues EqCtx) regions 4 (omega arith)

abbrev eq_block : (count next prev : ℕ) → Block (Unit {0}) (QueueObj EqCtx)
eq_block count next prev = record {
  element_count = count;
  next = next;
  prev = prev;
  content = tt;
  elements = replicate 64 (raw_object EqCtx eq_ctx);
}

-- The event queues fill two blocks.
abbrev two_blocks : QueueStore EqCtx
two_blocks = record {
  pool = record ((queues EqCtx).pool) { size = 65; block_count = 2; start = 500; end = 600 };
  heap = λ p.
      if p == 500
      then some (eq_block 64 600 0)
      else if p == 600
      then some (eq_block 1 0 500)
      else none;
}

abbrev pub svc : Services
svc = record {
  firmware = slow;
  l4re = services;
  eq = queue_services EqCtx eq_ctx;
  cq = queue_services CqCtx (record { eq_number = 0 });
  wq =
      queue_services WqCtx (record { pd = 0; uar = 0; dbr_msb = 0; dbr_lsb = 0; log_wq_sizes = 0 });
  stack = replicate 128 0;
}

abbrev pages : PageState
pages = record { hca = hca; pool = store }

serve-Fails_example : Fails (serve svc pages (2 ^ 32 - 4000))
serve-Fails_example = serve-Fails svc pages 4000 (omega arith) (omega arith)

abbrev ctx : Context
ctx = record {
  pages = pages;
  uar_page_pool = regions;
  event_queue_pool = two_blocks;
  compl_queue_pool = queues CqCtx;
  work_queue_pool = queues WqCtx;
}

teardown_hca-Fails_example : Fails (teardown_hca svc 3 ctx)
teardown_hca-Fails_example = teardown_hca-Fails svc 3 ctx (omega arith) (omega arith) refl
