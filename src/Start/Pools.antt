-- ===== src/Start/Pools.antt =====
-- server/src/main.cc, driver.cc: the state in which the server starts meets what its parts rely on.
use l4rdma.Prelude.{ℕ, ◌+◌, ◌*◌, ◌%◌, ◌^◌, ◌≤◌, ◌<◌, ◌≡◌, refl, [], arith}
use l4rdma.Dma.{DmaMem, hca_page_size}
use l4rdma.Pool.{Ptr, null, Store}
use l4rdma.Pool.Invariant.{IsPool}
use l4rdma.Uar.{Uar}
use l4rdma.Cmd.Mail.{mbb_max_count}
use l4rdma.Cmd.Entry.Stages.{IsCmdArgs, Apart}
use l4rdma.Driver.Pages.{PageState}
use l4rdma.Start.{first_mem_pool, first_args, first_context}

-- A pool with no block is well-formed.
empty-IsPool :
    {PD BD ED : Type 0} (s : Store PD BD ED)
    → s.pool.start ≡ null
    → (s.pool.size ≡ 0) × (s.pool.block_count ≡ 0)
    → s.pool.max < 2 ^ 64
    → (0 < s.pool.block_size) × (s.pool.block_size < 2 ^ 64)
    → IsPool s []
empty-IsPool s start (size, blocks) bounded not_trivial = record {
  chain = start;
  ends = tt;
  blocks = tt;
  listed = blocks;
  few = omega (arith, blocks);
  total = size;
  within = omega (arith, size);
  bounded = bounded;
  not_trivial = not_trivial;
}

pub first_mem_pool-IsPool : (end : Ptr) → IsPool (first_mem_pool end) []
unfolding first_mem_pool
first_mem_pool-IsPool end =
    empty-IsPool (first_mem_pool end) refl (refl, refl) (omega arith) (omega arith, omega arith)

-- Every pool is well-formed at the start, with no block.
pub first_context-IsPool :
    (pages : PageState) (uar : Uar) (end : Ptr)
    → let ctx = first_context pages uar end in
      IsPool (first_mem_pool end) []
      × IsPool ctx.uar_page_pool []
      × IsPool ctx.event_queue_pool []
      × IsPool ctx.compl_queue_pool []
      × IsPool ctx.work_queue_pool []
unfolding first_context first_mem_pool
first_context-IsPool pages uar end =
    let ctx = first_context pages uar end in
    (
      first_mem_pool-IsPool end,
      empty-IsPool ctx.uar_page_pool refl (refl, refl) (omega arith) (omega arith, omega arith),
      empty-IsPool ctx.event_queue_pool refl (refl, refl) (omega arith) (omega arith, omega arith),
      empty-IsPool ctx.compl_queue_pool refl (refl, refl) (omega arith) (omega arith, omega arith),
      empty-IsPool ctx.work_queue_pool refl (refl, refl) (omega arith) (omega arith, omega arith),
    )

-- Memory as the kernel gives it: within the address space, from whole pages on.
abbrev pub Granted : DmaMem → (size : ℕ) → Type 0
Granted dma size =
    (dma.virt + size ≤ 2 ^ 64) × (dma.phys + size ≤ 2 ^ 64) × (dma.phys % hca_page_size ≡ 0)

-- On three areas of memory that do not overlap, the command interface is set up as its operations
-- rely on it.
pub first_args-IsCmdArgs :
    (init_seg : ℕ) (cq imb omb : DmaMem)
    → Granted cq hca_page_size
    → Granted imb (hca_page_size * mbb_max_count)
    → Granted omb (hca_page_size * mbb_max_count)
    → Apart cq.virt hca_page_size imb.virt (hca_page_size * mbb_max_count)
    → Apart cq.virt hca_page_size omb.virt (hca_page_size * mbb_max_count)
    → Apart imb.virt (hca_page_size * mbb_max_count) omb.virt (hca_page_size * mbb_max_count)
    → IsCmdArgs (first_args init_seg cq imb omb)
unfolding first_args
first_args-IsCmdArgs init_seg cq imb omb gc gi go ci co io = record {
  ring = omega arith;
  imb = omega arith;
  omb = omega arith;
  imb_aligned = omega arith;
  omb_aligned = omega arith;
  imb_apart = ground arith;
  omb_apart = ground arith;
  boxes_apart = ground arith;
}
