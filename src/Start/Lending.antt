-- ===== src/Start/Lending.antt =====
-- server/src/main.cc, mem.h: the pool of pages from the start of the server on.
use l4rdma.Prelude.{
  ℕ, ◌+◌, ◌*◌, ◌≡◌, [], List, Option, none, some, sym, subst, ◌⊎◌, inl, inr, ltb, ◌==◌,
  if◌then◌else◌,
}
use l4rdma.Run.{ok, throw, terminated, ok-injective, bind-ok_then, else-ok, Fails, Run-cases}
use l4rdma.Io.{Memory}
use l4rdma.Cmd.Mail.{mbb_max_count}
use l4rdma.Driver.Pages.{PageState}
use l4rdma.Driver.BringUp.{init_hca}
use l4rdma.Driver.BringUp.Lending.{init_hca-PageCalls}
use l4rdma.Context.{Context, Services}
use l4rdma.Cmd.Args.{CmdArgs}
use l4rdma.Pci.{PciDev, map_pci_bar, setup_msix}
use l4rdma.Pci.Bus.{BusServices, create_icu_cap, bind_dma_space_to_device}
use l4rdma.Requests.{setup_event_queue}
use l4rdma.Requests.Lending.{setup_event_queue-pool, setup_work_queue-PageCalls}
use l4rdma.Work.{setup_work_queue}
use l4rdma.Dma.{DmaMem, hca_page_size}
use l4rdma.Pool.{Ptr}
use l4rdma.Pool.Chain.{Cells}
use l4rdma.Pool.Blocks.{IsMalloc}
use l4rdma.Mem.{MemPage, MemStore, L4re, find_page, alloc_dma_mem}
use l4rdma.Mem.Index.{IsIndexed}
use l4rdma.Mem.PageCalls.{PageCalls, PageCalls-PageCalls, PageCalls-IsIndexed}
use l4rdma.Start.{first_mem_pool, first_args, first_context, start_adapter, Started, start_up}
use l4rdma.Start.Pools.{first_mem_pool-IsPool}

first_mem_pool-IsIndexed : (end : Ptr) → IsIndexed (first_mem_pool end) []
unfolding first_mem_pool find_page
first_mem_pool-IsIndexed end = record {
  pool = first_mem_pool-IsPool end;
  lent = λ phys slot found. cc;
  apart = λ p q slot found other. cc;
}

-- Where `malloc` keeps its promise, after any sequence of pages lent and taken back since the start
-- of the server, in which no page is taken back as the last one of a block that is the first of
-- several, the pool is well-formed, each lent address names a place that is used, and different
-- addresses name different places.
pub first_mem_pool-PageCalls :
    (l4 : L4re) (end : Ptr) {s : MemStore}
    → IsMalloc l4.malloc
    → PageCalls l4 (first_mem_pool end) s
    → (bs : Cells DmaMem MemPage) × IsIndexed s bs
first_mem_pool-PageCalls l4 end law steps =
    PageCalls-IsIndexed l4 law [] steps (first_mem_pool-IsIndexed end)

start_adapter-PageCalls :
    (svc : Services) (raw : List ℕ) (end : Ptr) (bar0 : ℕ) (args : CmdArgs) (m : Memory)
    (eq_number : ℕ) (ctx : Context)
    → start_adapter svc raw end bar0 args m ≡ ok (eq_number, ctx)
    → PageCalls svc.l4re (first_mem_pool end) ctx.pages.pool
unfolding start_adapter first_context
start_adapter-PageCalls svc raw end bar0 args m eq_number ctx gives =
    let s : PageState = record {
      hca = record { cmd = args; memory = m };
      pool = first_mem_pool end;
    } in
    let l4 = svc.l4re in
    bind-ok_then (init_hca svc.firmware l4 bar0 raw s) _ _ gives λ (pages, uar) up e₁.
      let ctx₀ = first_context pages uar end in
      bind-ok_then (setup_event_queue svc ctx₀) _ _ e₁ λ (eq, ctx₁) listens e₂.
        bind-ok_then (setup_work_queue svc ctx₁) _ _ e₂ λ ctx₂ works e₃.
          let same = sym (setup_event_queue-pool svc ctx₀ ctx₁ eq listens) in
          subst (λ r. PageCalls l4 (first_mem_pool end) r.1.pages.pool) (ok-injective _ _ e₃)
            (PageCalls-PageCalls
              (subst (PageCalls l4 (first_mem_pool end)) same
                (init_hca-PageCalls svc.firmware l4 bar0 raw s pages uar up))
              (setup_work_queue-PageCalls svc ctx₁ ctx₂ works))

module _ (svc : Services) (dev : PciDev) (bus : BusServices)
    (grant : (call size : ℕ) → Option DmaMem) (raw : List ℕ) (end : Ptr) where
  -- The start only lends pages of the pool that it begins with.
  start_up-PageCalls :
      (c : dev.Config) (b : bus.State) (m : Memory) (started : Started)
      → start_up svc dev bus grant raw end c b m ≡ ok started
      → PageCalls svc.l4re (first_mem_pool end) started.ctx.pages.pool
  unfolding start_up
  start_up-PageCalls c b m started gives =
      let shift = svc.l4re.superpage_shift in
      let mailbox = hca_page_size * mbb_max_count in
      bind-ok_then (map_pci_bar dev c 0) _ _ gives λ (bar0, c₁) _ e₁.
        bind-ok_then (setup_msix dev c₁) _ _ e₁ λ (found, c₂) _ e₂.
          bind-ok_then (elim found [ none ↦ throw terminated | some t ↦ ok t ]) _ _ e₂
            λ table _ e₃.
              bind-ok_then (if table.bir == 0 then ok (bar0, c₂) else map_pci_bar dev c₂ table.bir)
                _ _ (else-ok (ltb (table.table_size + 1) 10) _ _ _ e₃)
                λ (table_bar, c₃) _ e₄. bind-ok_then (create_icu_cap bus b) _ _ e₄ λ (icu, b₁) _ e₅.
                  bind-ok_then (bind_dma_space_to_device bus b₁) _ _ e₅ λ (dma_cap, b₂) _ e₆.
                    bind-ok_then (alloc_dma_mem shift (grant 0) hca_page_size) _ _ e₆ λ cq _ e₇.
                      bind-ok_then (alloc_dma_mem shift (grant 1) mailbox) _ _ e₇ λ imb _ e₈.
                        bind-ok_then (alloc_dma_mem shift (grant 2) mailbox) _ _ e₈ λ omb _ e₉.
                          let args = first_args bar0 cq imb omb in
                          bind-ok_then (start_adapter svc raw end bar0 args m) _ _ e₉
                            λ (eq_number, ctx) starts e₁₀.
                              subst (λ r. PageCalls svc.l4re (first_mem_pool end) r.ctx.pages.pool)
                                (ok-injective _ _ e₁₀)
                                (start_adapter-PageCalls svc raw end bar0 args m eq_number ctx
                                  starts)

  -- Where `malloc` keeps its promise, the start of the server either fails or leaves a pool of pages
  -- that is well-formed, in which each lent address names a place that is used, and different
  -- addresses name different places.
  pub start_up-IsIndexed :
      (c : dev.Config) (b : bus.State) (m : Memory)
      → IsMalloc svc.l4re.malloc
      → let r = start_up svc dev bus grant raw end c b m in
        Fails r
        ⊎ ((started : Started) × (r ≡ ok started)
            × (bs : Cells DmaMem MemPage) × IsIndexed started.ctx.pages.pool bs)
  start_up-IsIndexed c b m law = elim (Run-cases (start_up svc dev bus grant raw end c b m)) [
    | inl fails ↦ inl fails
    | inr (started, gives) ↦
        let (bs, inv) =
          first_mem_pool-PageCalls svc.l4re end law (start_up-PageCalls c b m started gives) in
        inr (started, gives, bs, inv)
  ]
