-- ===== src/Requests/Lending.antt =====
-- server/src/event.cc, wq.cc, driver.cc: what the set-up of the queues does to the pool of pages.
use l4rdma.Prelude.{
  ℕ, ◌≡◌, sym, ap, ◌∙◌, ◌*◌, ◌%◌, ◌^◌, ◌==◌, ◌||◌, ◌/◌, ◌-◌, [], ◌∷◌, subst, ltb, leb, get_or,
  bit_and, ◌+◌,
}
use l4rdma.Run.{store_words, ok, ok-injective, bind-ok_then, then-ok, else-ok}
use l4rdma.Queue.Objects.{object_at, put_object, page_count, index_queue, get_queue, alloc_queue}
use l4rdma.Mem.{lend_page}
use l4rdma.Mem.PageCalls.{PageCalls, here, lend}
use l4rdma.Cmd.Opcode.{query_eq}
use l4rdma.Driver.{execute, output}
use l4rdma.Driver.Setup.{alloc_pd, dealloc_pd}
use l4rdma.Context.{Context, Services}
use l4rdma.Dma.{hca_page_size}
use l4rdma.Event.{create_eq, get_eq_state, arm_eq, page_eqe_count, eqi_size}
use l4rdma.Work.{create_wqc, destroy_wqc, setup_work_queue}
use l4rdma.Requests.{setup_event_queue, event_type_page_request}

module _ (svc : Services) where
  arm_eq-pool :
      (ctx ctx' : Context) (eq : ℕ) → arm_eq ctx eq ≡ ok ctx' → ctx'.pages.pool ≡ ctx.pages.pool
  unfolding arm_eq
  arm_eq-pool ctx ctx' eq gives =
      bind-ok_then (get_queue ctx.event_queue_pool eq) _ _ gives λ (slot, obj) _ e₁.
        bind-ok_then (object_at ctx.uar_page_pool obj.uarp) _ _ e₁
          λ uar _ e₂. ap (λ c. c.pages.pool) (sym (ok-injective _ _ e₂))

  get_eq_state-pool :
      (ctx ctx' : Context) (eq state : ℕ)
      → get_eq_state svc ctx eq ≡ ok (state, ctx')
      → ctx'.pages.pool ≡ ctx.pages.pool
  unfolding get_eq_state
  get_eq_state-pool ctx ctx' eq state gives =
      bind-ok_then (get_queue ctx.event_queue_pool eq) _ _ gives λ (slot, obj) _ e₁.
        let length = eqi_size + page_count page_eqe_count obj.queue.size * 2 in
        bind-ok_then (execute svc.firmware ctx.pages.hca query_eq 0 (obj.id ∷ 0 ∷ []) length) _ _ e₁
          λ (command, hca) _ e₂.
            bind-ok_then (store_words 128 0 (output hca command length)) _ _ e₂ λ words _ e₃.
              let status = get_or words 2 0 in
              let e₄ = then-ok (bit_and status 0xf0000000 / 2 ^ 28 == 0) _ _ _ e₃ in
              ap (λ r. r.1.pages.pool) (sym (ok-injective _ _ e₄))

  create_eq-pool :
      (ctx ctx' : Context) (size type irq_num eq_number : ℕ)
      → create_eq svc ctx size type irq_num ≡ ok (eq_number, ctx')
      → ctx'.pages.pool ≡ ctx.pages.pool
  unfolding create_eq
  create_eq-pool ctx ctx' size type irq_num eq_number gives =
      bind-ok_then (alloc_queue svc.eq ctx.event_queue_pool ctx.uar_page_pool size) _ _ gives
        λ (slot, eqs, regions) _ e₁. bind-ok_then (object_at eqs slot) _ _ e₁ λ obj _ e₂.
          let pages = page_count page_eqe_count size in
          let e₃ = else-ok (ltb ((128 - eqi_size) / 2) pages) _ _ _ e₂ in
          let e₄ = else-ok (size == 0 || leb 64 type) _ _ _ e₃ in
          bind-ok_then (object_at regions obj.uarp) _ _ e₄ λ uar _ e₅.
            bind-ok_then (execute svc.firmware _ _ _ _ _) _ _ e₅ λ (command, hca₁) _ e₆.
              bind-ok_then (put_object eqs slot _) _ _ e₆ λ eqs₁ _ e₇.
                bind-ok_then (index_queue eqs₁ slot) _ _ e₇
                  λ eqs₂ _ e₈. ap (λ r. r.1.pages.pool) (sym (ok-injective _ _ e₈))

  pub setup_event_queue-pool :
      (ctx ctx' : Context) (eq_number : ℕ)
      → setup_event_queue svc ctx ≡ ok (eq_number, ctx')
      → ctx'.pages.pool ≡ ctx.pages.pool
  unfolding setup_event_queue
  setup_event_queue-pool ctx ctx' eq_number gives =
      bind-ok_then (create_eq svc ctx 4 event_type_page_request 0) _ _ gives λ (eq, ctx₁) a e₁.
        bind-ok_then (get_eq_state svc ctx₁ eq) _ _ e₁ λ (s, ctx₂) b e₂.
          bind-ok_then (arm_eq ctx₂ eq) _ _ e₂ λ ctx₃ c e₃.
            bind-ok_then (get_eq_state svc ctx₃ eq) _ _ e₃ λ (s', ctx₄) d e₄.
              ap (λ r. r.1.pages.pool) (sym (ok-injective _ _ e₄))
              ∙ get_eq_state-pool ctx₃ ctx₄ eq s' d
              ∙ arm_eq-pool ctx₂ ctx₃ eq c
              ∙ get_eq_state-pool ctx₁ ctx₂ eq s b
              ∙ create_eq-pool ctx ctx₁ 4 event_type_page_request 0 eq a

  create_wqc-PageCalls :
      (ctx ctx' : Context) (size wq_number n : ℕ)
      → create_wqc svc ctx size wq_number ≡ ok (n, ctx')
      → PageCalls svc.l4re ctx.pages.pool ctx'.pages.pool
  unfolding create_wqc
  create_wqc-PageCalls ctx ctx' size wq_number n gives =
      bind-ok_then (alloc_queue svc.wq ctx.work_queue_pool ctx.uar_page_pool size) _ _ gives
        λ (slot, wqs, regions) _ e₁. bind-ok_then (object_at wqs slot) _ _ e₁ λ obj _ e₂.
          bind-ok_then (put_object wqs slot _) _ _ e₂ λ wqs₁ _ e₃.
            bind-ok_then (index_queue wqs₁ slot) _ _ e₃ λ wqs₂ _ e₄.
              bind-ok_then (lend_page svc.l4re ctx.pages.pool) _ _ e₄ λ (page, pool) lends e₅.
                bind-ok_then (alloc_pd svc.firmware ctx.pages.hca) _ _ e₅ λ (pd, hca) _ e₆.
                  bind-ok_then (object_at regions obj.uarp) _ _ e₆ λ uar _ e₇.
                    bind-ok_then (put_object wqs₂ slot _) _ _
                      (else-ok (size * hca_page_size % 2 ^ 64 == 0) _ _ _ e₇)
                      λ wqs₃ _ e₈.
                        subst (λ r. PageCalls svc.l4re ctx.pages.pool r.1.pages.pool)
                          (ok-injective _ _ e₈) (lend page here lends)

  pub setup_work_queue-PageCalls :
      (ctx ctx' : Context)
      → setup_work_queue svc ctx ≡ ok ctx'
      → PageCalls svc.l4re ctx.pages.pool ctx'.pages.pool
  unfolding setup_work_queue destroy_wqc
  setup_work_queue-PageCalls ctx ctx' gives =
      bind-ok_then (create_wqc svc ctx 2 0) _ _ gives λ (wq_number, ctx₁) created e₁.
        bind-ok_then (get_queue ctx₁.work_queue_pool wq_number) _ _ e₁ λ (slot, obj) _ e₂.
          bind-ok_then (dealloc_pd svc.firmware ctx₁.pages.hca obj.q_ctx.pd) _ _ e₂ λ hca _ e₃.
            subst (λ c. PageCalls svc.l4re ctx.pages.pool c.pages.pool) (ok-injective _ _ e₃)
              (create_wqc-PageCalls ctx ctx₁ 2 0 wq_number created)
