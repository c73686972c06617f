-- ===== src/Driver/Pages/Lending.antt =====
-- server/src/driver.cc: what providing pages to the firmware does to the pool of pages.
use l4rdma.Prelude.{ℕ, zero, suc, ◌+◌, ◌≡◌, ap, List, [], subst, get_or}
use l4rdma.Run.{ok, ok-injective, bind-ok, else-ok}
use l4rdma.Cmd.Opcode.{query_pages}
use l4rdma.Cmd.Complete.{Firmware}
use l4rdma.Mem.{MemPage, MemStore, L4re, lend_page}
use l4rdma.Mem.PageCalls.{PageCalls, here, lend, PageCalls-PageCalls}
use l4rdma.Driver.{execute, output}
use l4rdma.Driver.Pages.{
  PageState, is_negative, lend_pages, provide_loop, provide_pages, query_and_provide,
  payload_page_count, provide_boot_pages, provide_init_pages, query_pages_output_length,
}

lend_pages-PageCalls :
    (l4 : L4re) (s t : MemStore) (n : ℕ) (pages : List MemPage)
    → lend_pages l4 s n ≡ ok (pages, t)
    → PageCalls l4 s t
unfolding lend_pages
lend_pages-PageCalls l4 s t zero pages gives =
    subst (PageCalls l4 s) (ap (λ r. r.1) (ok-injective _ _ gives)) here
lend_pages-PageCalls l4 s t (suc n) pages gives =
    let ((page, s₁), first, gives₁) = bind-ok (lend_page l4 s) _ _ gives in
    let ((later, s₂), rest, gives₂) = bind-ok (lend_pages l4 s₁ n) _ _ gives₁ in
    subst (PageCalls l4 s) (ap (λ r. r.1) (ok-injective _ _ gives₂))
      (PageCalls-PageCalls (lend page here first) (lend_pages-PageCalls l4 s₁ s₂ n later rest))

module _ (fw : Firmware) (l4 : L4re) where
  provide_loop-PageCalls :
      (s t : PageState) (page_count i rounds : ℕ)
      → provide_loop fw l4 s page_count i rounds ≡ ok t
      → PageCalls l4 s.pool t.pool
  unfolding provide_loop
  provide_loop-PageCalls s t page_count i zero gives =
      subst (λ r. PageCalls l4 s.pool r.pool) (ok-injective _ _ gives) here
  provide_loop-PageCalls s t page_count i (suc rounds) gives =
      let ((pages, pool), first, gives₁) =
        bind-ok (lend_pages l4 s.pool (payload_page_count page_count i)) _ _ gives in
      let ((slot, hca), _, gives₂) = bind-ok (execute fw _ _ _ _ _) _ _ gives₁ in
      PageCalls-PageCalls (lend_pages-PageCalls l4 s.pool pool _ pages first) (
        provide_loop-PageCalls (record { hca = hca; pool = pool }) t page_count (i + 1) rounds
          gives₂)

  pub provide_pages-PageCalls :
      (s t : PageState) (page_count : ℕ)
      → provide_pages fw l4 s page_count ≡ ok t
      → PageCalls l4 s.pool t.pool
  unfolding provide_pages
  provide_pages-PageCalls s t page_count gives = provide_loop-PageCalls s t page_count 0 _ gives

  query_and_provide-PageCalls :
      (s t : PageState) (op_mod page_count : ℕ)
      → query_and_provide fw l4 s op_mod ≡ ok (page_count, t)
      → PageCalls l4 s.pool t.pool
  unfolding query_and_provide
  query_and_provide-PageCalls s t op_mod page_count gives =
      let ((slot, hca), _, gives₁) =
        bind-ok (execute fw s.hca query_pages op_mod [] query_pages_output_length) _ _ gives in
      let asked = get_or (output hca slot query_pages_output_length) 1 0 in
      let gives₂ = else-ok (is_negative asked) _ _ _ gives₁ in
      let (u, provided, gives₃) =
        bind-ok (provide_pages fw l4 (record s { hca = hca }) asked) _ _ gives₂ in
      subst (λ r. PageCalls l4 s.pool r.1.pool) (ok-injective _ _ gives₃)
        (provide_pages-PageCalls (record s { hca = hca }) u asked provided)

  pub provide_boot_pages-PageCalls :
      (s t : PageState) (page_count : ℕ)
      → provide_boot_pages fw l4 s ≡ ok (page_count, t)
      → PageCalls l4 s.pool t.pool
  unfolding provide_boot_pages
  provide_boot_pages-PageCalls s t page_count gives =
      query_and_provide-PageCalls s t 1 page_count gives

  pub provide_init_pages-PageCalls :
      (s t : PageState) (page_count : ℕ)
      → provide_init_pages fw l4 s ≡ ok (page_count, t)
      → PageCalls l4 s.pool t.pool
  unfolding provide_init_pages
  provide_init_pages-PageCalls s t page_count gives =
      query_and_provide-PageCalls s t 2 page_count gives
