-- ===== src/Driver/BringUp/Lending.antt =====
-- server/src/driver.cc: what the bring-up does to the pool of pages.
use l4rdma.Prelude.{ℕ, ◌≡◌, List, [], subst, if◌then◌else◌}
use l4rdma.Run.{ok, ok-injective, bind-ok}
use l4rdma.Uar.{Uar}
use l4rdma.Cmd.Opcode.{enable_hca, init_hca as op_init_hca}
use l4rdma.Cmd.Complete.{Firmware}
use l4rdma.Mem.{L4re}
use l4rdma.Mem.PageCalls.{PageCalls, PageCalls-PageCalls}
use l4rdma.Driver.{execute}
use l4rdma.Driver.Issi.{configure_issi}
use l4rdma.Driver.Setup.{configure_hca_cap, alloc_uar}
use l4rdma.Driver.Pages.{PageState, provide_boot_pages, provide_init_pages}
use l4rdma.Driver.Pages.Lending.{provide_boot_pages-PageCalls, provide_init_pages-PageCalls}
use l4rdma.Driver.BringUp.{init_registers, set_driver_version, init_hca}

pub init_hca-PageCalls :
    (fw : Firmware) (l4 : L4re) (init_seg : ℕ) (raw : List ℕ) (s t : PageState) (uar : Uar)
    → init_hca fw l4 init_seg raw s ≡ ok (t, uar)
    → PageCalls l4 s.pool t.pool
unfolding init_hca
init_hca-PageCalls fw l4 init_seg raw s t uar gives =
    let (hca₁, _, e₁) = bind-ok (init_registers fw s.hca init_seg) _ _ gives in
    let ((_, hca₂), _, e₂) = bind-ok (execute fw hca₁ enable_hca 0 [] 0) _ _ e₁ in
    let ((_, hca₃), _, e₃) = bind-ok (configure_issi fw hca₂) _ _ e₂ in
    let booting : PageState = record s { hca = hca₃ } in
    let ((_, s₁), boot, e₄) = bind-ok (provide_boot_pages fw l4 booting) _ _ e₃ in
    let ((set_driver, hca₄), _, e₅) = bind-ok (configure_hca_cap fw s₁.hca) _ _ e₄ in
    let starting : PageState = record s₁ { hca = hca₄ } in
    let ((_, s₂), init, e₆) = bind-ok (provide_init_pages fw l4 starting) _ _ e₅ in
    let ((_, hca₅), _, e₇) = bind-ok (execute fw s₂.hca op_init_hca 0 [] 0) _ _ e₆ in
    let (hca₆, _, e₈) =
      bind-ok (if set_driver then set_driver_version fw hca₅ raw else ok hca₅) _ _ e₇ in
    let ((index, addr, hca₇), _, e₉) = bind-ok (alloc_uar fw hca₆ init_seg) _ _ e₈ in
    subst (λ r. PageCalls l4 s.pool r.0.pool) (ok-injective _ _ e₉)
      (PageCalls-PageCalls (provide_boot_pages-PageCalls fw l4 booting s₁ _ boot)
        (provide_init_pages-PageCalls fw l4 starting s₂ _ init))
