-- ===== src/Requests/Handler.antt =====
-- server/src/driver.cc: page requests and teardowns that do not go through.
use l4rdma.Prelude.{
  ℕ, zero, suc, ◌+◌, ◌-◌, ◌*◌, ◌%◌, ◌^◌, ◌≤◌, ◌<◌, ◌≡◌, refl, sym, ap, ◌∙◌, if◌then◌else◌, inl, inr,
  none, [], ◌∷◌, false, ◌&&◌, ◌==◌, ltb, arith, Bool-cases,
}
use l4rdma.Run.{
  ok, ◌>>=◌, Fails, Fails-bind, Fails-first, Run-cases, bind-ok_then, ok-injective, store_words,
  store_words-Fails,
}
use l4rdma.Cmd.Opcode.{manage_pages}
use l4rdma.Cmd.Mail.{omb_max_data}
use l4rdma.Cmd.Complete.{Firmware}
use l4rdma.Cmd.Complete.Output.{length-get_cmd_output}
use l4rdma.Mem.{L4re}
use l4rdma.Driver.{execute, output}
use l4rdma.Driver.Pages.{PageState, reclaim_pages}
use l4rdma.Pool.{Ptr, null, Heap, load, element_at}
use l4rdma.Context.{Context, Services, with_hca}
use l4rdma.Requests.{
  serve, block_bytes, destroy_slots, destroy_blocks, destroy_event_queues, teardown_hca,
}
use l4rdma.Queue.Objects.{get_queue}
use l4rdma.Cmd.Lengths.{destroy_eq_output_length}
use l4rdma.Cmd.Opcode.{destroy_eq as op_destroy_eq}
use l4rdma.Event.{destroy_eq}

load-Fails : {BD ED : Type 0} (h : Heap BD ED) (p : Ptr) → h p ≡ none → Fails (load h p)
unfolding load
load-Fails h p nothing = elim (Bool-cases (p == null)) [
  | inl here ↦ rw here refl
  | inr there ↦ rw (there, nothing) refl
]

-- Taking back more pages than the output mailbox can list stores words behind the end of the array
-- on the stack.
reclaim_pages-Fails :
    (fw : Firmware) (l4 : L4re) (s : PageState) (n : ℕ)
    → 3200 < n
    → n < 2 ^ 31 - 1
    → Fails (reclaim_pages fw l4 s n)
unfolding reclaim_pages
reclaim_pages-Fails fw l4 s n many small =
    let words = (2 + n * 2) % 2 ^ 32 in
    Fails-bind (execute fw s.hca manage_pages 2 (0 ∷ n ∷ []) words) _ λ (slot, hca).
      Fails-first (store_words (omb_max_data + 2) 0 (output hca slot words)) _ (
        store_words-Fails (omb_max_data + 2) 0 (output hca slot words) (omega arith)
          (omega (arith, length-get_cmd_output hca.cmd hca.memory slot words)))

module _ (svc : Services) where
  -- A request of the firmware to give back more than 3200 and less than 2 ^ 31 - 1 pages is never
  -- served: `-n`, as an `int32_t`, makes the handler take back `n` pages at once, and their
  -- addresses are stored behind the end of the array for the output.
  pub serve-Fails :
      (s : PageState) (n : ℕ) → 3200 < n → n < 2 ^ 31 - 1 → Fails (serve svc s (2 ^ 32 - n))
  unfolding serve
  serve-Fails s n many small =
      let negative : (ltb 0 (2 ^ 32 - n) && ltb (2 ^ 32 - n) (2 ^ 31)) ≡ false = ground arith in
      let not_least : (2 ^ 32 - n == 2 ^ 31) ≡ false = ground arith in
      let not_zero : (2 ^ 32 - n == 0) ≡ false = ground arith in
      let back : 2 ^ 32 - (2 ^ 32 - n) ≡ n = omega arith in
      rw (negative, not_least, not_zero, back)
        (Fails-first (reclaim_pages svc.firmware svc.l4re s n) _
          (reclaim_pages-Fails svc.firmware svc.l4re s n many small))

  destroy_eq-pool :
      (ctx ctx' : Context) (eq_number : ℕ)
      → destroy_eq svc ctx eq_number ≡ ok ctx'
      → ctx'.event_queue_pool ≡ ctx.event_queue_pool
  unfolding destroy_eq
  destroy_eq-pool ctx ctx' eq_number gives =
      bind-ok_then (get_queue ctx.event_queue_pool eq_number) _ ctx' gives λ (_, obj) _ e₁.
        bind-ok_then
          (execute svc.firmware ctx.pages.hca op_destroy_eq 0 (obj.id ∷ 0 ∷ [])
            destroy_eq_output_length)
          _ ctx' e₁
          λ (_, hca) _ e₂.
            sym (ap (λ c. c.event_queue_pool) (ok-injective (with_hca ctx hca) ctx' e₂))

  -- Destroying queues leaves their pool as it is.
  destroy_slots-pool :
      (ctx ctx' : Context) (i j rounds : ℕ)
      → destroy_slots svc ctx i j rounds ≡ ok ctx'
      → ctx'.event_queue_pool ≡ ctx.event_queue_pool
  unfolding destroy_slots
  destroy_slots-pool ctx ctx' i j zero gives =
      sym (ap (λ c. c.event_queue_pool) (ok-injective ctx ctx' gives))
  destroy_slots-pool ctx ctx' i j (suc rounds) gives =
      bind-ok_then
        (load ctx.event_queue_pool.heap (ctx.event_queue_pool.pool.start + block_bytes * i)) _ ctx'
        gives
        λ block _ e₁. bind-ok_then (element_at block j) _ ctx' e₁ λ e _ e₂.
          bind-ok_then (if e.used then destroy_eq svc ctx e.content.id else ok ctx) _ ctx' e₂
            λ ctx₁ destroyed e₃.
              destroy_slots-pool ctx₁ ctx' i (j + 1) rounds e₃ ∙ elim (Bool-cases e.used) [
                | inl used ↦ destroy_eq-pool ctx ctx₁ e.content.id (rw used at destroyed)
                | inr unused ↦
                    sym (
                      ap (λ c. c.event_queue_pool) (ok-injective ctx ctx₁ (rw unused at destroyed)))
              ]

  -- Where no block starts at the address of block `i`, the first of its elements is not read.
  destroy_slots-Fails :
      (ctx : Context) (i rounds : ℕ)
      → 1 ≤ rounds
      → ctx.event_queue_pool.heap (ctx.event_queue_pool.pool.start + block_bytes * i) ≡ none
      → Fails (destroy_slots svc ctx i 0 rounds)
  unfolding destroy_slots
  destroy_slots-Fails ctx i zero some_slots nothing = absurd (omega arith)
  destroy_slots-Fails ctx i (suc rounds) some_slots nothing =
      Fails-first
        (load ctx.event_queue_pool.heap (ctx.event_queue_pool.pool.start + block_bytes * i)) _
        (load-Fails ctx.event_queue_pool.heap (ctx.event_queue_pool.pool.start + block_bytes * i)
          nothing)

  destroy_blocks-Fails :
      (ctx : Context) (rounds : ℕ)
      → 2 ≤ rounds
      → 1 ≤ ctx.event_queue_pool.pool.block_size
      → ctx.event_queue_pool.heap (ctx.event_queue_pool.pool.start + block_bytes * 1) ≡ none
      → Fails (destroy_blocks svc ctx 0 rounds)
  unfolding destroy_blocks
  destroy_blocks-Fails ctx zero many some_slots nothing = absurd (omega arith)
  destroy_blocks-Fails ctx (suc zero) many some_slots nothing = absurd (omega arith)
  destroy_blocks-Fails ctx (suc (suc rounds)) many some_slots nothing =
      let n = ctx.event_queue_pool.pool.block_size in
      elim (Run-cases (destroy_slots svc ctx 0 0 n)) [
        | inl fails ↦ Fails-first (destroy_slots svc ctx 0 0 n) _ fails
        | inr (ctx₁, gives) ↦
            let same = destroy_slots-pool ctx ctx₁ 0 0 n gives in
            rw (gives, ◌>>=◌)
              (Fails-first (destroy_slots svc ctx₁ 1 0 ctx₁.event_queue_pool.pool.block_size) _ (
                destroy_slots-Fails ctx₁ 1 ctx₁.event_queue_pool.pool.block_size
                  (rw same some_slots) (rw same nothing)))
      ]

  -- With event queues in more than one block of their pool, of at least one element each, the
  -- teardown never succeeds where no block happens to start right behind the structure of the first
  -- one: it looks for the second block there, as if the blocks were an array.
  pub teardown_hca-Fails :
      (fuel : ℕ) (ctx : Context)
      → let queues = ctx.event_queue_pool in
        2 ≤ queues.pool.block_count
        → 1 ≤ queues.pool.block_size
        → queues.heap (queues.pool.start + block_bytes * 1) ≡ none
        → Fails (teardown_hca svc fuel ctx)
  unfolding teardown_hca destroy_event_queues
  teardown_hca-Fails fuel ctx many some_slots nothing =
      Fails-first (destroy_blocks svc ctx 0 ctx.event_queue_pool.pool.block_count) _
        (destroy_blocks-Fails ctx ctx.event_queue_pool.pool.block_count many some_slots nothing)
