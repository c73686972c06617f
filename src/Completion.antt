-- ===== src/Completion.antt =====
-- server/src/cq.h and cq.cc: completion queues.
use l4rdma.Prelude.{
  ℕ, ◌+◌, ◌*◌, ◌/◌, ◌%◌, ◌^◌, List, [], ◌∷◌, ◌||◌, bit_and, bit_or, ltb, ◌==◌, if◌then◌else◌,
  get_or, set, take,
}
use l4rdma.Run.{Run, ok, throw, fault, ◌>>=◌}
use l4rdma.Mem.{lend_page}
use l4rdma.Queue.Objects.{object_at, put_object, page_count, index_queue, alloc_queue}
use l4rdma.Cmd.Lengths.{create_cq_output_length}
use l4rdma.Cmd.Opcode.{create_cq as op_create_cq}
use l4rdma.Driver.{execute, output}
use l4rdma.Context.{Context, Services, with_hca}
use l4rdma.Event.{create_eq, log2, copy_words}

-- The fields of a word of `CQC`.
abbrev cqc_size_mask : ℕ
cqc_size_mask = 0x1f000000

abbrev cqc_uar_mask : ℕ
cqc_uar_mask = 0x00ffffff

abbrev cqc_size_offset : ℕ
cqc_size_offset = 24

abbrev pub page_cqe_count : ℕ
page_cqe_count = 64

abbrev pub cqc_size : ℕ
cqc_size = 16

-- The words of `struct CQC`; `phys` is the page of the doorbell record.
unfoldable pub cqc_words : (size uar_index eq_number phys : ℕ) → List ℕ
cqc_words size uar_index eq_number phys =
    let log_size = bit_and (log2 64 size % 2 ^ 8 * 2 ^ cqc_size_offset % 2 ^ 32) cqc_size_mask in
    0
    ∷ 0
    ∷ 0
    ∷ bit_or log_size (bit_and uar_index cqc_uar_mask)
    ∷ 0
    ∷ eq_number
    ∷ 0
    ∷ 0
    ∷ 0
    ∷ 0
    ∷ 0
    ∷ 0
    ∷ 0
    ∷ 0
    ∷ phys / 2 ^ 32
    ∷ phys % 2 ^ 32
    ∷ []

-- The input of CREATE_CQ, the first words of an array that is as the stack was before: 24 words are
-- not set, and one word is copied for each page, though two are sent.
unfoldable pub cq_payload : (stack cqc pas_list : List ℕ) → (pages : ℕ) → List ℕ
unfolding copy_words
cq_payload stack cqc pas_list pages =
    let with_cqc = copy_words (set (set stack 0 0) 1 0) 2 cqc in
    let with_pas = copy_words with_cqc (2 + cqc_size + 24) (take pages pas_list) in
    take (2 + cqc_size + 24 + pages * 2) with_pas

module _ (svc : Services) where
  -- The number of the queue. The payload has room for 128 words.
  unfoldable pub create_cq : Context → ℕ → Run (ℕ × Context)
  unfolding cqc_words cq_payload
  create_cq ctx size = do
    (page, pool) ← lend_page svc.l4re ctx.pages.pool
    let ctx₁ = record ctx { pages = record (ctx.pages) { pool = pool } }
    (eq_number, ctx₂) ← create_eq svc ctx₁ 4 0 0
    (slot, cqs, regions) ← alloc_queue svc.cq ctx₂.compl_queue_pool ctx₂.uar_page_pool size
    obj ← object_at cqs slot
    uar ← object_at regions obj.uarp
    let pages = page_count page_cqe_count size
    if size == 0 || ltb 128 (2 + cqc_size + 24 + pages * 2) then throw fault else (do
      let cqc = cqc_words size uar.index eq_number page.phys
      let payload = cq_payload svc.stack cqc obj.pas_list pages
      (command, hca) ←
          execute svc.firmware ctx₂.pages.hca op_create_cq 0 payload create_cq_output_length
      let cq_number = get_or (output hca command create_cq_output_length) 0 0
      cqs₁ ← put_object cqs slot (record obj { id = cq_number })
      cqs₂ ← index_queue cqs₁ slot
      let ctx₃ = record ctx₂ { compl_queue_pool = cqs₂; uar_page_pool = regions }
      ok (cq_number, with_hca ctx₃ hca))
