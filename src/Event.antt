-- ===== src/Event.antt =====
-- server/src/event.h and event.cc: event queues, in which the hardware reports to the driver.
pub mod Ownership
pub mod Payload
use l4rdma.Prelude.{
  ℕ, zero, suc, ◌+◌, ◌-◌, ◌*◌, ◌/◌, ◌%◌, ◌^◌, List, [], ◌∷◌, ◌++◌, Bool, true, false, ◌||◌, bit_and,
  bit_or, ltb, leb, ◌==◌, if◌then◌else◌, get_or, set, take, replicate,
}
use l4rdma.Run.{Run, ok, throw, fault, eq_too_large, eqc_error, ◌>>=◌, store_words}
use l4rdma.Io.{Memory, iowrite32be, ioread32be}
use l4rdma.Uar.{Uar}
use l4rdma.Queue.{Queue, enqueue}
use l4rdma.Queue.Objects.{
  QueueObj, object_at, put_object, page_count, index_queue, get_queue, alloc_queue,
}
use l4rdma.Cmd.Lengths.{create_eq_output_length, destroy_eq_output_length}
use l4rdma.Cmd.Opcode.{create_eq as op_create_eq, query_eq, destroy_eq as op_destroy_eq}
use l4rdma.Driver.{Hca, execute, output}
use l4rdma.Context.{EqCtx, Context, Services, with_hca}

-- The fields of the words of `EQC`, and the owner of an entry.
abbrev pub eqc_status_mask : ℕ
eqc_status_mask = 0xf0000000

abbrev pub eqc_state_mask : ℕ
eqc_state_mask = 0x00000f00

abbrev pub eqc_uar_mask : ℕ
eqc_uar_mask = 0x00ffffff

abbrev pub eqc_log_eq_size_mask : ℕ
eqc_log_eq_size_mask = 0x1f000000

abbrev pub eqc_intr_mask : ℕ
eqc_intr_mask = 0x000000ff

abbrev pub eqc_ownership_mask : ℕ
eqc_ownership_mask = 0x00000001

abbrev pub eqc_status_offset : ℕ
eqc_status_offset = 28

abbrev pub eqc_state_offset : ℕ
eqc_state_offset = 8

abbrev pub eqc_log_eq_size_offset : ℕ
eqc_log_eq_size_offset = 24

-- How many entries of 64 bytes fit a page.
abbrev pub page_eqe_count : ℕ
page_eqe_count = 64

-- `struct EQE`, by the byte offsets of its fields.
abbrev pub eqe : (start i : ℕ) → ℕ
eqe start i = start + 64 * i

abbrev pub eqe_data : ℕ → ℕ
eqe_data i = 32 + 4 * i

abbrev pub eqe_ctrl : ℕ
eqe_ctrl = 60

-- The words of `struct EQI`.
abbrev pub eqi_size : ℕ
eqi_size = 66

-- The register of `UAR::Page` that arms a queue.
abbrev pub eqn_arm_and_update_ci : ℕ
eqn_arm_and_update_ci = 64

-- The loop of `init_eq`.
unfoldable pub init_loop : Memory → (start i rounds : ℕ) → Memory
init_loop m start i zero = m
init_loop m start i (suc rounds) =
    init_loop (iowrite32be m (eqe start i + eqe_ctrl) 0x1) start (i + 1) rounds

-- All entries but the last one are given to the hardware; for a queue without entries the bound of
-- the loop wraps around.
unfoldable pub init_eq : Memory → Queue → Memory
unfolding init_loop
init_eq m q = init_loop m q.start 0 (if q.size == 0 then 2 ^ 64 - 1 else q.size - 1)

-- The whole part of the logarithm, halving at most 64 times.
unfoldable pub log2 : ℕ → ℕ → ℕ
log2 zero n = 0
log2 (suc fuel) n = let rest = log2 fuel (n / 2) in if ltb n 2 then 0 else rest + 1

-- The bit of an event type, in 64 bits; type 0 has none.
abbrev pub event_bit : ℕ → ℕ
event_bit type = if type == 0 then 0 else 2 ^ type

-- The words of `EQI` for a queue of a size, with the page `uar_index`.
unfoldable pub eqi_words : (size uar_index irq_num type : ℕ) → List ℕ
unfolding log2
eqi_words size uar_index irq_num type =
    let log_size =
      bit_and (log2 64 size * 2 ^ eqc_log_eq_size_offset % 2 ^ 32) eqc_log_eq_size_mask in
    replicate 5 0
    ++ (bit_or log_size (bit_and uar_index eqc_uar_mask)
        ∷ 0
        ∷ bit_and irq_num eqc_intr_mask
        ∷ replicate 12 0)
    ++ (event_bit type / 2 ^ 32 ∷ event_bit type % 2 ^ 32 ∷ replicate 44 0)

-- The loop that copies words into an array, from index `i` of the array on.
unfoldable pub copy_words : (array : List ℕ) (i : ℕ) → List ℕ → List ℕ
copy_words array i [] = array
copy_words array i (w ∷ ws) = copy_words (set array i w) (i + 1) ws

-- The input of CREATE_EQ, the first words of an array that is as the stack was before: one word is
-- copied for each page, though two are sent.
unfoldable pub eq_payload : (stack eqi pas_list : List ℕ) → (pages : ℕ) → List ℕ
unfolding copy_words
eq_payload stack eqi pas_list pages =
    let with_eqi = copy_words stack 0 eqi in
    let with_pas = copy_words with_eqi eqi_size (take pages pas_list) in
    take (eqi_size + pages * 2) with_pas

module _ (svc : Services) where
  -- The number of the queue. A queue without an entry has no logarithm, and an event type beyond 63
  -- no bit.
  unfoldable pub create_eq : Context → (size type irq_num : ℕ) → Run (ℕ × Context)
  unfolding eqi_words eq_payload
  create_eq ctx size type irq_num = do
    (slot, eqs, regions) ← alloc_queue svc.eq ctx.event_queue_pool ctx.uar_page_pool size
    obj ← object_at eqs slot
    let obj₁ = record obj { q_ctx = record { irq_num = irq_num; type = type } }
    let pages = page_count page_eqe_count size
    if ltb ((128 - eqi_size) / 2) pages
        then throw eq_too_large
        else if size == 0 || leb 64 type
        then throw fault
        else (do
          uar ← object_at regions obj.uarp
          let eqi = eqi_words size uar.index irq_num type
          let payload = eq_payload svc.stack eqi obj.pas_list pages
          let hca = record (ctx.pages.hca) { memory = init_eq ctx.pages.hca.memory obj.queue }
          (command, hca₁) ← execute svc.firmware hca op_create_eq 0 payload create_eq_output_length
          let eq_number = get_or (output hca₁ command create_eq_output_length) 0 0
          eqs₁ ← put_object eqs slot (record obj₁ { id = eq_number })
          eqs₂ ← index_queue eqs₁ slot
          let ctx₁ = record ctx { event_queue_pool = eqs₂; uar_page_pool = regions }
          ok (eq_number, with_hca ctx₁ hca₁))

  unfoldable pub get_eq_state : Context → ℕ → Run (ℕ × Context)
  get_eq_state ctx eq_number = do
    (_, obj) ← get_queue ctx.event_queue_pool eq_number
    let pages = page_count page_eqe_count obj.queue.size
    let output_length = eqi_size + pages * 2
    (command, hca) ← execute svc.firmware ctx.pages.hca query_eq 0 (obj.id ∷ 0 ∷ []) output_length
    words ← store_words 128 0 (output hca command output_length)
    let status = get_or words 2 0
    if bit_and status eqc_status_mask / 2 ^ eqc_status_offset == 0
        then ok (bit_and status eqc_state_mask / 2 ^ eqc_state_offset, with_hca ctx hca)
        else throw eqc_error

  unfoldable pub destroy_eq : Context → ℕ → Run Context
  destroy_eq ctx eq_number = do
    (_, obj) ← get_queue ctx.event_queue_pool eq_number
    (_, hca) ←
        execute svc.firmware ctx.pages.hca op_destroy_eq 0 (obj.id ∷ 0 ∷ [])
          destroy_eq_output_length
    ok (with_hca ctx hca)

-- The entry at the head belongs to the hardware.
unfoldable pub owned_by_hw : Memory → Queue → Bool
owned_by_hw m q = bit_and (ioread32be m (eqe q.start q.head + eqe_ctrl)) eqc_ownership_mask == 1

unfoldable pub eqe_owned_by_hw : Context → ℕ → Run Bool
unfolding owned_by_hw
eqe_owned_by_hw ctx eq_number = do
  (_, obj) ← get_queue ctx.event_queue_pool eq_number
  ok (owned_by_hw ctx.pages.hca.memory obj.queue)

-- The seven words of data of an entry.
unfoldable pub eqe_words : Memory → (entry i rounds : ℕ) → List ℕ
eqe_words m entry i zero = []
eqe_words m entry i (suc rounds) =
    ioread32be m (entry + eqe_data i) ∷ eqe_words m entry (i + 1) rounds

-- The data of the entry at the head, and the queue with its head moved on.
unfoldable pub read_entry : Memory → Queue → List ℕ × Queue
unfolding eqe_words
read_entry m q = let (slot, q') = enqueue q in (eqe_words m (eqe q.start slot) 0 7, q')

unfoldable pub read_eqe : Context → ℕ → Run (List ℕ × Context)
unfolding read_entry
read_eqe ctx eq_number = do
  (slot, obj) ← get_queue ctx.event_queue_pool eq_number
  let (payload, ring) = read_entry ctx.pages.hca.memory obj.queue
  eqs ← put_object ctx.event_queue_pool slot (record obj { queue = ring })
  ok (payload, record ctx { event_queue_pool = eqs })

unfoldable pub arm_eq : Context → ℕ → Run Context
arm_eq ctx eq_number = do
  (_, obj) ← get_queue ctx.event_queue_pool eq_number
  uar ← object_at ctx.uar_page_pool obj.uarp
  let hca = ctx.pages.hca
  let value = bit_and (obj.id * 2 ^ 24 % 2 ^ 32) 0xff000000
  let memory = iowrite32be hca.memory (uar.addr + eqn_arm_and_update_ci) value
  ok (with_hca ctx (record hca { memory = memory }))
