-- ===== src/Driver/BringUp.antt =====
-- server/src/driver.cc: bringing up the adapter.
pub mod Lending
use l4rdma.Prelude.{
  ℕ, ◌+◌, ◌*◌, ◌/◌, ◌%◌, ◌^◌, List, [], ◌∷◌, bit_and, ltb, if◌then◌else◌, get_or, drop,
}
use l4rdma.Run.{Run, ok, throw, terminated, ◌>>=◌, ◌>>◌}
use l4rdma.Io.{Memory, iowrite32be, ioread32be}
use l4rdma.Uar.{Uar}
use l4rdma.Cmd.Lengths.{
  init_hca_output_length, enable_hca_output_length, set_driver_version_output_length,
}
use l4rdma.Cmd.Opcode.{
  enable_hca, init_hca as op_init_hca, set_driver_version as op_set_driver_version,
}
use l4rdma.Cmd.Complete.{Firmware}
use l4rdma.Mem.{L4re}
use l4rdma.Driver.{Hca, execute}
use l4rdma.Driver.Wait.{init_wait}
use l4rdma.Driver.Issi.{configure_issi}
use l4rdma.Driver.Setup.{configure_hca_cap, alloc_uar}
use l4rdma.Driver.Pages.{PageState, provide_boot_pages, provide_init_pages}

-- `struct Init_Seg`, by the byte offsets of its fields.
abbrev cmdq_addr_msb : ℕ
cmdq_addr_msb = 16

abbrev cmdq_addr_lsb_info : ℕ
cmdq_addr_lsb_info = 20

abbrev initializing : ℕ
initializing = 508

-- The sizes that the adapter gives for its command queue are checked.
unfoldable pub check_queue_info : ℕ → Run (Unit {0})
check_queue_info info =
    let log_size = bit_and (info / 2 ^ 4) 0xf in
    let log_stride = bit_and info 0xf in
    if ltb 32 (2 ^ log_size)
    then throw terminated
    else if ltb 12 (log_size + log_stride)
    then throw terminated
    else ok tt

-- The address of the command queue; the masked low word is overwritten with the whole one.
pub write_queue_address : Memory → (init_seg addr : ℕ) → Memory
write_queue_address m init_seg addr =
    iowrite32be (iowrite32be m (init_seg + cmdq_addr_msb) (addr / 2 ^ 32))
      (init_seg + cmdq_addr_lsb_info) (addr % 2 ^ 32)

-- The array `driver` over what the stack held: "l4re,mlx5,1.000.000000" with its final zero from
-- the third word on, in bytes of the processor's order.
pub driver_words : List ℕ → List ℕ
driver_words raw =
    get_or raw 0 0
    ∷ get_or raw 1 0
    ∷ 0x6572346c
    ∷ 0x786c6d2c
    ∷ 0x2e312c35
    ∷ 0x2e303030
    ∷ 0x30303030
    ∷ (get_or raw 7 0 / 2 ^ 24 * 2 ^ 24 + 0x3030)
    ∷ drop 8 raw

-- `raw` are the 18 words that the stack holds where the array is made.
pub set_driver_version : Firmware → Hca → List ℕ → Run Hca
set_driver_version fw hca raw = do
  (_, hca₁) ←
      execute fw hca op_set_driver_version 0 (driver_words raw) set_driver_version_output_length
  ok hca₁

-- The registers of the adapter: the check of its queue and the address of ours.
pub init_registers : Firmware → Hca → ℕ → Run Hca
init_registers fw hca init_seg = do
  m₁ ← init_wait fw hca.memory (init_seg + initializing)
  check_queue_info (bit_and (ioread32be m₁ (init_seg + cmdq_addr_lsb_info)) 0xff)
  let m₂ = write_queue_address m₁ init_seg hca.cmd.cq.dma_mem.phys
  m₃ ← init_wait fw m₂ (init_seg + initializing)
  ok (record hca { memory = m₃ })

-- The adapter with its pages, and the user access region, which lies in the same mapping as
-- `init_seg`.
pub init_hca : Firmware → L4re → ℕ → List ℕ → PageState → Run (PageState × Uar)
init_hca fw l4 init_seg raw s = do
  hca₁ ← init_registers fw s.hca init_seg
  (_, hca₂) ← execute fw hca₁ enable_hca 0 [] enable_hca_output_length
  (_, hca₃) ← configure_issi fw hca₂
  (_, s₁) ← provide_boot_pages fw l4 (record s { hca = hca₃ })
  (set_driver, hca₄) ← configure_hca_cap fw s₁.hca
  (_, s₂) ← provide_init_pages fw l4 (record s₁ { hca = hca₄ })
  (_, hca₅) ← execute fw s₂.hca op_init_hca 0 [] init_hca_output_length
  hca₆ ← (if set_driver then set_driver_version fw hca₅ raw else ok hca₅)
  (index, addr, hca₇) ← alloc_uar fw hca₆ init_seg
  let uar : Uar = record { index = index; addr = addr }
  ok (record s₂ { hca = hca₇ }, uar)
