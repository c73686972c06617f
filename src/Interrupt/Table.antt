-- ===== src/Interrupt/Table.antt =====
-- server/src/interrupt.cc: what an entry of the MSI-X table holds, and that entries are apart.
use l4rdma.Prelude.{ℕ, ◌+◌, ◌*◌, ◌/◌, ◌%◌, ◌^◌, ◌<◌, ◌≡◌, ◌≢◌, bit_and, arith, ◌==◌, if◌then◌else◌}
use l4rdma.Bits.{bit_and-high30}
use l4rdma.Io.{Memory, ioread32be}
use l4rdma.Io.Endian.{ioread32be-iowrite32be}
use l4rdma.Interrupt.{MsiInfo, msix_entry, create_msix_entry}

-- The words of an entry are those of a message, and the entry is not masked.
abbrev pub HoldsMessage : Memory → (e : ℕ) → MsiInfo → Type 0
HoldsMessage m e info =
    (ioread32be m e + 2 ^ 32 * ioread32be m (e + 4) ≡ info.msi_addr)
    × (ioread32be m (e + 8) ≡ info.msi_data)
    × (ioread32be m (e + 12) ≡ 0)

module _ (m : Memory) (irq_num msix_table : ℕ) (info : MsiInfo) where
  -- What a register reads after the four writes.
  read-create_msix_entry :
      (a : ℕ)
      → let e = msix_entry msix_table irq_num in
        ioread32be (create_msix_entry m irq_num msix_table info) a ≡ (
          if a == e + 12
          then 0
          else if a == e + 8
          then info.msi_data % 2 ^ 32
          else if a == e + 4
          then info.msi_addr / 2 ^ 32 % 2 ^ 32
          else if a == e
          then bit_and (info.msi_addr % 2 ^ 32) 0xfffffffc % 2 ^ 32
          else ioread32be m a)
  unfolding create_msix_entry
  read-create_msix_entry a = simp ioread32be-iowrite32be

  pub create_msix_entry-message :
      irq_num < 2 ^ 29
      → (info.msi_addr < 2 ^ 64) × (info.msi_addr % 4 ≡ 0)
      → info.msi_data < 2 ^ 32
      → HoldsMessage
          (create_msix_entry m irq_num msix_table info)
          (msix_entry msix_table irq_num)
          info
  create_msix_entry-message small addr word =
      let e = msix_entry msix_table irq_num in
      let low = bit_and-high30 (info.msi_addr % 2 ^ 32) in
      (
        ground (arith, low, read-create_msix_entry e, read-create_msix_entry (e + 4)),
        ground (arith, read-create_msix_entry (e + 8)),
        ground (arith, read-create_msix_entry (e + 12)),
      )

  -- An entry for a message to an aligned address of 64 bits reads back as that address, in two
  -- words, the data and a zero, which unmasks it; no other entry is changed.
  pub create_msix_entry-entry :
      (j k : ℕ)
      → irq_num < 2 ^ 29
      → (info.msi_addr < 2 ^ 64) × (info.msi_addr % 4 ≡ 0)
      → info.msi_data < 2 ^ 32
      → j ≢ irq_num
      → j < 2 ^ 29
      → k < 4
      → let m' = create_msix_entry m irq_num msix_table info in
        let e = msix_entry msix_table irq_num in
        (ioread32be m' e + 2 ^ 32 * ioread32be m' (e + 4) ≡ info.msi_addr)
        × (ioread32be m' (e + 8) ≡ info.msi_data)
        × (ioread32be m' (e + 12) ≡ 0)
        × (ioread32be m' (msix_entry msix_table j + 4 * k)
            ≡ ioread32be m (msix_entry msix_table j + 4 * k))
  create_msix_entry-entry j k small addr word other few inside =
      let (address, message, control) = create_msix_entry-message small addr word in
      (
        address,
        message,
        control,
        ground (arith, read-create_msix_entry (msix_entry msix_table j + 4 * k)),
      )
