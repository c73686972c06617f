-- ===== src/Pci.antt =====
-- server/src/device.cc: the adapter on the virtual PCI bus: finding it, its memory and its MSI-X
-- table.
pub mod Bus
pub mod Capability
pub mod Bar
pub mod Msix
use l4rdma.Prelude.{
  ℕ, zero, suc, ◌+◌, ◌-◌, ◌*◌, ◌/◌, ◌%◌, ◌^◌, Option, none, some, List, [], ◌∷◌, bit_and, bit_or,
  Bool, ◌==◌, if◌then◌else◌,
}
use l4rdma.Run.{Run, ok, throw, out_of_fuel, l4_error, terminated, chksys, ◌>>=◌}

-- A device on the bus. `Config` is the state of its configuration space; a call of the bus gives
-- `none` where it fails. `attach` maps memory of the bus, from an address on and for a size that it
-- rounds up to whole pages.
pub record PciDev : Type 1 where
  pub Config : Type 0
  pub cfg_read : Config → (reg width : ℕ) → Option ℕ
  pub cfg_write : Config → (reg width value : ℕ) → Option Config
  pub attach : (addr size : ℕ) → Option ℕ

-- A child of the bus, with the outcome of reading its first register.
pub record Child : Type 0 where
  pub id_reg : Option ℕ
  pub handle : ℕ

-- The loop over the children: the register keeps its value where the read fails, and the last
-- child with the vendor's number is the result.
unfoldable pub pci_get_dev : (id_reg : ℕ) → (result : Option ℕ) → List Child → Option ℕ
pci_get_dev id_reg result [] = result
pci_get_dev id_reg result (child ∷ children) =
    let now = elim (child.id_reg) as (λ _. ℕ) [ none ↦ id_reg | some r ↦ r ] in
    pci_get_dev now (if now % 2 ^ 16 == 0x15b3 then some child.handle else result) children

-- The address and the size that a base address register stands for, from its value and from what
-- it reads after all its bits were written; `msb` are those of the next register.
unfoldable pub bar_addr : (lsb_addr msb_addr : ℕ) → ℕ
bar_addr lsb_addr msb_addr =
    if bit_and lsb_addr 0x4 == 0
    then (if bit_and lsb_addr 0x1 == 0
        then bit_and lsb_addr 0xfffffff0
        else bit_and lsb_addr 0xfffffffc)
    else (msb_addr * 2 ^ 32 + bit_and lsb_addr 0xfffffff0) % 2 ^ 64

unfoldable pub bar_size : (lsb_addr lsb_size msb_size : ℕ) → ℕ
bar_size lsb_addr lsb_size msb_size =
    if bit_and lsb_addr 0x4 == 0
    then (if bit_and lsb_addr 0x1 == 0
        then (2 ^ 32 - bit_and lsb_size 0xfffffff0) % 2 ^ 32
        else (2 ^ 32 - bit_and lsb_size 0xfffffffc) % 2 ^ 32)
    else (2 ^ 64 - (msb_size * 2 ^ 32 + bit_and lsb_size 0xfffffff0) % 2 ^ 64) % 2 ^ 64

-- One round for each place in the configuration space that a pointer can name.
abbrev pub cap_fuel : ℕ
cap_fuel = 64

module _ (dev : PciDev) where
  -- A register is read, written with all bits set, read again and restored: its value, and what it
  -- read in between.
  unfoldable pub probe : dev.Config → ℕ → Run (ℕ × ℕ × dev.Config)
  probe c reg = do
    addr ← chksys (dev.cfg_read c reg 32)
    c₁ ← chksys (dev.cfg_write c reg 32 0xffffffff)
    size ← chksys (dev.cfg_read c₁ reg 32)
    c₂ ← chksys (dev.cfg_write c₁ reg 32 addr)
    ok (addr, size, c₂)

  -- The command register with its lowest bits cleared, and then others set or added.
  unfoldable pub change_command : dev.Config → (ℕ → ℕ) → Run dev.Config
  change_command c change = do
    cmd ← chksys (dev.cfg_read c 0x04 32)
    chksys (dev.cfg_write c 0x04 32 (change (bit_and cmd 0xfffffffc)))

  -- The second register is probed where the first one says that the bar has 64 bits.
  unfoldable pub probe_bar : dev.Config → ℕ → Run (ℕ × ℕ × dev.Config)
  unfolding probe
  probe_bar c idx = do
    (lsb_addr, lsb_size, c₁) ← probe c (0x10 + idx * 4)
    if bit_and lsb_addr 0x4 == 0
        then ok (bar_addr lsb_addr 0, bar_size lsb_addr lsb_size 0, c₁)
        else (do
          (msb_addr, msb_size, c₂) ← probe c₁ (0x14 + idx * 4)
          ok (bar_addr lsb_addr msb_addr, bar_size lsb_addr lsb_size msb_size, c₂))

  -- The address at which the memory of the bar is mapped.
  unfoldable pub map_pci_bar : dev.Config → ℕ → Run (ℕ × dev.Config)
  unfolding probe_bar change_command
  map_pci_bar c idx = do
    c₁ ← change_command c (λ cmd. bit_or cmd (2 ^ 2))
    (addr, size, c₂) ← probe_bar c₁ idx
    c₃ ← change_command c₂ (λ cmd. (cmd + 3) % 2 ^ 32)
    mem_addr ← chksys (dev.attach addr size)
    ok (mem_addr, c₃)

  -- The loop of `get_pci_cap`: the pointer at register `at` is followed.
  unfoldable pub follow : dev.Config → (target_cap_id fuel at : ℕ) → Run ℕ
  follow c target_cap_id zero at = out_of_fuel
  follow c target_cap_id (suc fuel) at = do
    pointer ← chksys (dev.cfg_read c at 8)
    let cap_ptr = bit_and pointer 0xfc
    cap_id ← chksys (dev.cfg_read c cap_ptr 8)
    let later = follow c target_cap_id fuel (cap_ptr + 1)
    if cap_id == target_cap_id then ok cap_ptr else if cap_ptr == 0 then ok 0 else later

  unfoldable pub get_pci_cap : dev.Config → ℕ → Run ℕ
  unfolding follow
  get_pci_cap c target_cap_id = do
    status ← chksys (dev.cfg_read c 0x06 16)
    if bit_and status 0x10 == 0 then ok 0 else follow c target_cap_id cap_fuel 0x34

-- The variables that `setup_msix` sets through its references.
pub record MsixTable : Type 0 where
  pub table_offset : ℕ
  pub bir : ℕ
  pub table_size : ℕ

-- The control register with the table enabled and not masked.
unfoldable pub enable_msix : ℕ → ℕ
enable_msix msix_ctrl = bit_and (bit_or msix_ctrl 0x8000) 0xffffbfff

unfoldable pub msix_table : (msix_ctrl table_pos : ℕ) → MsixTable
msix_table msix_ctrl table_pos = record {
  table_offset = bit_and table_pos 0xfff8;
  bir = bit_and table_pos 0x7;
  table_size = bit_and msix_ctrl 0x7ff;
}

module _ (dev : PciDev) where
  -- `none` stands for the result 1: there is no capability, or the table's size is 0.
  unfoldable pub setup_msix : dev.Config → Run (Option MsixTable × dev.Config)
  setup_msix c = do
    msix_cap ← get_pci_cap dev c 0x11
    if msix_cap == 0 then ok (none, c) else (do
      msix_ctrl ← chksys (dev.cfg_read c (msix_cap + 0x2) 16)
      let enabled = enable_msix msix_ctrl
      c₁ ← chksys (dev.cfg_write c (msix_cap + 0x2) 16 enabled)
      table_pos ← chksys (dev.cfg_read c₁ (msix_cap + 0x4) 32)
      let table = msix_table enabled table_pos
      ok (if table.table_size == 0 then none else some table, c₁))

-- A resource of the device, as the bus lists it.
pub record Resource : Type 0 where
  pub is_dma_domain : Bool
  pub start : ℕ

-- The loop of `bind_dma_space_to_device`: the start of the first resource that is a DMA domain;
-- `none` is a call that fails.
unfoldable pub find_dma_domain : List (Option Resource) → Run ℕ
find_dma_domain [] = throw terminated
find_dma_domain (r ∷ rs) =
    let later = find_dma_domain rs in
    elim r as (λ _. Run ℕ) [
      | none ↦ throw l4_error
      | some res ↦ if res.is_dma_domain then ok res.start else later
    ]
