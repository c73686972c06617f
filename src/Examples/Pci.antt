-- ===== src/Examples/Pci.antt =====
-- An adapter with a bar of 32 MiB at 0x1_F000_0000 and a list of two capabilities, PCI Express at
-- 0x60 and MSI-X at 0x9c.
use l4rdma.Prelude.{
  ℕ, ◌+◌, ◌*◌, ◌^◌, ◌<◌, ◌≡◌, ◌↔◌, refl, Option, none, some, true, false, ◌%◌, [], ◌∷◌, arith, ◌==◌,
  if◌then◌else◌,
}
use l4rdma.Run.{Run, ok}
use l4rdma.Io.{Memory, ioread32be}
use l4rdma.Interrupt.{MsiInfo, IrqServices, create_msix_entry, create_and_bind_irq, create_msix_irq}
use l4rdma.Interrupt.Table.{create_msix_entry-entry}
use l4rdma.Examples.Cmd.{zeroed}
use l4rdma.Pci.Bus.{
  BusServices, BindsDomain, bind_dma_space_to_device, bind_dma_space_to_device-BindsDomain,
}
use l4rdma.Pci.{
  find_dma_domain, PciDev, MsixTable, enable_msix, msix_table, get_pci_cap, setup_msix, probe_bar,
}
use l4rdma.Pci.Capability.{first_cap, get_pci_cap-first_cap}
use l4rdma.Pci.Bar.{probe_bar-64}
use l4rdma.Pci.Msix.{setup_msix-position}

abbrev answer : ℕ → ℕ → ℕ
answer reg value =
    if value == 0xffffffff then (if reg == 0x10 then 0xfe00000c else 0xffffffff) else value

abbrev pub regs : ℕ → ℕ
regs r =
    if r == 0
    then 0xb3
    else if r == 0x06
    then 0x10
    else if r == 0x10
    then 0xf000000c
    else if r == 0x14
    then 0x1
    else if r == 0x34
    then 0x60
    else if r == 0x60
    then 0x10
    else if r == 0x61
    then 0x9c
    else if r == 0x9c
    then 0x11
    else if r == 0x9d
    then 0
    else if r == 0x9e
    then 0x3f
    else if r == 0xa0
    then 0x2000
    else 0

abbrev pub adapter : PciDev
adapter = record {
  Config = ℕ → ℕ;
  cfg_read = λ c reg width. some (c reg);
  cfg_write = λ c reg width value. some (λ r. if r == reg then answer reg value else c r);
  attach = λ addr size. some addr;
}

get_pci_cap-first_cap_example : get_pci_cap adapter regs 0x11 ≡ ok 0x9c
unfolding first_cap
get_pci_cap-first_cap_example =
    get_pci_cap-first_cap adapter regs 0x11 0xb3 0x10 ((0x60, 0x10) ∷ (0x9c, 0x11) ∷ []) refl
      (omega arith) (omega arith)
      (
        (0x60, refl, refl),
        omega arith,
        refl,
        ((0x9c, refl, refl), omega arith, refl, (0, refl, refl, refl)),
      )
      (omega arith)

get_pci_cap_runs : get_pci_cap adapter regs 0x11 ≡ ok 0x9c
unfolding get_pci_cap
get_pci_cap_runs = refl

setup_msix-position_example :
    (t : MsixTable) × (setup_msix adapter regs
      ≡ ok (some t, λ r. if r == 0x9e then answer 0x9e (enable_msix 0x3f) else regs r))
    × ((t.table_offset + t.bir ≡ 0x2000) ↔ (0x2000 < 2 ^ 16))
unfolding enable_msix msix_table
setup_msix-position_example =
    setup_msix-position adapter regs
      (λ r. if r == 0x9e then answer 0x9e (enable_msix 0x3f) else regs r) 0x9c 0x3f 0x2000
      get_pci_cap_runs (omega arith) refl refl refl (omega arith)

abbrev written : (ℕ → ℕ) → (reg value : ℕ) → ℕ → ℕ
written c reg value r = if r == reg then answer reg value else c r

abbrev restored : (reg value : ℕ) → (ℕ → ℕ) → ℕ → ℕ
restored reg value c = written (written c reg 0xffffffff) reg value

probe_bar-64_example :
    probe_bar adapter regs 0
    ≡ ok (0x1_f000_0000, 0x2000000, restored 0x14 0x1 (restored 0x10 0xf000000c regs))
probe_bar-64_example =
    probe_bar-64 adapter regs (restored 0x10 0xf000000c regs)
      (restored 0x14 0x1 (restored 0x10 0xf000000c regs)) 0 0x1f00_0000 0x200000 12
      (omega arith, omega arith, omega arith) (omega arith, refl)
      (written regs 0x10 0xffffffff, refl, refl, refl, refl)
      (written (restored 0x10 0xf000000c regs) 0x14 0xffffffff, refl, refl, refl, refl)

abbrev msi : MsiInfo
msi = record { msi_addr = 0xfee0_1000; msi_data = 0x41 }

create_msix_entry-entry_example :
    let m' = create_msix_entry zeroed 2 0x2000 msi in
    (ioread32be m' 0x2020 + 2 ^ 32 * ioread32be m' 0x2024 ≡ 0xfee0_1000)
    × (ioread32be m' 0x2028 ≡ 0x41)
    × (ioread32be m' 0x202c ≡ 0)
    × (ioread32be m' 0x2010 ≡ ioread32be zeroed 0x2010)
create_msix_entry-entry_example =
    create_msix_entry-entry zeroed 2 0x2000 msi 1 0 (omega arith) (omega arith, refl) (omega arith)
      (omega arith) (omega arith) (omega arith)

-- A kernel that counts its calls, and gives the vector `v` a message of its own.
abbrev kernel : IrqServices
kernel = record {
  State = ℕ;
  f_msi = 0x8000_0000;
  alloc_irq = λ s. some (0x100 + s, s + 1);
  create = λ s irq. some (s + 1);
  bind_thread = λ s irq thread. some (s + 1);
  bind = λ s icu vec irq. some (s + 1);
  msi_info =
      λ s icu vec src. some (record { msi_addr = 0xfee0_0000; msi_data = vec % 2 ^ 31 + 0x40 });
  unmask = λ s m icu vec. some (s + 1);
  detach = λ s irq. s + 1;
}

abbrev get_msi : Option MsiInfo → MsiInfo
get_msi none = record { msi_addr = 0; msi_data = 0 }
get_msi (some info) = info

abbrev irq_call : Run (ℕ × ℕ × Memory)
irq_call = create_msix_irq kernel 0 zeroed 7 0x5 0x9000 0 0x8000_0000 3

create_msix_irq_runs :
    irq_call
    ≡ ok (
      0x100,
      5,
      create_msix_entry zeroed 0 0x9000 (record { msi_addr = 0xfee0_0000; msi_data = 0x40 }),
    )
unfolding create_msix_irq create_and_bind_irq
create_msix_irq_runs = refl

-- A bus on which the second resource of the device is its DMA domain.
abbrev pub bus : BusServices
bus = record {
  State = ℕ;
  device = λ s. some (
      some (record { is_dma_domain = false; start = 0x1000 })
      ∷ some (record { is_dma_domain = true; start = 0x2000 })
      ∷ none
      ∷ []);
  make_cap = λ s. some (0x30, s + 1);
  create = λ s dma_cap. some (s + 1);
  assign = λ s start dma_cap. if start == 0x2000 then some (s + 1) else none;
  device_by_hid = λ s. some 9;
  alloc_icu = λ s. some (0x31, s + 1);
  vicu = λ s vbus_icu icu. some (s + 1);
  info = λ s icu. true;
}

bind_dma_space_to_device-BindsDomain_example :
    (bind_dma_space_to_device bus 0 ≡ ok (0x30, 3)) ↔ BindsDomain bus 0 0x30 3
bind_dma_space_to_device-BindsDomain_example = bind_dma_space_to_device-BindsDomain bus 0 0x30 3

bind_dma_space_to_device_runs : bind_dma_space_to_device bus 0 ≡ ok (0x30, 3)
unfolding bind_dma_space_to_device find_dma_domain
bind_dma_space_to_device_runs = refl
