-- ===== src/Pci/Msix.antt =====
-- server/src/device.cc: where `setup_msix` says that the MSI-X table is.
use l4rdma.Prelude.{ℕ, ◌+◌, ◌^◌, ◌<◌, ◌≡◌, ◌≢◌, ◌↔◌, refl, some, false, arith, ◌==◌}
use l4rdma.Bits.{bit_and-low3, bit_and-offset}
use l4rdma.Run.{ok, ◌>>=◌}
use l4rdma.Pci.{PciDev, MsixTable, enable_msix, msix_table, get_pci_cap, setup_msix}

-- The offset and the index of the bar add up to the register that holds both just if the register
-- is less than 2 ^ 16.
msix_table_position :
    (ctrl table_pos : ℕ)
    → ((msix_table ctrl table_pos).table_offset + (msix_table ctrl table_pos).bir ≡ table_pos)
      ↔ (table_pos < 2 ^ 16)
unfolding msix_table
msix_table_position ctrl table_pos = (
  λ e. omega (arith, bit_and-low3 table_pos, bit_and-offset table_pos),
  λ small. omega (arith, bit_and-low3 table_pos, bit_and-offset table_pos),
)

-- Where the device has the capability at `cap` and a table that is not of size 0, `setup_msix`
-- enables it and returns a table whose offset and bar index make up the position register of the
-- capability just if that register is less than 2 ^ 16: the mask drops the bits of an offset from
-- 64 KiB on.
pub setup_msix-position :
    (dev : PciDev) (c c₁ : dev.Config) (cap ctrl table_pos : ℕ)
    → get_pci_cap dev c 0x11 ≡ ok cap
    → cap ≢ 0
    → dev.cfg_read c (cap + 0x2) 16 ≡ some ctrl
    → dev.cfg_write c (cap + 0x2) 16 (enable_msix ctrl) ≡ some c₁
    → dev.cfg_read c₁ (cap + 0x4) 32 ≡ some table_pos
    → (msix_table (enable_msix ctrl) table_pos).table_size ≢ 0
    → (t : MsixTable) × (setup_msix dev c ≡ ok (some t, c₁))
      × ((t.table_offset + t.bir ≡ table_pos) ↔ (table_pos < 2 ^ 16))
unfolding setup_msix
setup_msix-position dev c c₁ cap ctrl table_pos has there read set pos big =
    let found : (cap == 0) ≡ false = ground arith in
    let sized : ((msix_table (enable_msix ctrl) table_pos).table_size == 0) ≡ false =
      ground arith in
    (
      msix_table (enable_msix ctrl) table_pos,
      rw (has, ◌>>=◌, found, read, ◌>>=◌, set, ◌>>=◌, pos, ◌>>=◌, sized) refl,
      msix_table_position (enable_msix ctrl) table_pos,
    )
