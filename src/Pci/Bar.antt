-- ===== src/Pci/Bar.antt =====
-- server/src/device.cc: the address and the size of a memory bar, from what its registers read.
use l4rdma.Prelude.{
  ℕ, ◌+◌, ◌-◌, ◌*◌, ◌/◌, ◌%◌, ◌^◌, ◌<◌, ◌≡◌, refl, some, false, bit_and, arith, ◌==◌,
}
use l4rdma.Bits.{bit_and-high28, bit_and-bit2}
use l4rdma.Run.{ok, ◌>>=◌}
use l4rdma.Pci.{PciDev, bar_addr, bar_size, probe, probe_bar}

-- What a memory bar of 64 bits reads: its address with the flags, and the bits that can be written.
-- Bit 2 of the flags says that the bar has 64 bits.
abbrev pub Flags64 : ℕ → Type 0
Flags64 flags = (flags < 16) × (flags / 4 % 2 ≡ 1)

bar_addr-64 :
    (k flags : ℕ)
    → 16 * k < 2 ^ 64
    → Flags64 flags
    → bar_addr (16 * k % 2 ^ 32 + flags) (16 * k / 2 ^ 32) ≡ 16 * k
unfolding bar_addr
bar_addr-64 k flags fits f =
    let x = 16 * k % 2 ^ 32 + flags in
    let wide : (bit_and x 0x4 == 0) ≡ false = ground (arith, bit_and-bit2 x) in
    let low : bit_and x 0xfffffff0 ≡ 16 * k % 2 ^ 32 = omega (arith, bit_and-high28 x) in
    rw (wide, low) (omega arith)

bar_size-64 :
    (lsb_addr k flags : ℕ)
    → (bit_and lsb_addr 0x4 == 0) ≡ false
    → 0 < k × 16 * k < 2 ^ 64
    → flags < 16
    → bar_size lsb_addr ((2 ^ 64 - 16 * k) % 2 ^ 32 + flags) ((2 ^ 64 - 16 * k) / 2 ^ 32) ≡ 16 * k
unfolding bar_size
bar_size-64 lsb_addr k flags wide fits f =
    let x = (2 ^ 64 - 16 * k) % 2 ^ 32 + flags in
    let low : bit_and x 0xfffffff0 ≡ (2 ^ 64 - 16 * k) % 2 ^ 32 = omega (arith, bit_and-high28 x) in
    rw (wide, low) (omega arith)

-- A register as `probe` meets it: it reads `value`, it reads `answer` when all bits were written,
-- and it can be restored, which leaves the configuration `c'`.
abbrev pub Probed : (dev : PciDev) → (c c' : dev.Config) → (reg value answer : ℕ) → Type 0
Probed dev c c' reg value answer =
    (c₁ : dev.Config) × (dev.cfg_read c reg 32 ≡ some value)
    × (dev.cfg_write c reg 32 0xffffffff ≡ some c₁)
    × (dev.cfg_read c₁ reg 32 ≡ some answer)
    × (dev.cfg_write c₁ reg 32 value ≡ some c')

module _ (dev : PciDev) where
  probe_lem :
      (c c' : dev.Config) (reg value answer : ℕ)
      → Probed dev c c' reg value answer
      → probe dev c reg ≡ ok (value, answer, c')
  unfolding probe
  probe_lem c c' reg value answer (c₁, first, set, second, restored) =
      rw (first, ◌>>=◌, set, ◌>>=◌, second, ◌>>=◌, restored) refl

  -- For a memory bar of 64 bits with its address and its size multiples of 16, whose registers read
  -- as the bus defines it, `probe_bar` gives that address and that size, and writes the registers
  -- back.
  pub probe_bar-64 :
      (c c₁ c₂ : dev.Config) (idx addr size flags : ℕ)
      → (16 * addr < 2 ^ 64) × (0 < size) × (16 * size < 2 ^ 64)
      → Flags64 flags
      → Probed dev c c₁
          (0x10 + idx * 4)
          (16 * addr % 2 ^ 32 + flags)
          ((2 ^ 64 - 16 * size) % 2 ^ 32 + flags)
      → Probed dev c₁ c₂ (0x14 + idx * 4) (16 * addr / 2 ^ 32) ((2 ^ 64 - 16 * size) / 2 ^ 32)
      → probe_bar dev c idx ≡ ok (16 * addr, 16 * size, c₂)
  unfolding probe_bar
  probe_bar-64 c c₁ c₂ idx addr size flags fits f low high =
      let x = 16 * addr % 2 ^ 32 + flags in
      let wide : (bit_and x 0x4 == 0) ≡ false = ground (arith, bit_and-bit2 x) in
      rw
        (
          probe_lem c c₁ (0x10 + idx * 4) x _ low,
          ◌>>=◌,
          wide,
          probe_lem c₁ c₂ (0x14 + idx * 4) _ _ high,
          ◌>>=◌,
          bar_addr-64 addr flags fits.0 f,
          bar_size-64 x size flags wide (fits.1, fits.2) f.0,
        )
        refl
