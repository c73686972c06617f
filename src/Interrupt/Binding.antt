-- ===== src/Interrupt/Binding.antt =====
-- server/src/interrupt.cc: with what in the table `create_msix_irq` unmasks a vector.
use l4rdma.Prelude.{ℕ, ◌+◌, ◌*◌, ◌%◌, ◌^◌, ◌<◌, ◌≡◌, ◌≢◌, ◌⊎◌, some}
use l4rdma.Run.{Run, ok, throw, l4_error}
use l4rdma.Io.{Memory, ioread32be}
use l4rdma.Interrupt.{IrqServices, MsiInfo, msix_entry, create_and_bind_irq}
use l4rdma.Interrupt.Table.{HoldsMessage}

-- The result of a call, or an error of L4Re.
abbrev pub Checked : {X : Type 0} → Run X → Type 0
Checked {X} r = (r ≡ throw l4_error) ⊎ ((x : X) × (r ≡ ok x))

-- The entries of the table but one.
abbrev pub SameEntries : (m m' : Memory) (msix_table irq_num : ℕ) → Type 0
SameEntries m m' msix_table irq_num =
    (j k : ℕ)
    → j ≢ irq_num
    → j < 2 ^ 29
    → k < 4
    → ioread32be m' (msix_entry msix_table j + 4 * k)
      ≡ ioread32be m (msix_entry msix_table j + 4 * k)

module _ (k : IrqServices) where
  -- The kernel's messages have an aligned address of 64 bits and data of 32 bits.
  pub record GivesMessages : Type 0 where
    pub aligned :
        (s : k.State) (icu vec icu_src : ℕ) (info : MsiInfo)
        → k.msi_info s icu vec icu_src ≡ some info
        → (info.msi_addr < 2 ^ 64) × (info.msi_addr % 4 ≡ 0)
    pub word :
        (s : k.State) (icu vec icu_src : ℕ) (info : MsiInfo)
        → k.msi_info s icu vec icu_src ≡ some info
        → info.msi_data < 2 ^ 32

  module _ (s : k.State) (m : Memory) (self icu_src msix_table irq_num vec icu : ℕ) where
    -- The vector is unmasked in a state in which the IRQ object is bound, with the memory that is
    -- left: the interrupt's entry holds the vector's message, and the others are as before.
    abbrev pub Programs : Run (ℕ × k.State × Memory) → Type 0
    Programs r =
        (irq : ℕ) × (bound : k.State) × (info : MsiInfo) × (t : k.State) × (m' : Memory) × (r
          ≡ ok (irq, t, m'))
        × (create_and_bind_irq k s vec icu self ≡ ok (irq, bound))
        × (k.msi_info bound icu vec icu_src ≡ some info)
        × (k.unmask bound m' icu vec ≡ some t)
        × HoldsMessage m' (msix_entry msix_table irq_num) info
        × SameEntries m m' msix_table irq_num
