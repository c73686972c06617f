-- ===== src/Interrupt.antt =====
-- server/src/interrupt.h and interrupt.cc: an interrupt of the adapter, from the IRQ object to its
-- entry in the MSI-X table, and the arguments for the thread that handles it.
pub mod Table
pub mod Binding
use l4rdma.Prelude.{ℕ, ◌+◌, ◌*◌, ◌/◌, ◌%◌, ◌^◌, Option, none, some, bit_and, bit_or}
use l4rdma.Run.{Run, ok, throw, chksys, ◌>>=◌}
use l4rdma.Io.{Memory, iowrite32be}

-- The part of `l4_icu_msi_info_t` that is used.
pub record MsiInfo : Type 0 where
  pub msi_addr : ℕ
  pub msi_data : ℕ

-- Where the entry of an interrupt lies: four words for each.
abbrev pub msix_entry : (msix_table irq_num : ℕ) → ℕ
msix_entry msix_table irq_num = msix_table + 4 * (irq_num * 4 % 2 ^ 32)

pub create_msix_entry : Memory → (irq_num msix_table : ℕ) → MsiInfo → Memory
create_msix_entry m irq_num msix_table info =
    let e = msix_entry msix_table irq_num in
    let m₁ = iowrite32be m e (bit_and (info.msi_addr % 2 ^ 32) 0xfffffffc) in
    let m₂ = iowrite32be m₁ (e + 4) (info.msi_addr / 2 ^ 32) in
    let m₃ = iowrite32be m₂ (e + 8) info.msi_data in iowrite32be m₃ (e + 12) 0

-- The kernel's calls, `none` where one fails; `State` is its state. From `unmask` on the interrupt can
-- arrive, as the table in the memory says by then. `f_msi` is `L4::Icu::F_msi`, and
-- capabilities are numbers.
pub record IrqServices : Type 1 where
  pub State : Type 0
  pub f_msi : ℕ
  pub alloc_irq : State → Option (ℕ × State)
  pub create : State → (irq : ℕ) → Option State
  pub bind_thread : State → (irq thread : ℕ) → Option State
  pub bind : State → (icu irq_num irq : ℕ) → Option State
  pub msi_info : State → (icu msix_vec icu_src : ℕ) → Option MsiInfo
  pub unmask : State → Memory → (icu msix_vec : ℕ) → Option State
  pub detach : State → (irq : ℕ) → State

-- `IRQH_Args`, with the options as the type `O`.
pub record IrqhArgs (O : Type 0) : Type 0 where
  pub irq_num : ℕ
  pub msix_vec_l4 : ℕ
  pub icu : ℕ
  pub icu_src : ℕ
  pub msix_table : ℕ
  pub opt : O

module _ (k : IrqServices) where
  unfoldable pub create_and_bind_irq : k.State → (irq_num icu thread : ℕ) → Run (ℕ × k.State)
  create_and_bind_irq s irq_num icu thread = do
    (irq, s₁) ← chksys (k.alloc_irq s)
    s₂ ← chksys (k.create s₁ irq)
    s₃ ← chksys (k.bind_thread s₂ irq thread)
    s₄ ← chksys (k.bind s₃ icu irq_num irq)
    ok (irq, s₄)

  -- `self` is the thread that calls it.
  unfoldable pub create_msix_irq :
      k.State
      → Memory
      → (self icu_src msix_table irq_num msix_vec_l4 icu : ℕ) → Run (ℕ × k.State × Memory)
  unfolding create_and_bind_irq
  create_msix_irq s m self icu_src msix_table irq_num msix_vec_l4 icu = do
    (irq, s₁) ← create_and_bind_irq s msix_vec_l4 icu self
    info ← chksys (k.msi_info s₁ icu msix_vec_l4 icu_src)
    let m' = create_msix_entry m irq_num msix_table info
    s₂ ← chksys (k.unmask s₁ m' icu msix_vec_l4)
    ok (irq, s₂, m')

-- The arguments that `create_msix_thread` leaves for the thread, in a variable of its own.
unfoldable pub msix_thread_args :
    {O : Type 0} → IrqServices → (icu_src msix_table irq_num icu : ℕ) → O → IrqhArgs O
msix_thread_args k icu_src msix_table irq_num icu opt = record {
  irq_num = irq_num;
  msix_vec_l4 = bit_or irq_num k.f_msi;
  icu = icu;
  icu_src = icu_src;
  msix_table = msix_table;
  opt = opt;
}
