-- ===== src/Mem/Rounding.antt =====
-- server/src/mem.cc: the size of a DMA allocation is rounded up to whole superpages.
use native.Mathlib.Nat.{div-add-mod, mod-lt, mod-eq_of_lt, pow-suc}
use l4rdma.Prelude.{
  ℕ, zero, suc, ◌+◌, ◌*◌, ◌/◌, ◌%◌, ◌^◌, ◌≤◌, ◌<◌, ◌≡◌, refl, arith, ◌==◌, Bool-cases, inl, inr,
}
use l4rdma.Mem.{round_to_superpage}

two-pow_pos : (k : ℕ) → 0 < 2 ^ k
two-pow_pos zero = omega arith
two-pow_pos (suc k) = omega (arith, two-pow_pos k, pow-suc 2 k)

-- Where the sum of the size and a superpage is within 64 bits, the rounded size is a number of
-- whole superpages, holds what was asked for, and is less than one superpage more.
pub round_to_superpage_bounds :
    (shift size : ℕ)
    → size + 2 ^ shift < 2 ^ 64
    → (k : ℕ) × (round_to_superpage shift size ≡ k * 2 ^ shift)
      × (size ≤ round_to_superpage shift size)
      × (round_to_superpage shift size < size + 2 ^ shift)
unfolding round_to_superpage
round_to_superpage_bounds shift size small =
    let parts = div-add-mod size (2 ^ shift) in
    let rest = mod-lt size (two-pow_pos shift) in
    elim (Bool-cases (size % 2 ^ shift == 0)) [
      | inl whole ↦
          let none_left : size % 2 ^ shift ≡ 0 = ground arith in
          rw whole (size / 2 ^ shift, omega arith, omega arith, omega (arith, two-pow_pos shift))
      | inr part ↦
          let some_left : 0 < size % 2 ^ shift = ground arith in
          let fits : (size / 2 ^ shift + 1) * 2 ^ shift < 2 ^ 64 = omega arith in
          rw (part, mod-eq_of_lt fits) (size / 2 ^ shift + 1, refl, omega arith, omega arith)
    ]
