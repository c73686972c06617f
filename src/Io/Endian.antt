-- ===== src/Io/Endian.antt =====
-- server/src/device.h: what a register reads after a write through the swapping accessors.
use mathlib.Core.List.{reverse-cons, reverse-reverse}
use native.Mathlib.Nat.{pow-suc}
use l4rdma.Prelude.{
  ℕ, zero, suc, ◌+◌, ◌*◌, ◌/◌, ◌%◌, ◌^◌, ◌<◌, ◌≡◌, refl, ap, subst, ◌∙◌, List, [], ◌∷◌, ◌++◌,
  reverse, All, arith, ◌==◌, if◌then◌else◌, length, length-append, Bool-cases, inl, inr,
}
use l4rdma.Io.{to_bytes, of_bytes, swap_endian, Memory, iowrite32be, ioread32be}

length-to_bytes : (n u : ℕ) → length (to_bytes n u) ≡ n
unfolding to_bytes
length-to_bytes zero u = refl
length-to_bytes (suc n) u = omega (arith, length-to_bytes n (u / 256))

length-reverse : (bs : List ℕ) → length (reverse bs) ≡ length bs
length-reverse [] = refl
length-reverse (b ∷ bs) =
    omega
      (arith, ap length (reverse-cons b bs), length-append (reverse bs) (b ∷ []), length-reverse bs)

abbrev AreBytes : List ℕ → Type 0
AreBytes = All (λ b. b < 256)

to_bytes-AreBytes : (n u : ℕ) → AreBytes (to_bytes n u)
unfolding to_bytes
to_bytes-AreBytes zero u = tt
to_bytes-AreBytes (suc n) u = (omega arith, to_bytes-AreBytes n (u / 256))

append-AreBytes : (bs cs : List ℕ) → AreBytes bs → AreBytes cs → AreBytes (bs ++ cs)
append-AreBytes [] cs h k = k
append-AreBytes (b ∷ bs) cs h k = (h.0, append-AreBytes bs cs h.1 k)

reverse-AreBytes : (bs : List ℕ) → AreBytes bs → AreBytes (reverse bs)
reverse-AreBytes [] h = tt
reverse-AreBytes (b ∷ bs) h =
    rw (reverse-cons b bs)
      (append-AreBytes (reverse bs) (b ∷ []) (reverse-AreBytes bs h.1) (h.0, tt))

of_bytes-to_bytes : (n u : ℕ) → u < 256 ^ n → of_bytes (to_bytes n u) ≡ u
unfolding to_bytes of_bytes
of_bytes-to_bytes zero u h = omega arith
of_bytes-to_bytes (suc n) u h =
    omega (arith, of_bytes-to_bytes n (u / 256) (omega (arith, pow-suc 256 n)))

to_bytes-of_bytes : (bs : List ℕ) → AreBytes bs → to_bytes (length bs) (of_bytes bs) ≡ bs
unfolding to_bytes of_bytes
to_bytes-of_bytes [] h = refl
to_bytes-of_bytes (b ∷ bs) h =
    let low : (b + 256 * of_bytes bs) % 256 ≡ b = omega (arith, h.0) in
    let high : (b + 256 * of_bytes bs) / 256 ≡ of_bytes bs = omega (arith, h.0) in
    rw (low, high, to_bytes-of_bytes bs h.1)

-- Swapping the bytes of an unsigned integer of `n` bytes twice gives it back, for every size `n`.
pub swap_endian-swap_endian : (n u : ℕ) → u < 256 ^ n → swap_endian n (swap_endian n u) ≡ u
unfolding swap_endian
swap_endian-swap_endian n u h =
    let bs = reverse (to_bytes n u) in
    let bytes : AreBytes bs = reverse-AreBytes _ (to_bytes-AreBytes n u) in
    let size : length bs ≡ n = length-reverse (to_bytes n u) ∙ length-to_bytes n u in
    let again : to_bytes n (of_bytes bs) ≡ bs =
      subst (λ k. to_bytes k (of_bytes bs) ≡ bs) size (to_bytes-of_bytes bs bytes) in
    rw (again, reverse-reverse) (of_bytes-to_bytes n u h)

-- A register reads back the low 32 bits of what was written to it, and every other register is
-- as it was.
pub ioread32be-iowrite32be :
    (m : Memory) (a v b : ℕ)
    → ioread32be (iowrite32be m a v) b ≡ (if b == a then v % 2 ^ 32 else ioread32be m b)
unfolding ioread32be iowrite32be
ioread32be-iowrite32be m a v b = elim (Bool-cases (b == a)) [
  | inl here ↦ rw here (swap_endian-swap_endian 4 (v % 2 ^ 32) (omega arith))
  | inr away ↦ rw away refl
]
