-- ===== src/Io.antt =====
-- server/src/device.h: registers, and the accessors that swap the bytes of a word.
pub mod Endian
use l4rdma.Prelude.{
  ℕ, zero, suc, ◌+◌, ◌*◌, ◌/◌, ◌%◌, ◌^◌, List, [], ◌∷◌, reverse, ◌==◌, if◌then◌else◌,
}

-- The bytes of an unsigned integer of `n` bytes, in memory order on a little-endian machine.
to_bytes : ℕ → ℕ → List ℕ
to_bytes zero u = []
to_bytes (suc n) u = u % 256 ∷ to_bytes n (u / 256)

of_bytes : List ℕ → ℕ
of_bytes [] = 0
of_bytes (b ∷ bs) = b + 256 * of_bytes bs

-- `swap_endian<T>`, `sizeof(T)` being `n`: `dest.u8[k] = source.u8[n - k - 1]` for every `k`.
pub swap_endian : ℕ → ℕ → ℕ
swap_endian n u = of_bytes (reverse (to_bytes n u))

-- The 32-bit registers of device and DMA memory: the word at each byte address.
abbrev pub Memory : Type 0
Memory = ℕ → ℕ

abbrev pub write : Memory → ℕ → ℕ → Memory
write m a v b = if b == a then v else m b

-- The value is an `l4_uint32_t`, so a caller's wider value is cut to 32 bits.
pub iowrite32be : Memory → ℕ → ℕ → Memory
iowrite32be m addr value = write m addr (swap_endian 4 (value % 2 ^ 32))

pub ioread32be : Memory → ℕ → ℕ
ioread32be m addr = swap_endian 4 (m addr)

pub iowrite32 : Memory → ℕ → ℕ → Memory
iowrite32 m addr value = write m addr (value % 2 ^ 32)

pub ioread32 : Memory → ℕ → ℕ
ioread32 m addr = m addr
