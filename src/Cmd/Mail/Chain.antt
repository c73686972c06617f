-- ===== src/Cmd/Mail/Chain.antt =====
-- server/src/cmd.cc: `tie_mail_together` makes a chain of the mailbox blocks, and writes only
-- their control words.
use native.Mathlib.Decide.{dec_lt}
use l4rdma.Prelude.{
  ℕ, zero, suc, ◌+◌, ◌*◌, ◌/◌, ◌%◌, ◌^◌, ◌≤◌, ◌<◌, ◌≡◌, refl, subst, ◌⊎◌, inl, inr, ap, ◌∙◌, arith,
  ◌==◌, if◌then◌else◌, false, true,
}
use l4rdma.Io.{Memory, ioread32be}
use l4rdma.Io.Endian.{ioread32be-iowrite32be}
use l4rdma.Dma.{DmaMem}
use l4rdma.Cmd.Mail.{
  mailbox_align_size, mbb_max_count, next_pointer_msb, next_pointer_lsb, block_number, mbb_ctrl,
  plus_offset, prepare_mbb, tie_loop, tie_mail_together,
}
use l4rdma.Cmd.Mail.Words.{IsMailbox, plus_offset_lem, word_register}

-- What the hardware reads as the pointer to the next block.
abbrev pub next_pointer : Memory → ℕ → ℕ
next_pointer m block =
    ioread32be m (block + next_pointer_msb) * 2 ^ 32 + ioread32be m (block + next_pointer_lsb)

-- The block points to `next` and carries `number`.
pub record IsLinked (m : Memory) (block next number : ℕ) : Type 0 where
  pub points : next_pointer m block ≡ next
  pub numbered : ioread32be m (block + block_number) ≡ number
  pub software : ioread32be m (block + mbb_ctrl) ≡ 0

module _ (m : Memory) (block p n : ℕ) where
  prepare_mbb-read :
      (a : ℕ)
      → ioread32be (prepare_mbb m block p n) a ≡ (
          if a == block + mbb_ctrl
          then 0
          else if a == block + block_number
          then n % 2 ^ 32
          else if a == block + next_pointer_lsb
          then p % 2 ^ 32
          else if a == block + next_pointer_msb
          then p / 2 ^ 32 % 2 ^ 32
          else ioread32be m a)
  unfolding prepare_mbb
  prepare_mbb-read a = simp ioread32be-iowrite32be

  prepare_mbb-IsLinked : p < 2 ^ 64 → n < 2 ^ 32 → IsLinked (prepare_mbb m block p n) block p n
  prepare_mbb-IsLinked hp hn = record {
    points = ground (
      arith,
      prepare_mbb-read (block + next_pointer_msb),
      prepare_mbb-read (block + next_pointer_lsb),
    );
    numbered = ground (arith, prepare_mbb-read (block + block_number));
    software = ground (arith, prepare_mbb-read (block + mbb_ctrl));
  }

  pub prepare_mbb-other :
      (a : ℕ)
      → (a < block + next_pointer_msb) ⊎ (block + mbb_ctrl < a)
      → ioread32be (prepare_mbb m block p n) a ≡ ioread32be m a
  prepare_mbb-other a away = ground (arith, prepare_mbb-read a)

-- A block at these addresses reads the same in both memories.
abbrev pub SameControl : Memory → Memory → ℕ → Type 0
SameControl m m' block =
    (a : ℕ) → block + next_pointer_msb ≤ a → a ≤ block + mbb_ctrl → ioread32be m' a ≡ ioread32be m a

pub IsLinked-same :
    (m m' : Memory) (block next number : ℕ)
    → SameControl m m' block
    → IsLinked m block next number
    → IsLinked m' block next number
IsLinked-same m m' block next number same h = record {
  points = ground (arith, same (block + next_pointer_msb), same (block + next_pointer_lsb));
  numbered = ground (arith, same (block + block_number));
  software = ground (arith, same (block + mbb_ctrl));
}

-- A data word is none of the control words of a block.
word-or-control :
    (virt k i : ℕ)
    → (word_register virt k < virt + mailbox_align_size * i + next_pointer_msb)
      ⊎ (virt + mailbox_align_size * i + mbb_ctrl < word_register virt k)
word-or-control virt k i = elim (dec_lt i (k / 128)) [
  | yes above ↦ inr (omega arith)
  | no below ↦ inl (omega arith)
]

-- Where block `j` starts, for the driver and for the hardware.
abbrev pub block_at : DmaMem → ℕ → ℕ
block_at mailbox j = mailbox.virt + mailbox_align_size * j

abbrev pub phys_at : DmaMem → ℕ → ℕ
phys_at mailbox j = mailbox.phys + mailbox_align_size * j

-- What block `j` of a chain that ends with block `n` points to.
abbrev pub successor : DmaMem → ℕ → ℕ → ℕ
successor mailbox n j = if j == n then 0 else phys_at mailbox (j + 1)

module _ (mailbox : DmaMem) (fits : IsMailbox mailbox) where
  pub prepare-at :
      (m : Memory) (i p : ℕ)
      → i < mbb_max_count
      → prepare_mbb m (plus_offset mailbox.virt i) p i ≡ prepare_mbb m (block_at mailbox i) p i
  prepare-at m i p small =
      ap (λ b. prepare_mbb m b p i) (plus_offset_lem mailbox.virt i small fits.virt_fits)

  next-at :
      (i : ℕ)
      → i + 1 < mbb_max_count
      → (plus_offset mailbox.phys i + mailbox_align_size) % 2 ^ 64 ≡ phys_at mailbox (i + 1)
  next-at i small =
      omega (arith, plus_offset_lem mailbox.phys i (omega arith) fits.phys_fits, fits.phys_fits)

  -- One round of the loop.
  pub tie_loop-round :
      (m : Memory) (i rounds : ℕ)
      → i + 1 < mbb_max_count
      → tie_loop m mailbox i (suc rounds)
        ≡ tie_loop
            (prepare_mbb m (block_at mailbox i) (phys_at mailbox (i + 1)) i)
            mailbox
            (i + 1)
            rounds
  unfolding tie_loop
  tie_loop-round m i rounds small =
      rw (next-at i small, prepare-at m i (phys_at mailbox (i + 1)) (omega arith))

  tie_loop-below :
      (m : Memory) (i rounds a : ℕ)
      → i + rounds < mbb_max_count
      → a < block_at mailbox i + next_pointer_msb
      → ioread32be (tie_loop m mailbox i rounds) a ≡ ioread32be m a
  tie_loop-below m i zero a small below = unfold tie_loop in refl
  tie_loop-below m i (suc rounds) a small below = rw (tie_loop-round m i rounds (omega arith)) (
      tie_loop-below (prepare_mbb m (block_at mailbox i) (phys_at mailbox (i + 1)) i) (i + 1) rounds
        a (omega arith) (omega arith)
      ∙ prepare_mbb-other m (block_at mailbox i) (phys_at mailbox (i + 1)) i a (inl below))

  tie_loop-word :
      (m : Memory) (i rounds k : ℕ)
      → i + rounds < mbb_max_count
      → ioread32be (tie_loop m mailbox i rounds) (word_register mailbox.virt k)
        ≡ ioread32be m (word_register mailbox.virt k)
  tie_loop-word m i zero k small = unfold tie_loop in refl
  tie_loop-word m i (suc rounds) k small = rw (tie_loop-round m i rounds (omega arith)) (
      tie_loop-word (prepare_mbb m (block_at mailbox i) (phys_at mailbox (i + 1)) i) (i + 1) rounds
        k (omega arith)
      ∙ prepare_mbb-other m (block_at mailbox i) (phys_at mailbox (i + 1)) i _
          (word-or-control mailbox.virt k i))

  tie_loop-IsLinked :
      (m : Memory) (i rounds j : ℕ)
      → i + rounds < mbb_max_count
      → i ≤ j
      → j < i + rounds
      → IsLinked (tie_loop m mailbox i rounds) (block_at mailbox j) (phys_at mailbox (j + 1)) j
  tie_loop-IsLinked m i zero j small lo hi = absurd (omega arith)
  tie_loop-IsLinked m i (suc rounds) j small lo hi =
      let m' = prepare_mbb m (block_at mailbox i) (phys_at mailbox (i + 1)) i in
      rw (tie_loop-round m i rounds (omega arith)) (elim (dec_lt i j) [
        | yes later ↦
            tie_loop-IsLinked m' (i + 1) rounds j (omega arith) (omega arith) (omega arith)
        | no this ↦
            let same : i ≡ j = omega arith in
            subst
              (λ k.
                IsLinked (tie_loop m' mailbox (i + 1) rounds) (block_at mailbox k)
                  (phys_at mailbox (k + 1)) k)
              same
              (IsLinked-same m' _ (block_at mailbox i) (phys_at mailbox (i + 1)) i
                (λ a lo hi. tie_loop-below m' (i + 1) rounds a (omega arith) (omega arith))
                (prepare_mbb-IsLinked m (block_at mailbox i) (phys_at mailbox (i + 1)) i
                  (omega (arith, fits.phys_fits)) (omega arith)))
      ])

  -- After tying `n` blocks to a last one, block `j` points to block `j + 1`, the last one to
  -- none, and each carries its own number.
  pub tie_mail_together-IsLinked :
      (m : Memory) (n j : ℕ)
      → n < mbb_max_count
      → j ≤ n
      → IsLinked (tie_mail_together m mailbox n) (block_at mailbox j) (successor mailbox n j) j
  unfolding tie_mail_together
  tie_mail_together-IsLinked m n j small within =
      let tied = tie_loop m mailbox 0 n in
      rw (prepare-at tied n 0 small) (elim (dec_lt j n) [
        | yes inner ↦
            let differ : (j == n) ≡ false = ground arith in
            rw differ (
              IsLinked-same tied _ (block_at mailbox j) (phys_at mailbox (j + 1)) j
                (λ a lo hi. prepare_mbb-other tied (block_at mailbox n) 0 n a (inl (omega arith)))
                (tie_loop-IsLinked m 0 n j (omega arith) (omega arith) (omega arith)))
        | no last ↦
            let same : n ≡ j = omega arith in
            let found : (n == n) ≡ true = ground arith in
            subst
              (λ k.
                IsLinked (prepare_mbb tied (block_at mailbox n) 0 n) (block_at mailbox k)
                  (successor mailbox n k) k)
              same
              (rw found
                (prepare_mbb-IsLinked tied (block_at mailbox n) 0 n (omega arith) (omega arith)))
      ])

  -- The data of every block is left alone.
  pub tie_mail_together-word :
      (m : Memory) (n k : ℕ)
      → n < mbb_max_count
      → ioread32be (tie_mail_together m mailbox n) (word_register mailbox.virt k)
        ≡ ioread32be m (word_register mailbox.virt k)
  unfolding tie_mail_together
  tie_mail_together-word m n k small = rw (prepare-at (tie_loop m mailbox 0 n) n 0 small) (
      prepare_mbb-other _ (block_at mailbox n) 0 n _ (word-or-control mailbox.virt k n)
      ∙ tie_loop-word m 0 n k (omega arith))
