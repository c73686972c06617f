-- ===== src/Cmd/Mail/Words.antt =====
-- server/src/cmd.cc: where `pack_mail` puts each word, and that `unpack_mail` finds it there.
use native.Mathlib.Nat.{add-zero}
use l4rdma.Prelude.{
  ℕ, zero, suc, ◌+◌, ◌-◌, ◌*◌, ◌/◌, ◌%◌, ◌^◌, ◌≤◌, ◌<◌, ◌≡◌, refl, ap, ◌∙◌, List, [], ◌∷◌, All,
  arith, length,
}
use l4rdma.Io.{Memory, iowrite32be, ioread32be}
use l4rdma.Io.Endian.{ioread32be-iowrite32be}
use l4rdma.Dma.{DmaMem}
use l4rdma.Cmd.Mail.{
  mailbox_align_size, mbb_max_count, imb_max_data, plus_offset, Cursor, first_block, advance,
  count_word, pack_loop, unpack_loop,
}

-- The mailbox lies below the end of the address space.
pub record IsMailbox (mailbox : DmaMem) : Type 0 where
  pub virt_fits : mailbox.virt + mailbox_align_size * mbb_max_count ≤ 2 ^ 64
  pub phys_fits : mailbox.phys + mailbox_align_size * mbb_max_count ≤ 2 ^ 64

pub plus_offset_lem :
    (base i : ℕ)
    → i < mbb_max_count
    → base + mailbox_align_size * mbb_max_count ≤ 2 ^ 64
    → plus_offset base i ≡ base + mailbox_align_size * i
unfolding plus_offset
plus_offset_lem base i small fits = ground arith

-- The register of word `i`.
abbrev pub word_register : ℕ → ℕ → ℕ
word_register virt i = virt + mailbox_align_size * (i / 128) + 4 * (i % 128)

-- The cursor as `advance` leaves it before word `i`.
abbrev cursor_at : ℕ → ℕ → Cursor
cursor_at virt i = record {
  block = virt + mailbox_align_size * (i / 128);
  data_counter = i % 128;
  mailbox_counter = i / 128;
}

-- The words from the `i`-th on, each written to its register.
unfoldable pub place : Memory → ℕ → ℕ → List ℕ → Memory
place m virt i [] = m
place m virt i (w ∷ ws) = place (iowrite32be m (word_register virt i) w) virt (i + 1) ws

unfoldable pub words_at : Memory → ℕ → (i rounds : ℕ) → List ℕ
words_at m virt i zero = []
words_at m virt i (suc rounds) =
    ioread32be m (word_register virt i) ∷ words_at m virt (i + 1) rounds

module _ (virt : ℕ) (fits : virt + mailbox_align_size * mbb_max_count ≤ 2 ^ 64) where
  advance-first : advance virt (first_block virt) ≡ cursor_at virt 0
  unfolding advance
  advance-first = ground arith

  advance-count :
      (i : ℕ)
      → i + 1 < imb_max_data
      → advance virt (count_word (cursor_at virt i)) ≡ cursor_at virt (i + 1)
  unfolding advance
  advance-count i small = ground (arith, plus_offset_lem virt (i / 128 + 1))

  pack_loop-place :
      (m : Memory) (i : ℕ) (ws : List ℕ)
      → i + length ws < imb_max_data
      → pack_loop m virt (count_word (cursor_at virt i)) ws
        ≡ (place m virt (i + 1) ws, (i + length ws) / 128)
  unfolding pack_loop place
  pack_loop-place m i [] small = rw add-zero
  pack_loop-place m i (w ∷ ws) small = rw (advance-count i (omega arith)) (
      pack_loop-place (iowrite32be m (word_register virt (i + 1)) w) (i + 1) ws (omega arith)
      ∙ ap
          (λ n. (place (iowrite32be m (word_register virt (i + 1)) w) virt (i + 1 + 1) ws, n / 128))
          (omega arith))

  unpack_loop-words_at :
      (m : Memory) (i rounds : ℕ)
      → i + rounds < imb_max_data
      → unpack_loop m virt (count_word (cursor_at virt i)) rounds ≡ words_at m virt (i + 1) rounds
  unfolding unpack_loop words_at
  unpack_loop-words_at m i zero small = refl
  unpack_loop-words_at m i (suc rounds) small = rw (advance-count i (omega arith)) (
      ap (λ ws. ioread32be m (word_register virt (i + 1)) ∷ ws)
        (unpack_loop-words_at m (i + 1) rounds (omega arith)))

  pub pack_loop-first :
      (m : Memory) (ws : List ℕ)
      → length ws ≤ imb_max_data
      → pack_loop m virt (first_block virt) ws ≡ (place m virt 0 ws, (length ws - 1) / 128)
  unfolding pack_loop place
  pack_loop-first m [] small = refl
  pack_loop-first m (w ∷ ws) small = rw advance-first (
      pack_loop-place (iowrite32be m (word_register virt 0) w) 0 ws (omega arith)
      ∙ ap (λ n. (place (iowrite32be m (word_register virt 0) w) virt 1 ws, n / 128)) (omega arith))

  pub unpack_loop-first :
      (m : Memory) (count : ℕ)
      → count ≤ imb_max_data
      → unpack_loop m virt (first_block virt) count ≡ words_at m virt 0 count
  unfolding unpack_loop words_at
  unpack_loop-first m zero small = refl
  unpack_loop-first m (suc count) small = rw advance-first (
      ap (λ ws. ioread32be m (word_register virt 0) ∷ ws)
        (unpack_loop-words_at m 0 count (omega arith)))

-- Words are written upwards: what lies below is left alone.
place-below :
    (m : Memory) (virt i a : ℕ) (ws : List ℕ)
    → a < word_register virt i
    → ioread32be (place m virt i ws) a ≡ ioread32be m a
unfolding place
place-below m virt i a [] below = refl
place-below m virt i a (w ∷ ws) below = ground (
  arith,
  place-below (iowrite32be m (word_register virt i) w) virt (i + 1) a ws,
  ioread32be-iowrite32be m (word_register virt i) w a,
)

abbrev pub AreWords32 : List ℕ → Type 0
AreWords32 = All (λ w. w < 2 ^ 32)

pub words_at-place :
    (m : Memory) (virt i : ℕ) (ws : List ℕ)
    → AreWords32 ws
    → words_at (place m virt i ws) virt i (length ws) ≡ ws
unfolding place words_at
words_at-place m virt i [] h = refl
words_at-place m virt i (w ∷ ws) h =
    let m' = iowrite32be m (word_register virt i) w in
    let kept : ioread32be (place m' virt (i + 1) ws) (word_register virt i) ≡ w =
      place-below m' virt (i + 1) (word_register virt i) ws (omega arith)
      ∙ ioread32be-iowrite32be m (word_register virt i) w (word_register virt i)
      ∙ ground arith in
    rw kept (ap (λ vs. w ∷ vs) (words_at-place m' virt (i + 1) ws h.1))
