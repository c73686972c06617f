-- ===== src/Cmd/Mail/Frame.antt =====
-- server/src/cmd.cc: what the mailbox code leaves alone, and what `unpack_mail` depends on.
use l4rdma.Prelude.{
  ℕ, zero, suc, ◌+◌, ◌-◌, ◌*◌, ◌/◌, ◌≤◌, ◌<◌, ◌≡◌, refl, ◌⊎◌, inl, inr, ap, ◌∙◌, sym, List, [], ◌∷◌,
  arith, length,
}
use l4rdma.Io.{Memory, iowrite32be, ioread32be}
use l4rdma.Io.Endian.{ioread32be-iowrite32be}
use l4rdma.Dma.{DmaMem}
use l4rdma.Cmd.Mail.{
  mailbox_align_size, mbb_max_count, imb_max_data, tie_loop, tie_mail_together, pack_mail,
  unpack_mail, prepare_mbb,
}
use l4rdma.Cmd.Mail.Words.{IsMailbox, word_register, place, words_at, unpack_loop-first}
use l4rdma.Cmd.Mail.Chain.{block_at, phys_at, prepare_mbb-other, prepare-at, tie_loop-round}
use l4rdma.Cmd.Mail.RoundTrip.{pack_mail-place}

-- The address is no part of the mailbox.
abbrev pub Outside : DmaMem → ℕ → Type 0
Outside mailbox a = (a < mailbox.virt) ⊎ (mailbox.virt + mailbox_align_size * mbb_max_count ≤ a)

module _ (mailbox : DmaMem) (fits : IsMailbox mailbox) where
  prepare-Outside :
      (m : Memory) (i p a : ℕ)
      → i < mbb_max_count
      → Outside mailbox a
      → ioread32be (prepare_mbb m (block_at mailbox i) p i) a ≡ ioread32be m a
  prepare-Outside m i p a small (inl low) =
      prepare_mbb-other m (block_at mailbox i) p i a (inl (omega arith))
  prepare-Outside m i p a small (inr high) =
      prepare_mbb-other m (block_at mailbox i) p i a (inr (omega arith))

  tie_loop-Outside :
      (m : Memory) (i rounds a : ℕ)
      → i + rounds < mbb_max_count
      → Outside mailbox a
      → ioread32be (tie_loop m mailbox i rounds) a ≡ ioread32be m a
  tie_loop-Outside m i zero a small out = unfold tie_loop in refl
  tie_loop-Outside m i (suc rounds) a small out =
      rw (tie_loop-round mailbox fits m i rounds (omega arith)) (
        tie_loop-Outside (prepare_mbb m (block_at mailbox i) (phys_at mailbox (i + 1)) i) (i + 1)
          rounds a (omega arith) out
        ∙ prepare-Outside m i (phys_at mailbox (i + 1)) a (omega arith) out)

  pub tie_mail_together-Outside :
      (m : Memory) (n a : ℕ)
      → n < mbb_max_count
      → Outside mailbox a
      → ioread32be (tie_mail_together m mailbox n) a ≡ ioread32be m a
  unfolding tie_mail_together
  tie_mail_together-Outside m n a small out =
      rw (prepare-at mailbox fits (tie_loop m mailbox 0 n) n 0 small) (
        prepare-Outside (tie_loop m mailbox 0 n) n 0 a small out
        ∙ tie_loop-Outside m 0 n a (omega arith) out)

  place-Outside :
      (m : Memory) (i a : ℕ) (ws : List ℕ)
      → i + length ws ≤ imb_max_data
      → Outside mailbox a
      → ioread32be (place m mailbox.virt i ws) a ≡ ioread32be m a
  unfolding place
  place-Outside m i a [] small out = refl
  place-Outside m i a (w ∷ ws) small out =
      place-Outside (iowrite32be m (word_register mailbox.virt i) w) (i + 1) a ws (omega arith) out
      ∙ ground (arith, ioread32be-iowrite32be m (word_register mailbox.virt i) w a)

  pub pack_mail-Outside :
      (m : Memory) (ws : List ℕ) (a : ℕ)
      → length ws ≤ imb_max_data
      → Outside mailbox a
      → ioread32be (pack_mail m mailbox ws) a ≡ ioread32be m a
  pack_mail-Outside m ws a small out = rw (pack_mail-place mailbox fits m ws small) (
      tie_mail_together-Outside (place m mailbox.virt 0 ws) ((length ws - 1) / 128) a (omega arith)
        out
      ∙ place-Outside m 0 a ws (omega arith) out)

  words_at-same :
      (m m' : Memory) (i rounds : ℕ)
      → i + rounds ≤ imb_max_data
      → ((a : ℕ)
          → mailbox.virt ≤ a
          → a < mailbox.virt + mailbox_align_size * mbb_max_count
          → ioread32be m a ≡ ioread32be m' a)
      → words_at m mailbox.virt i rounds ≡ words_at m' mailbox.virt i rounds
  unfolding words_at
  words_at-same m m' i zero small same = refl
  words_at-same m m' i (suc rounds) small same =
      rw (same (word_register mailbox.virt i) (omega arith) (omega arith)) (
        ap (λ ws. ioread32be m' (word_register mailbox.virt i) ∷ ws)
          (words_at-same m m' (i + 1) rounds (omega arith) same))

  -- `unpack_mail` reads nothing but the mailbox.
  pub unpack_mail-same :
      (m m' : Memory) (count : ℕ)
      → count ≤ imb_max_data
      → ((a : ℕ)
          → mailbox.virt ≤ a
          → a < mailbox.virt + mailbox_align_size * mbb_max_count
          → ioread32be m a ≡ ioread32be m' a)
      → unpack_mail m mailbox count ≡ unpack_mail m' mailbox count
  unfolding unpack_mail
  unpack_mail-same m m' count small same =
      unpack_loop-first mailbox.virt fits.virt_fits m count small
      ∙ words_at-same m m' 0 count (omega arith) same
      ∙ sym (unpack_loop-first mailbox.virt fits.virt_fits m' count small)

pub unpack_mail-zero : (m : Memory) (mailbox : DmaMem) → unpack_mail m mailbox 0 ≡ []
unfolding unpack_mail
unpack_mail-zero m mailbox = refl
