-- ===== src/Cmd/Mail/RoundTrip.antt =====
-- server/src/cmd.cc: `unpack_mail` reads what `pack_mail` wrote, from the right blocks.
use l4rdma.Prelude.{
  ℕ, zero, suc, ◌+◌, ◌-◌, ◌*◌, ◌/◌, ◌≤◌, ◌<◌, ◌≡◌, refl, ap, ◌∙◌, List, ◌∷◌, arith, length,
}
use l4rdma.Io.{Memory, ioread32be}
use l4rdma.Dma.{DmaMem}
use l4rdma.Cmd.Mail.{
  mbb_max_count, imb_max_data, tie_mail_together, pack_mail, unpack_mail, unpack_loop, Cursor,
  first_block, advance, count_word,
}
use l4rdma.Cmd.Mail.Words.{
  IsMailbox, AreWords32, word_register, place, words_at, words_at-place, pack_loop-first,
  unpack_loop-first,
}
use l4rdma.Cmd.Mail.Chain.{
  IsLinked, block_at, successor, tie_mail_together-IsLinked, tie_mail_together-word,
}

module _ (mailbox : DmaMem) (fits : IsMailbox mailbox) where
  -- `pack_mail` places the words and then ties as many blocks as they take.
  pub pack_mail-place :
      (m : Memory) (ws : List ℕ)
      → length ws ≤ imb_max_data
      → pack_mail m mailbox ws
        ≡ tie_mail_together (place m mailbox.virt 0 ws) mailbox ((length ws - 1) / 128)
  unfolding pack_mail
  pack_mail-place m ws small = rw (pack_loop-first mailbox.virt fits.virt_fits m ws small)

  words_at-tie :
      (m : Memory) (n i rounds : ℕ)
      → n < mbb_max_count
      → words_at (tie_mail_together m mailbox n) mailbox.virt i rounds
        ≡ words_at m mailbox.virt i rounds
  unfolding words_at
  words_at-tie m n i zero small = refl
  words_at-tie m n i (suc rounds) small = rw (tie_mail_together-word mailbox fits m n i small) (
      ap (λ ws. ioread32be m (word_register mailbox.virt i) ∷ ws)
        (words_at-tie m n (i + 1) rounds small))

  -- A payload of 32-bit words that fits the mailbox is read back word for word, across all the
  -- blocks that it takes.
  pub unpack_mail-pack_mail :
      (m : Memory) (ws : List ℕ)
      → length ws ≤ imb_max_data
      → AreWords32 ws
      → unpack_mail (pack_mail m mailbox ws) mailbox (length ws) ≡ ws
  unfolding unpack_mail
  unpack_mail-pack_mail m ws small words = rw (pack_mail-place m ws small) (
      unpack_loop-first mailbox.virt fits.virt_fits _ (length ws) small
      ∙ words_at-tie (place m mailbox.virt 0 ws) ((length ws - 1) / 128) 0 (length ws) (omega arith)
      ∙ words_at-place m mailbox.virt 0 ws words)

  -- A packed payload of at least one word occupies the blocks 0 to n with 128 * n < length and
  -- length ≤ 128 * (n + 1), each linked to the next one and the last to none.
  pub pack_mail-IsLinked :
      (m : Memory) (ws : List ℕ) (n j : ℕ)
      → length ws ≤ imb_max_data
      → 128 * n < length ws
      → length ws ≤ 128 * (n + 1)
      → j ≤ n
      → IsLinked (pack_mail m mailbox ws) (block_at mailbox j) (successor mailbox n j) j
  pack_mail-IsLinked m ws n j small more enough within =
      let blocks : (length ws - 1) / 128 ≡ n = omega arith in
      rw (pack_mail-place m ws small, blocks)
        (tie_mail_together-IsLinked mailbox fits (place m mailbox.virt 0 ws) n j (omega arith)
          within)

length-unpack_loop :
    (m : Memory) (virt : ℕ) (c : Cursor) (rounds : ℕ)
    → length (unpack_loop m virt c rounds) ≡ rounds
unfolding unpack_loop
length-unpack_loop m virt c zero = refl
length-unpack_loop m virt c (suc rounds) =
    ap suc (length-unpack_loop m virt (count_word (advance virt c)) rounds)

pub length-unpack_mail :
    (m : Memory) (mailbox : DmaMem) (count : ℕ) → length (unpack_mail m mailbox count) ≡ count
unfolding unpack_mail
length-unpack_mail m mailbox count =
    length-unpack_loop m mailbox.virt (first_block mailbox.virt) count
