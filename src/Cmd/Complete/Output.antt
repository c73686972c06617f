-- ===== src/Cmd/Complete/Output.antt =====
-- server/src/cmd.cc: `get_cmd_output` reads what the hardware answered.
use l4rdma.Prelude.{
  ℕ, ◌+◌, ◌-◌, ◌^◌, ◌≤◌, ◌<◌, ◌≡◌, refl, ◌∙◌, List, [], ◌∷◌, arith, length, ltb, ◌==◌, true, false,
  inl, inr, Bool-cases,
}
use l4rdma.Io.{Memory, iowrite32be, ioread32be}
use l4rdma.Io.Endian.{ioread32be-iowrite32be}
use l4rdma.Cmd.Mail.{imb_max_data, pack_mail}
use l4rdma.Cmd.Mail.Words.{AreWords32}
use l4rdma.Cmd.Mail.RoundTrip.{unpack_mail-pack_mail, length-unpack_mail}
use l4rdma.Cmd.Mail.Frame.{Outside, pack_mail-Outside}
use l4rdma.Cmd.Args.{CmdArgs, cod_output, entry}
use l4rdma.Cmd.Entry.Stages.{IsCmdArgs}
use l4rdma.Cmd.Complete.{get_cmd_output}

-- The hardware's side: two words of the answer are in the entry, the others in the mailbox.
pub write_answer : CmdArgs → Memory → (cqe : ℕ) → List ℕ → Memory
write_answer args m cqe [] = m
write_answer args m cqe (w ∷ []) = iowrite32be m (cqe + cod_output 0) w
write_answer args m cqe (w ∷ (v ∷ ws)) =
    pack_mail (iowrite32be (iowrite32be m (cqe + cod_output 0) w) (cqe + cod_output 1) v)
      args.omb_mem ws

module _ (args : CmdArgs) (set_up : IsCmdArgs args) (m : Memory) (slot : ℕ)
    (inside : slot < args.cq.size) where
  entry-Outside : (k : ℕ) → k < 64 → Outside args.omb_mem (entry args.cq slot + k)
  entry-Outside k small = ground (arith, set_up.omb_apart)

  module _ (w v : ℕ) (ws : List ℕ) (fits : length ws ≤ imb_max_data) (w32 : w < 2 ^ 32)
      (v32 : v < 2 ^ 32) where
    abbrev cqe : ℕ
    cqe = entry args.cq slot

    abbrev in_entry : Memory
    in_entry = iowrite32be (iowrite32be m (cqe + cod_output 0) w) (cqe + cod_output 1) v

    answer-first : ioread32be (pack_mail in_entry args.omb_mem ws) (cqe + cod_output 0) ≡ w
    answer-first =
        pack_mail-Outside args.omb_mem set_up.omb in_entry ws (cqe + cod_output 0) fits
          (entry-Outside (cod_output 0) (omega arith))
        ∙ ground (
          arith,
          ioread32be-iowrite32be (iowrite32be m (cqe + cod_output 0) w) (cqe + cod_output 1) v
              (cqe + cod_output 0),
          ioread32be-iowrite32be m (cqe + cod_output 0) w (cqe + cod_output 0),
        )

    answer-second : ioread32be (pack_mail in_entry args.omb_mem ws) (cqe + cod_output 1) ≡ v
    answer-second =
        pack_mail-Outside args.omb_mem set_up.omb in_entry ws (cqe + cod_output 1) fits
          (entry-Outside (cod_output 1) (omega arith))
        ∙ ground (
          arith,
          ioread32be-iowrite32be (iowrite32be m (cqe + cod_output 0) w) (cqe + cod_output 1) v
              (cqe + cod_output 1),
        )

  -- Every answer of 32-bit words that fits the entry and the output mailbox is read back whole.
  pub get_cmd_output-write_answer :
      (answer : List ℕ)
      → length answer ≤ imb_max_data + 2
      → AreWords32 answer
      → get_cmd_output args (write_answer args m (entry args.cq slot) answer) slot (length answer)
        ≡ answer
  unfolding get_cmd_output write_answer
  get_cmd_output-write_answer [] fits words = refl
  get_cmd_output-write_answer (w ∷ []) fits words = ground (
    arith,
    words.0,
    ioread32be-iowrite32be m (entry args.cq slot + cod_output 0) w
        (entry args.cq slot + cod_output 0),
  )
  get_cmd_output-write_answer (w ∷ (v ∷ [])) fits words =
      rw
        (
          answer-first w v [] (omega arith) words.0 words.1.0,
          answer-second w v [] (omega arith) words.0 words.1.0,
        )
        refl
  get_cmd_output-write_answer (w ∷ (v ∷ (x ∷ ws))) fits words =
      let more : ltb 1 (length (w ∷ (v ∷ (x ∷ ws)))) ≡ true = ground arith in
      let boxed : ltb 2 (length (w ∷ (v ∷ (x ∷ ws)))) ≡ true = ground arith in
      let some_word : (length (w ∷ (v ∷ (x ∷ ws))) == 0) ≡ false = ground arith in
      let left : length (w ∷ (v ∷ (x ∷ ws))) - 2 ≡ length (x ∷ ws) = omega arith in
      rw
        (
          some_word,
          more,
          boxed,
          left,
          answer-first w v (x ∷ ws) (omega arith) words.0 words.1.0,
          answer-second w v (x ∷ ws) (omega arith) words.0 words.1.0,
          unpack_mail-pack_mail args.omb_mem set_up.omb
              (in_entry w v (x ∷ ws) (omega arith) words.0 words.1.0) (x ∷ ws) (omega arith)
              words.1.1,
        )
        refl

-- As many words are stored as are asked for.
pub length-get_cmd_output :
    (args : CmdArgs) (m : Memory) (slot n : ℕ) → length (get_cmd_output args m slot n) ≡ n
unfolding get_cmd_output
length-get_cmd_output args m slot n = elim (Bool-cases (n == 0)) [
  | inl zero_words ↦ rw zero_words (ground arith)
  | inr some_words ↦ rw some_words (elim (Bool-cases (ltb 1 n)) [
    | inr one_word ↦ rw one_word (ground arith)
    | inl two_words ↦ rw two_words (elim (Bool-cases (ltb 2 n)) [
      | inr no_more ↦ rw no_more (ground arith)
      | inl more ↦ rw more (
          let long : 2 < n = ground arith in
          omega (arith, long, length-unpack_mail m args.omb_mem (n - 2)))
    ])
  ])
]
