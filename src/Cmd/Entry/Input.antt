-- ===== src/Cmd/Entry/Input.antt =====
-- server/src/cmd.cc: the input of a command, in its entry and in the input mailbox.
use l4rdma.Prelude.{
  ℕ, zero, suc, ◌+◌, ◌%◌, ◌^◌, ◌≤◌, ◌<◌, ◌≡◌, refl, ◌∙◌, List, [], ◌∷◌, arith, ltb, ◌==◌,
  if◌then◌else◌, length, true, lt→ltb,
}
use l4rdma.Io.{Memory, iowrite32be, ioread32be}
use l4rdma.Io.Endian.{ioread32be-iowrite32be}
use l4rdma.Cmd.Mail.{imb_max_data, pack_mail, unpack_mail}
use l4rdma.Cmd.Mail.Words.{AreWords32}
use l4rdma.Cmd.Mail.RoundTrip.{unpack_mail-pack_mail}
use l4rdma.Cmd.Mail.Frame.{pack_mail-Outside, unpack_mail-same, unpack_mail-zero}
use l4rdma.Cmd.Args.{CmdArgs, input_mailbox_msb, input_mailbox_lsb, cid_data}
use l4rdma.Cmd.Entry.{length_in_bytes, write_pointer, write_input}
use l4rdma.Cmd.Entry.Stages.{
  Apart, mailbox_size, IsCmdArgs, length_in_bytes_lem, write_pointer-read, pointer_at,
  write_pointer-pointer_at,
}

-- The hardware's view of the input: two words in the entry, the others in the mailbox.
pub read_payload : CmdArgs → Memory → ℕ → ℕ → List ℕ
read_payload args m cqe zero = []
read_payload args m cqe (suc zero) = ioread32be m (cqe + cid_data 0) ∷ []
read_payload args m cqe (suc (suc n)) =
    ioread32be m (cqe + cid_data 0) ∷ ioread32be m (cqe + cid_data 1) ∷ unpack_mail m args.imb_mem n

module _ (args : CmdArgs) (ok : IsCmdArgs args) (m : Memory) (cqe : ℕ)
    (apart : Apart cqe 64 args.imb_mem.virt mailbox_size) where
  abbrev boxed : ℕ → ℕ → List ℕ → Memory
  boxed w v ws =
      pack_mail (iowrite32be (iowrite32be m (cqe + cid_data 0) w) (cqe + cid_data 1) v) args.imb_mem
        ws

  abbrev pointed : ℕ → ℕ → List ℕ → Memory
  pointed w v ws =
      write_pointer (boxed w v ws) (cqe + input_mailbox_msb) (cqe + input_mailbox_lsb)
        args.imb_mem.phys

  -- A payload of more than two words takes the mailbox.
  write_input-boxed :
      (w v x : ℕ) (ws : List ℕ)
      → length ws + 3 ≤ imb_max_data + 2
      → write_input args m cqe (w ∷ v ∷ x ∷ ws) ≡ pointed w v (x ∷ ws)
  unfolding write_input
  write_input-boxed w v x ws small =
      let bytes = length_in_bytes (length (w ∷ v ∷ x ∷ ws)) in
      let long : 16 < bytes = omega (arith, length_in_bytes_lem (suc (suc (suc (length ws))))) in
      let t8 : ltb 8 bytes ≡ true = lt→ltb 8 bytes (omega arith) in
      let t12 : ltb 12 bytes ≡ true = lt→ltb 12 bytes (omega arith) in
      rw (t8, t12, lt→ltb 16 bytes long) refl

  boxed-data :
      (w v : ℕ) (ws : List ℕ) (a : ℕ)
      → length ws ≤ imb_max_data
      → cqe + 24 ≤ a
      → a < cqe + 32
      → ioread32be (pointed w v ws) a ≡ (
          if a == cqe + cid_data 1
          then v % 2 ^ 32
          else if a == cqe + cid_data 0
          then w % 2 ^ 32
          else ioread32be m a)
  boxed-data w v ws a small lo hi =
      let m₁ = iowrite32be m (cqe + cid_data 0) w in
      let m₂ = iowrite32be m₁ (cqe + cid_data 1) v in
      ground (
        arith,
        write_pointer-read (boxed w v ws) (cqe + input_mailbox_msb) (cqe + input_mailbox_lsb)
            args.imb_mem.phys a,
        pack_mail-Outside args.imb_mem ok.imb m₂ ws a,
        ioread32be-iowrite32be m (cqe + cid_data 0) w a,
        ioread32be-iowrite32be m₁ (cqe + cid_data 1) v a,
      )

  boxed-unpack_mail :
      (w v : ℕ) (ws : List ℕ)
      → length ws ≤ imb_max_data
      → AreWords32 ws
      → unpack_mail (pointed w v ws) args.imb_mem (length ws) ≡ ws
  boxed-unpack_mail w v ws small words =
      unpack_mail-same args.imb_mem ok.imb (pointed w v ws) (boxed w v ws) (length ws) small
        (λ a lo hi. ground (
          arith,
          write_pointer-read (boxed w v ws) (cqe + input_mailbox_msb) (cqe + input_mailbox_lsb)
              args.imb_mem.phys a,
        ))
      ∙ unpack_mail-pack_mail args.imb_mem ok.imb _ ws small words

  pub write_input-payload :
      (payload : List ℕ)
      → length payload ≤ imb_max_data + 2
      → AreWords32 payload
      → read_payload args (write_input args m cqe payload) cqe (length payload) ≡ payload
  unfolding read_payload write_input
  write_input-payload [] small words = refl
  write_input-payload (w ∷ []) small words =
      ground (arith, ioread32be-iowrite32be m (cqe + 24) w (cqe + 24))
  write_input-payload (w ∷ v ∷ []) small words = ground (
    arith,
    unpack_mail-zero (iowrite32be (iowrite32be m (cqe + 24) w) (cqe + 28) v) args.imb_mem,
    ioread32be-iowrite32be m (cqe + 24) w (cqe + 24),
    ioread32be-iowrite32be (iowrite32be m (cqe + 24) w) (cqe + 28) v (cqe + 24),
    ioread32be-iowrite32be (iowrite32be m (cqe + 24) w) (cqe + 28) v (cqe + 28),
  )
  write_input-payload (w ∷ v ∷ x ∷ ws) small words = rw (write_input-boxed w v x ws (omega arith)) (
      ground (
        arith,
        boxed-data w v (x ∷ ws) (cqe + 24),
        boxed-data w v (x ∷ ws) (cqe + 28),
        boxed-unpack_mail w v (x ∷ ws),
      ))

  pub write_input-pointer_at :
      (payload : List ℕ)
      → length payload ≤ imb_max_data + 2
      → 2 < length payload
      → pointer_at
          (write_input args m cqe payload)
          (cqe + input_mailbox_msb)
          (cqe + input_mailbox_lsb)
        ≡ args.imb_mem.phys
  write_input-pointer_at [] small more = absurd (omega arith)
  write_input-pointer_at (w ∷ []) small more = absurd (omega arith)
  write_input-pointer_at (w ∷ v ∷ []) small more = absurd (omega arith)
  write_input-pointer_at (w ∷ v ∷ x ∷ ws) small more =
      rw (write_input-boxed w v x ws (omega arith)) (
        write_pointer-pointer_at (boxed w v (x ∷ ws)) (cqe + input_mailbox_msb)
          (cqe + input_mailbox_lsb) args.imb_mem.phys (omega arith)
          (omega (arith, ok.imb.phys_fits)) ok.imb_aligned)

  -- What the hardware reads of the input lies in two registers and the mailbox.
  pub read_payload-same :
      (m' : Memory) (count : ℕ)
      → count ≤ imb_max_data + 2
      → ioread32be m' (cqe + cid_data 0) ≡ ioread32be m (cqe + cid_data 0)
      → ioread32be m' (cqe + cid_data 1) ≡ ioread32be m (cqe + cid_data 1)
      → ((a : ℕ)
          → args.imb_mem.virt ≤ a
          → a < args.imb_mem.virt + mailbox_size
          → ioread32be m' a ≡ ioread32be m a)
      → read_payload args m' cqe count ≡ read_payload args m cqe count
  unfolding read_payload
  read_payload-same m' zero small d0 d1 same = refl
  read_payload-same m' (suc zero) small d0 d1 same = rw d0 refl
  read_payload-same m' (suc (suc n)) small d0 d1 same =
      rw (d0, d1, unpack_mail-same args.imb_mem ok.imb m' m n (omega arith) same) refl
