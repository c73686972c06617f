-- ===== src/Cmd/Mail.antt =====
-- server/src/cmd.cc: mailbox blocks (MBB), which carry the input and output of a command beyond
-- the words that its queue entry holds.
pub mod Words
pub mod Frame
pub mod RoundTrip
pub mod Chain
use l4rdma.Prelude.{
  ℕ, zero, suc, ◌+◌, ◌-◌, ◌*◌, ◌/◌, ◌%◌, ◌^◌, List, [], ◌∷◌, ltb, ◌==◌, if◌then◌else◌,
}
use l4rdma.Io.{Memory, iowrite32be, ioread32be}
use l4rdma.Dma.{DmaMem}

abbrev pub mailbox_align_size : ℕ
mailbox_align_size = 0x1000

-- The most blocks in a mailbox, and the most words.
abbrev pub mbb_max_count : ℕ
mbb_max_count = 50

abbrev pub imb_max_data : ℕ
imb_max_data = 128 * mbb_max_count

abbrev pub omb_max_data : ℕ
omb_max_data = 128 * mbb_max_count

-- `struct MBB`, by the byte offsets of its fields: 128 data words, 12 reserved ones, and four
-- control words.
abbrev pub mailbox_data : ℕ → ℕ
mailbox_data i = 4 * i

abbrev pub next_pointer_msb : ℕ
next_pointer_msb = 560

abbrev pub next_pointer_lsb : ℕ
next_pointer_lsb = 564

abbrev pub block_number : ℕ
block_number = 568

abbrev pub mbb_ctrl : ℕ
mbb_ctrl = 572

-- A 64-bit address plus an `int` that was assigned from the unsigned product `4096 * i`.
unfoldable pub plus_offset : ℕ → ℕ → ℕ
plus_offset base i =
    let off = mailbox_align_size * i % 2 ^ 32 in
    if ltb off (2 ^ 31) then (base + off) % 2 ^ 64 else (base + off + (2 ^ 64 - 2 ^ 32)) % 2 ^ 64

pub prepare_mbb : Memory → ℕ → ℕ → ℕ → Memory
prepare_mbb m block phys_addr number =
    let m₁ = iowrite32be m (block + next_pointer_msb) (phys_addr / 2 ^ 32) in
    let m₂ = iowrite32be m₁ (block + next_pointer_lsb) phys_addr in
    let m₃ = iowrite32be m₂ (block + block_number) number in iowrite32be m₃ (block + mbb_ctrl) 0

-- The loop over the blocks but the last: `i` is the block, and the rounds left are counted down.
pub tie_loop : Memory → DmaMem → (i rounds : ℕ) → Memory
tie_loop m mailbox i zero = m
tie_loop m mailbox i (suc rounds) =
    let phys_addr = (plus_offset mailbox.phys i + mailbox_align_size) % 2 ^ 64 in
    tie_loop (prepare_mbb m (plus_offset mailbox.virt i) phys_addr i) mailbox (i + 1) rounds

pub tie_mail_together : Memory → DmaMem → ℕ → Memory
unfolding tie_loop
tie_mail_together m mailbox mailbox_counter =
    prepare_mbb (tie_loop m mailbox 0 mailbox_counter) (plus_offset mailbox.virt mailbox_counter) 0
      mailbox_counter

-- The variables of the loops of `pack_mail` and `unpack_mail`.
pub record Cursor : Type 0 where
  pub block : ℕ
  pub data_counter : ℕ
  pub mailbox_counter : ℕ

abbrev pub first_block : ℕ → Cursor
first_block virt = record { block = virt; data_counter = 0; mailbox_counter = 0 }

-- A new block is started when the data of the current one is full.
pub advance : ℕ → Cursor → Cursor
advance virt c =
    if c.data_counter == 128
    then record {
      block = plus_offset virt (c.mailbox_counter + 1);
      data_counter = 0;
      mailbox_counter = c.mailbox_counter + 1;
    }
    else c

abbrev data_register : Cursor → ℕ
data_register c = c.block + mailbox_data c.data_counter

abbrev count_word : Cursor → Cursor
count_word c = record c { data_counter = c.data_counter + 1 }

pub pack_loop : Memory → ℕ → Cursor → List ℕ → Memory × ℕ
pack_loop m virt c [] = (m, c.mailbox_counter)
pack_loop m virt c (w ∷ ws) =
    let c' = advance virt c in
    pack_loop (iowrite32be m (data_register c') w) virt (count_word c') ws

pub pack_mail : Memory → DmaMem → List ℕ → Memory
unfolding pack_loop
pack_mail m mailbox payload =
    let (m', mailbox_counter) = pack_loop m mailbox.virt (first_block mailbox.virt) payload in
    tie_mail_together m' mailbox mailbox_counter

pub unpack_loop : Memory → ℕ → Cursor → ℕ → List ℕ
unpack_loop m virt c zero = []
unpack_loop m virt c (suc rounds) =
    let c' = advance virt c in
    ioread32be m (data_register c') ∷ unpack_loop m virt (count_word c') rounds

-- The words that the loop stores into `payload`, in order.
pub unpack_mail : Memory → DmaMem → ℕ → List ℕ
unfolding unpack_loop
unpack_mail m mailbox count = unpack_loop m mailbox.virt (first_block mailbox.virt) count
