-- ===== src/Cmd/Complete.antt =====
-- server/src/cmd.cc: ringing the doorbell, waiting for the firmware, checking the status of a
-- command and reading its output.
pub mod Poll
pub mod Doorbell
pub mod Errors
pub mod Output
use l4rdma.Prelude.{
  ℕ, zero, suc, ◌+◌, ◌-◌, ◌*◌, ◌/◌, ◌%◌, ◌^◌, ◌≤◌, List, [], ◌∷◌, bit_and, ltb, leb, ◌==◌,
  if◌then◌else◌,
}
use l4rdma.Run.{Run, ok, throw, out_of_fuel, cmd_timeout, cqe_error, cod_error, ◌>>=◌, ◌>>◌}
use l4rdma.Io.{Memory, iowrite32be, ioread32be}
use l4rdma.Queue.{Queue}
use l4rdma.Cmd.Mail.{unpack_mail}
use l4rdma.Cmd.Args.{CmdArgs, cod_status, cod_output, cqe_ctrl, entry}

abbrev pub cmd_timeout_ms : ℕ
cmd_timeout_ms = 5000

abbrev cqe_ownership_mask : ℕ
cqe_ownership_mask = 0x00000001

abbrev cqe_status_mask : ℕ
cqe_status_mask = 0x000000fe

abbrev cod_status_mask : ℕ
cod_status_mask = 0xff000000

-- The firmware and the clock: the memory that the `n`-th look at an entry finds, from the memory
-- that the driver left, and the milliseconds between the start of the wait and the `n`-th look.
-- The driver sleeps 20 ms between two looks, and `sleep_for` sleeps no shorter.
pub record Firmware : Type 0 where
  pub observe : Memory → ℕ → Memory
  pub elapsed : ℕ → ℕ
  pub sleeps : (n : ℕ) → 20 * n ≤ elapsed n

module _ (fw : Firmware) where
  pub poll_from : ℕ → Memory → ℕ → ℕ → Run Memory
  poll_from zero m cqe n = out_of_fuel
  poll_from (suc fuel) m cqe n =
      let m' = fw.observe m n in
      let later = poll_from fuel m cqe (n + 1) in
      if bit_and (ioread32be m' (cqe + cqe_ctrl)) cqe_ownership_mask == 0
      then ok m'
      else if leb cmd_timeout_ms (fw.elapsed n)
      then throw cmd_timeout
      else later

  -- The rounds that fit into the timeout, and one more.
  abbrev pub poll_fuel : ℕ
  poll_fuel = 251

  pub poll_ownership : Memory → ℕ → Run Memory
  unfolding poll_from
  poll_ownership m cqe = poll_from poll_fuel m cqe 0

-- Every status but OK is an error.
pub check_cqe_status : Memory → ℕ → Run (Unit {0})
check_cqe_status m cqe =
    let status = bit_and (ioread32be m (cqe + cqe_ctrl)) cqe_status_mask / 2 ^ 1 in
    if status == 0 then ok tt else throw (cqe_error status)

pub check_cod_status : Memory → ℕ → Run (Unit {0})
check_cod_status m cqe =
    let status = bit_and (ioread32be m (cqe + cod_status)) cod_status_mask / 2 ^ 24 in
    if status == 0 then ok tt else throw (cod_error status)

-- The memory as the firmware leaves it when the last of the commands is done.
pub validate_cqe : Firmware → Memory → Queue → List ℕ → Run Memory
validate_cqe fw m cq [] = ok m
validate_cqe fw m cq (slot ∷ slots) = do
  m' ← poll_ownership fw m (entry cq slot)
  check_cqe_status m' (entry cq slot)
  check_cod_status m' (entry cq slot)
  validate_cqe fw m' cq slots

pub doorbell_sum : ℕ → List ℕ → ℕ
doorbell_sum dbr [] = dbr
doorbell_sum dbr (slot ∷ slots) = doorbell_sum ((dbr + 2 ^ slot) % 2 ^ 32) slots

pub ring_doorbell : Memory → ℕ → List ℕ → Memory
unfolding doorbell_sum
ring_doorbell m dbv slots = iowrite32be m dbv (doorbell_sum 0 slots)

-- The words that are stored into `output`, in order.
pub get_cmd_output : CmdArgs → Memory → ℕ → ℕ → List ℕ
get_cmd_output args m slot output_length =
    let cqe = entry args.cq slot in
    let first = ioread32be m (cqe + cod_output 0) in
    let second = ioread32be m (cqe + cod_output 1) in
    if output_length == 0
    then []
    else if ltb 1 output_length
    then first
      ∷ second
      ∷ (if ltb 2 output_length then unpack_mail m args.omb_mem (output_length - 2) else [])
    else first ∷ []
