-- ===== src/Driver/Issi.antt =====
-- server/src/driver.cc: choosing the version of the firmware interface (ISSI).
pub mod Support
use l4rdma.Prelude.{
  ℕ, zero, suc, ◌+◌, ◌-◌, ◌*◌, ◌/◌, ◌%◌, ◌^◌, List, [], ◌∷◌, ◌==◌, if◌then◌else◌, get_or,
}
use l4rdma.Run.{Run, Error, ok, throw, issi_unsupported, ◌>>=◌}
use l4rdma.Cmd.Opcode.{query_issi, set_issi}
use l4rdma.Cmd.Complete.{Firmware}
use l4rdma.Driver.{Hca, execute, output}

abbrev pub query_issi_output_length : ℕ
query_issi_output_length = 26

abbrev pub set_issi_output_length : ℕ
set_issi_output_length = 0

-- `ffs`: the place of the lowest set bit, counted from 1, and 0 for no bit; `fuel` bits are read.
unfoldable pub ffs : ℕ → ℕ → ℕ
ffs zero x = 0
ffs (suc fuel) x =
    let above = ffs fuel (x / 2) in if x % 2 == 1 then 1 else if above == 0 then 0 else above + 1

-- The loop over the words, from word `i` downwards: `count * 32 + pos` as it leaves them.
unfoldable pub scan : List ℕ → (i rounds count : ℕ) → ℕ
unfolding ffs
scan issi_out i zero count = count * 32
scan issi_out i (suc rounds) count =
    let pos = ffs 32 (get_or issi_out i 0) in
    let later = scan issi_out (i - 1) rounds (count + 1) in
    if pos == 0 then later else count * 32 + pos

-- The words 25 down to 6 of the output.
unfoldable pub get_issi_support : Hca → ℕ → ℕ
unfolding scan
get_issi_support hca slot =
    let issi_out = output hca slot query_issi_output_length in
    let end = query_issi_output_length - 1 in
    let start : ℕ = 6 in scan issi_out end (end + 1 - start) 0 % 2 ^ 32

unfoldable pub configure_issi : Firmware → Hca → Run (ℕ × Hca)
configure_issi fw hca = do
  (slot, hca₁) ← execute fw hca query_issi 0 [] query_issi_output_length
  if get_issi_support hca₁ slot == 0
      then throw issi_unsupported
      else (do (_, hca₂) ← execute fw hca₁ set_issi 0 (1 ∷ []) set_issi_output_length; ok (1, hca₂))
