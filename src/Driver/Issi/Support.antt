-- ===== src/Driver/Issi/Support.antt =====
-- server/src/driver.cc: the version that `get_issi_support` computes from the firmware's words.
use l4rdma.Prelude.{
  ℕ, zero, suc, ◌+◌, ◌-◌, ◌*◌, ◌/◌, ◌%◌, ◌^◌, ◌≤◌, ◌≡◌, refl, List, [], ◌∷◌, arith, ◌==◌,
  if◌then◌else◌, get_or, false,
}
use l4rdma.Cmd.Opcode.{Opcode, query_issi, set_issi}
use l4rdma.Cmd.Complete.{Firmware}
use l4rdma.Cmd.Complete.Errors.{FailsByCommand, FailsByCommand-bind, validate_cqe_errors}
use l4rdma.Driver.{Hca, execute, output}
use l4rdma.Driver.Issi.{ffs, scan, get_issi_support, configure_issi}

ffs_bound : (fuel x : ℕ) → ffs fuel x ≤ fuel
unfolding ffs
ffs_bound zero x = omega arith
ffs_bound (suc fuel) x = ground (arith, ffs_bound fuel (x / 2))

-- One round of the loop, for any outcome of the later rounds.
round_bounds :
    (pos count rounds later : ℕ)
    → pos ≤ 32
    → 1 ≤ later × later ≤ (count + 1 + rounds) * 32
    → 1 ≤ (if pos == 0 then later else count * 32 + pos)
      × (if pos == 0 then later else count * 32 + pos) ≤ (count + suc rounds) * 32
round_bounds pos count rounds later small bounds = ground arith

-- A word with a bit set ends the loop at its place; without one the loop counts 32 for each word.
scan_bounds :
    (issi_out : List ℕ)
    → (i rounds count : ℕ) → 1 ≤ count + rounds
    → 1 ≤ scan issi_out i rounds count × scan issi_out i rounds count ≤ (count + rounds) * 32
unfolding scan
scan_bounds issi_out i zero count some_word = omega arith
scan_bounds issi_out i (suc rounds) count some_word =
    round_bounds (ffs 32 (get_or issi_out i 0)) count rounds
      (scan issi_out (i - 1) rounds (count + 1)) (ffs_bound 32 (get_or issi_out i 0))
      (scan_bounds issi_out (i - 1) rounds (count + 1) (omega arith))

stays_positive : (n : ℕ) → 1 ≤ n × n ≤ 640 → 1 ≤ n % 2 ^ 32
stays_positive n bounds = omega arith

-- Whatever the firmware answers, the computed version is not 0.
pub get_issi_support_positive : (hca : Hca) (slot : ℕ) → 1 ≤ get_issi_support hca slot
unfolding get_issi_support
get_issi_support_positive hca slot =
    let issi_out = output hca slot 26 in
    stays_positive (scan issi_out 25 20 0) (scan_bounds issi_out 25 20 0 (omega arith))

not_zero : {n : ℕ} → 1 ≤ n → (n == 0) ≡ false
not_zero positive = ground arith

execute_errors :
    (fw : Firmware) (hca : Hca) (opcode : Opcode) (op_mod : ℕ) (payload : List ℕ)
    (output_length : ℕ)
    → FailsByCommand (execute fw hca opcode op_mod payload output_length)
unfolding execute
execute_errors fw hca opcode op_mod payload output_length =
    FailsByCommand-bind _ _ (validate_cqe_errors fw _ _ _) λ m. refl

-- Whatever the firmware answers, `configure_issi` ends with a version or with the error of one of
-- its commands: the error for a firmware without a supported version never occurs.
pub configure_issi_errors : (fw : Firmware) (hca : Hca) → FailsByCommand (configure_issi fw hca)
unfolding configure_issi
configure_issi_errors fw hca =
    FailsByCommand-bind (execute fw hca query_issi 0 [] 26) _
      (execute_errors fw hca query_issi 0 [] 26)
      λ r. rw (not_zero (get_issi_support_positive r.1 r.0)) (
        FailsByCommand-bind (execute fw r.1 set_issi 0 (1 ∷ []) 0) _
          (execute_errors fw r.1 set_issi 0 (1 ∷ []) 0) λ _. refl)
