-- ===== src/Driver.antt =====
-- server/src/driver.h and driver.cc: bringing the adapter up and down by commands.
pub mod Wait
pub mod Issi
pub mod Setup
pub mod Pages
pub mod BringUp
pub mod Teardown
use l4rdma.Prelude.{ℕ, List, [], ◌∷◌}
use l4rdma.Run.{Run, ok, ◌>>=◌}
use l4rdma.Io.{Memory}
use l4rdma.Cmd.Opcode.{Opcode}
use l4rdma.Cmd.Args.{CmdArgs}
use l4rdma.Cmd.Entry.{create_cqe}
use l4rdma.Cmd.Complete.{Firmware, ring_doorbell, validate_cqe, get_cmd_output}

-- The part of `MLX5_Context` that commands use, and the memory that the driver shares with the
-- hardware.
pub record Hca : Type 0 where
  pub cmd : CmdArgs
  pub memory : Memory

-- The three calls that every command is made of: `create_cqe`, `ring_doorbell`, `validate_cqe`.
unfoldable pub execute : Firmware → Hca → Opcode → ℕ → List ℕ → ℕ → Run (ℕ × Hca)
execute fw hca opcode op_mod payload output_length =
    let (slot, cmd, m₁) = create_cqe hca.cmd hca.memory opcode op_mod payload output_length in
    let m₂ = ring_doorbell m₁ cmd.dbv (slot ∷ []) in
    do m₃ ← validate_cqe fw m₂ cmd.cq (slot ∷ []); ok (slot, record { cmd = cmd; memory = m₃ })

-- `get_cmd_output`, which changes nothing.
abbrev pub output : Hca → ℕ → ℕ → List ℕ
output hca slot count = get_cmd_output hca.cmd hca.memory slot count
