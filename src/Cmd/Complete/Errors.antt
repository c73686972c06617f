-- ===== src/Cmd/Complete/Errors.antt =====
-- server/src/cmd.cc: the errors that a command may end with.
use l4rdma.Prelude.{ℕ, ◌≡◌, refl, List, [], ◌∷◌, inl, inr, Bool, true, false, arith}
use l4rdma.Run.{Run, Error, throw, out_of_fuel, ok, cmd_timeout, cqe_error, cod_error, ◌>>=◌}
use l4rdma.Io.{Memory}
use l4rdma.Queue.{Queue}
use l4rdma.Cmd.Args.{entry}
use l4rdma.Cmd.Complete.Poll.{poll_ownership-Ends}
use l4rdma.Cmd.Complete.{Firmware, poll_ownership, check_cqe_status, check_cod_status, validate_cqe}

unfoldable pub is_command_error : Error → Bool
is_command_error cmd_timeout = true
is_command_error (cqe_error status) = true
is_command_error (cod_error status) = true
is_command_error error = false

-- The run ends, and not with another error than one of a command.
abbrev pub fails_by_command {ℓ} : {X : Type ℓ} → Run X → Bool
fails_by_command (throw e) = is_command_error e
fails_by_command out_of_fuel = false
fails_by_command (ok x) = true

abbrev pub FailsByCommand {ℓ} : {X : Type ℓ} → Run X → Type 0
FailsByCommand r = fails_by_command r ≡ true

pub FailsByCommand-bind {ℓ κ} :
    {X : Type ℓ} {Y : Type κ} (r : Run X) (next : X → Run Y)
    → FailsByCommand r
    → ((x : X) → FailsByCommand (next x))
    → FailsByCommand (r >>= next)
FailsByCommand-bind (throw e) next first later = first
FailsByCommand-bind out_of_fuel next first later = first
FailsByCommand-bind (ok x) next first later = later x

module _ (fw : Firmware) where
  poll_ownership_errors : (m : Memory) (cqe : ℕ) → FailsByCommand (poll_ownership fw m cqe)
  unfolding is_command_error
  poll_ownership_errors m cqe = elim (poll_ownership-Ends fw m cqe) [
    | inl (n, w, free, same) ↦ rw same refl
    | inr (n, w, held, late, same) ↦ rw same refl
  ]

  check_cqe_status_errors : (m : Memory) (cqe : ℕ) → FailsByCommand (check_cqe_status m cqe)
  unfolding check_cqe_status is_command_error
  check_cqe_status_errors m cqe = ground arith

  check_cod_status_errors : (m : Memory) (cqe : ℕ) → FailsByCommand (check_cod_status m cqe)
  unfolding check_cod_status is_command_error
  check_cod_status_errors m cqe = ground arith

  pub validate_cqe_errors :
      (m : Memory) (cq : Queue) (slots : List ℕ) → FailsByCommand (validate_cqe fw m cq slots)
  unfolding validate_cqe
  validate_cqe_errors m cq [] = refl
  validate_cqe_errors m cq (slot ∷ slots) =
      let cqe = entry cq slot in
      FailsByCommand-bind (poll_ownership fw m cqe) _ (poll_ownership_errors m cqe) λ m'.
        FailsByCommand-bind (check_cqe_status m' cqe) _ (check_cqe_status_errors m' cqe) λ _.
          FailsByCommand-bind (check_cod_status m' cqe) _ (check_cod_status_errors m' cqe)
            λ _. validate_cqe_errors m' cq slots
