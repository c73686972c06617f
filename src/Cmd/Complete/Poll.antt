-- ===== src/Cmd/Complete/Poll.antt =====
-- server/src/cmd.cc: waiting for a command ends, and only the four outcomes of the source occur.
use native.Mathlib.Decide.{dec_lt}
use l4rdma.Prelude.{
  ℕ, zero, suc, ◌+◌, ◌/◌, ◌%◌, ◌^◌, ◌≤◌, ◌<◌, ◌≡◌, refl, ◌⊎◌, inl, inr, [], ◌∷◌, arith, bit_and,
  leb, ◌==◌, if◌then◌else◌, Bool-cases,
}
use l4rdma.Bits.{bit_and-low1, bit_and-status, bit_and-high8}
use l4rdma.Run.{Run, ok, throw, cmd_timeout, cqe_error, cod_error}
use l4rdma.Io.{Memory, ioread32be}
use l4rdma.Queue.{Queue}
use l4rdma.Cmd.Args.{cod_status, cqe_ctrl, entry}
use l4rdma.Cmd.Complete.{
  Firmware, cmd_timeout_ms, poll_from, poll_fuel, poll_ownership, check_cqe_status,
  check_cod_status, validate_cqe,
}

module _ (fw : Firmware) (m : Memory) (cqe : ℕ) where
  -- The lowest bit of the control register at the `n`-th look.
  abbrev pub owner : ℕ → ℕ
  owner n = ioread32be (fw.observe m n) (cqe + cqe_ctrl) % 2

  -- The hardware has the entry at every look before the `n`-th.
  abbrev pub Waits : ℕ → Type 0
  Waits n = (k : ℕ) → k < n → (owner k ≡ 1) × (fw.elapsed k < cmd_timeout_ms)

  Waits-suc : (n : ℕ) → Waits n → owner n ≡ 1 → fw.elapsed n < cmd_timeout_ms → Waits (n + 1)
  Waits-suc n w o t k h = elim (dec_lt k n) [
    | yes before ↦ w k before
    | no now ↦ let same : k ≡ n = omega arith in rw same (o, t)
  ]

  -- How a wait ends: at the first look at which the entry is the driver's again, or by the timeout.
  abbrev pub Ends : Run Memory → Type 0
  Ends r =
      ((n : ℕ) × Waits n × (owner n ≡ 0) × (r ≡ ok (fw.observe m n)))
      ⊎ ((n : ℕ) × Waits n
          × (owner n ≡ 1)
          × (cmd_timeout_ms ≤ fw.elapsed n)
          × (r ≡ throw cmd_timeout))

  owner-test :
      (n : ℕ) → (bit_and (ioread32be (fw.observe m n) (cqe + cqe_ctrl)) 1 == 0) ≡ (owner n == 0)
  owner-test n = rw (bit_and-low1 (ioread32be (fw.observe m n) (cqe + cqe_ctrl))) refl

  poll_from-round :
      (fuel n : ℕ)
      → poll_from fw (suc fuel) m cqe n ≡ (
          if owner n == 0
          then ok (fw.observe m n)
          else if leb cmd_timeout_ms (fw.elapsed n)
          then throw cmd_timeout
          else poll_from fw fuel m cqe (n + 1))
  unfolding poll_from
  poll_from-round fuel n = rw (owner-test n) refl

  poll_from-Ends :
      (fuel n : ℕ) → poll_fuel fw ≤ fuel + n → Waits n → Ends (poll_from fw fuel m cqe n)
  poll_from-Ends zero n enough w = absurd (omega (arith, fw.sleeps 250, (w 250 (omega arith)).1))
  poll_from-Ends (suc fuel) n enough w =
      rw (poll_from-round fuel n) (elim (Bool-cases (owner n == 0)) [
        | inl free ↦ inl (n, w, ground arith, rw free refl)
        | inr held ↦ elim (Bool-cases (leb cmd_timeout_ms (fw.elapsed n))) [
          | inl late ↦ inr (n, w, ground arith, ground arith, rw (held, late) refl)
          | inr early ↦
              rw (held, early)
                (poll_from-Ends fuel (n + 1) (omega arith)
                  (Waits-suc n w (ground arith) (ground arith)))
        ]
      ])

  -- Waiting for a command always ends, within the rounds that the timeout allows: with the memory
  -- of the first look at which the entry is the driver's, or by the timeout at a look up to which
  -- the hardware had it.
  pub poll_ownership-Ends : Ends (poll_ownership fw m cqe)
  unfolding poll_ownership
  poll_ownership-Ends = poll_from-Ends (poll_fuel fw) 0 (omega arith) (λ k h. elim h [ ])

  poll_from-ok :
      (n d fuel j : ℕ)
      → Waits n
      → owner n ≡ 0
      → j + d ≡ n
      → d < fuel
      → poll_from fw fuel m cqe j ≡ ok (fw.observe m n)
  poll_from-ok n d zero j w free e enough = absurd (omega arith)
  poll_from-ok n zero (suc fuel) j w free e enough =
      let here : j ≡ n = omega arith in rw (poll_from-round fuel j, here) (ground arith)
  poll_from-ok n (suc d) (suc fuel) j w free e enough =
      rw (poll_from-round fuel j)
        (ground (arith, w j, poll_from-ok n d fuel (j + 1) w free (omega arith) (omega arith)))

  in_time : (n : ℕ) → Waits n → n < poll_fuel fw
  in_time n w = elim (dec_lt n 251) [
    | yes few ↦ few
    | no many ↦ absurd (omega (arith, fw.sleeps 250, (w 250 (omega arith)).1))
  ]

  pub poll_ownership-ok :
      (n : ℕ) → Waits n → owner n ≡ 0 → poll_ownership fw m cqe ≡ ok (fw.observe m n)
  unfolding poll_ownership
  poll_ownership-ok n w free = poll_from-ok n n (poll_fuel fw) 0 w free (omega arith) (in_time n w)

-- The status of a completed command, as the two checks read it.
abbrev pub queue_status : Memory → ℕ → ℕ
queue_status m cqe = ioread32be m (cqe + cqe_ctrl) / 2 % 2 ^ 7

abbrev pub command_status : Memory → ℕ → ℕ
command_status m cqe = ioread32be m (cqe + cod_status) / 2 ^ 24 % 2 ^ 8

check_cqe_status_lem :
    (m : Memory) (cqe : ℕ)
    → check_cqe_status m cqe
      ≡ (if queue_status m cqe == 0 then ok tt else throw (cqe_error (queue_status m cqe)))
unfolding check_cqe_status
check_cqe_status_lem m cqe =
    let same : bit_and (ioread32be m (cqe + cqe_ctrl)) 0xfe / 2 ^ 1 ≡ queue_status m cqe =
      omega (arith, bit_and-status (ioread32be m (cqe + cqe_ctrl))) in
    rw same refl

check_cod_status_lem :
    (m : Memory) (cqe : ℕ)
    → check_cod_status m cqe
      ≡ (if command_status m cqe == 0 then ok tt else throw (cod_error (command_status m cqe)))
unfolding check_cod_status
check_cod_status_lem m cqe =
    let same : bit_and (ioread32be m (cqe + cod_status)) 0xff000000 / 2 ^ 24
        ≡ command_status m cqe =
      omega (arith, bit_and-high8 (ioread32be m (cqe + cod_status))) in
    rw same refl

-- If the hardware gives the entry back at the `n`-th look, in time, then the result is decided by
-- the two status fields in that look's memory: an error with the first that is not 0, and else
-- the memory.
pub validate_cqe_one :
    (fw : Firmware) (m : Memory) (cq : Queue) (slot n : ℕ)
    → Waits fw m (entry cq slot) n
    → owner fw m (entry cq slot) n ≡ 0
    → let m' = fw.observe m n in
      let cqe = entry cq slot in
      validate_cqe fw m cq (slot ∷ []) ≡ (
        if queue_status m' cqe == 0
        then (if command_status m' cqe == 0
            then ok m'
            else throw (cod_error (command_status m' cqe)))
        else throw (cqe_error (queue_status m' cqe)))
unfolding validate_cqe
validate_cqe_one fw m cq slot n w free =
    let cqe = entry cq slot in
    let m' = fw.observe m n in
    rw
      (
        poll_ownership-ok fw m cqe n w free,
        check_cqe_status_lem m' cqe,
        check_cod_status_lem m' cqe,
      )
      (ground arith)
