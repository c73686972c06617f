-- ===== src/Driver/Wait.antt =====
-- server/src/driver.cc: waiting until the adapter is initialised.
use native.Mathlib.Decide.{dec_lt}
use l4rdma.Prelude.{
  ℕ, zero, suc, ◌+◌, ◌/◌, ◌^◌, ◌≤◌, ◌<◌, ◌≡◌, refl, ◌⊎◌, inl, inr, arith, leb, ◌==◌, if◌then◌else◌,
  Bool-cases,
}
use l4rdma.Run.{Run, ok, throw, out_of_fuel, init_timeout}
use l4rdma.Io.{Memory, ioread32be}
use l4rdma.Cmd.Complete.{Firmware}

abbrev pub init_timeout_ms : ℕ
init_timeout_ms = 5000

module _ (fw : Firmware) (m : Memory) (initializing : ℕ) where
  -- The highest bit of the register at the `n`-th look.
  abbrev pub init : ℕ → ℕ
  init n = ioread32be (fw.observe m n) initializing / 2 ^ 31

  pub wait_from : ℕ → ℕ → Run Memory
  wait_from zero n = out_of_fuel
  wait_from (suc fuel) n =
      let later = wait_from fuel (n + 1) in
      if init n == 0
      then ok (fw.observe m n)
      else if leb init_timeout_ms (fw.elapsed n)
      then throw init_timeout
      else later

  -- The rounds that fit into the timeout, and one more.
  pub init_wait : Run Memory
  unfolding wait_from
  init_wait = wait_from 251 0

  -- The adapter is not ready at any look before the `n`-th, nor is the time over.
  abbrev pub NotReady : ℕ → Type 0
  NotReady n = (k : ℕ) → k < n → (1 ≤ init k) × (fw.elapsed k < init_timeout_ms)

  abbrev pub WaitEnds : Run Memory → Type 0
  WaitEnds r =
      ((n : ℕ) × NotReady n × (init n ≡ 0) × (r ≡ ok (fw.observe m n)))
      ⊎ ((n : ℕ) × NotReady n
          × (1 ≤ init n)
          × (init_timeout_ms ≤ fw.elapsed n)
          × (r ≡ throw init_timeout))

  NotReady-suc :
      (n : ℕ) → NotReady n → 1 ≤ init n → fw.elapsed n < init_timeout_ms → NotReady (n + 1)
  NotReady-suc n w busy t k h = elim (dec_lt k n) [
    | yes before ↦ w k before
    | no now ↦ let same : k ≡ n = omega arith in rw same (busy, t)
  ]

  wait_from-WaitEnds : (fuel n : ℕ) → 251 ≤ fuel + n → NotReady n → WaitEnds (wait_from fuel n)
  unfolding wait_from
  wait_from-WaitEnds zero n enough w =
      absurd (omega (arith, fw.sleeps 250, (w 250 (omega arith)).1))
  wait_from-WaitEnds (suc fuel) n enough w = elim (Bool-cases (init n == 0)) [
    | inl ready ↦ inl (n, w, ground arith, rw ready refl)
    | inr busy ↦ elim (Bool-cases (leb init_timeout_ms (fw.elapsed n))) [
      | inl late ↦ inr (n, w, ground arith, ground arith, rw (busy, late) refl)
      | inr early ↦
          rw (busy, early)
            (wait_from-WaitEnds fuel (n + 1) (omega arith)
              (NotReady-suc n w (ground arith) (ground arith)))
    ]
  ]

  -- Waiting for the adapter always ends: with the memory of the first look at which the highest bit
  -- of the register is clear, or by the timeout at a look up to which it was set.
  pub init_wait-WaitEnds : WaitEnds init_wait
  unfolding init_wait
  init_wait-WaitEnds = wait_from-WaitEnds 251 0 (omega arith) (λ k h. elim h [ ])
