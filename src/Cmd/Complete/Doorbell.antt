-- ===== src/Cmd/Complete/Doorbell.antt =====
-- server/src/cmd.cc: the doorbell has one bit for each slot that is rung.
use native.Mathlib.Nat.{pow-suc}
use l4rdma.Prelude.{
  ℕ, zero, suc, ◌+◌, ◌/◌, ◌%◌, ◌^◌, ◌<◌, ◌≡◌, refl, ap, ◌∙◌, List, [], ◌∷◌, Bool, true, false, ◌||◌,
  arith, ◌==◌, if◌then◌else◌, Bool-cases, inl, inr, subst,
}
use l4rdma.Bits.{mod-double}
use l4rdma.Io.{Memory, iowrite32be, ioread32be}
use l4rdma.Io.Endian.{ioread32be-iowrite32be}
use l4rdma.Cmd.Complete.{doorbell_sum, ring_doorbell}

-- Bit `s` of a number.
unfoldable pub bit : ℕ → ℕ → ℕ
bit x zero = x % 2
bit x (suc s) = bit (x / 2) s

abbrev pub contains : ℕ → List ℕ → Bool
contains s [] = false
contains s (t ∷ ts) = (s == t) || contains s ts

-- Slots of a queue of at most 32 entries, no slot twice.
abbrev pub AreSlots : List ℕ → Type 0
AreSlots [] = Unit {0}
AreSlots (t ∷ ts) = (t < 32) × (contains t ts ≡ false) × AreSlots ts

bit-mod : (w x s : ℕ) → s < w → bit (x % 2 ^ w) s ≡ bit x s
unfolding bit
bit-mod zero x s h = elim h [ ]
bit-mod (suc w) x zero h = omega (arith, mod-double x (2 ^ w), ap (λ (n : ℕ). x % n) (pow-suc 2 w))
bit-mod (suc w) x (suc s) h =
    let half : x % 2 ^ suc w / 2 ≡ x / 2 % 2 ^ w =
      omega (arith, mod-double x (2 ^ w), ap (λ (n : ℕ). x % n) (pow-suc 2 w)) in
    rw half (bit-mod w (x / 2) s (omega arith))

bit-add : (t s x : ℕ) → bit x t ≡ 0 → bit (x + 2 ^ t) s ≡ (if s == t then 1 else bit x s)
unfolding bit
bit-add zero zero x h = omega arith
bit-add zero (suc s) x h = let half : (x + 1) / 2 ≡ x / 2 = omega arith in rw half (ground arith)
bit-add (suc t) zero x h = ground (arith, pow-suc 2 t)
bit-add (suc t) (suc s) x h =
    let half : (x + 2 ^ suc t) / 2 ≡ x / 2 + 2 ^ t = omega (arith, pow-suc 2 t) in
    rw half (bit-add t s (x / 2) h ∙ ground arith)

bit-add_mod :
    (t s x : ℕ)
    → s < 32
    → bit x t ≡ 0
    → bit ((x + 2 ^ t) % 2 ^ 32) s ≡ (if s == t then 1 else bit x s)
bit-add_mod t s x small h = bit-mod 32 (x + 2 ^ t) s small ∙ bit-add t s x h

bit-zero : (s : ℕ) → bit 0 s ≡ 0
unfolding bit
bit-zero zero = refl
bit-zero (suc s) = bit-zero s

contains-lt : (s : ℕ) (ts : List ℕ) → AreSlots ts → contains s ts ≡ true → s < 32
contains-lt s [] h c = cc
contains-lt s (t ∷ ts) h c = ground (arith, contains-lt s ts h.2)

distinct : (t u : ℕ) (ts : List ℕ) → contains t ts ≡ false → contains u ts ≡ true → (u == t) ≡ false
distinct t u ts h c = elim (Bool-cases (u == t)) [
  | inl same ↦
      let e : u ≡ t = ground arith in
      let clash : contains t ts ≡ true = subst (λ v. contains v ts ≡ true) e c in cc
  | inr other ↦ other
]

bit-doorbell_sum :
    (slots : List ℕ) (dbr s : ℕ)
    → AreSlots slots
    → s < 32
    → ((t : ℕ) → contains t slots ≡ true → bit dbr t ≡ 0)
    → bit (doorbell_sum dbr slots) s ≡ (if contains s slots then 1 else bit dbr s)
unfolding doorbell_sum
bit-doorbell_sum [] dbr s h small clear = refl
bit-doorbell_sum (t ∷ ts) dbr s h small clear =
    let dbr' = (dbr + 2 ^ t) % 2 ^ 32 in
    let free : bit dbr t ≡ 0 = clear t (ground arith) in
    let still : (u : ℕ) → contains u ts ≡ true → bit dbr' u ≡ 0 = λ u c.
      ground (arith, bit-add_mod t u dbr (contains-lt u ts h.2 c) free, clear u, distinct t u ts) in
    ground (arith, bit-doorbell_sum ts dbr' s h.2 small still, bit-add_mod t s dbr small free)

-- For slots below 32, none of them twice, the word written to the doorbell register has the bit of
-- each of them set, and no other of its 32 bits.
pub bit-ring_doorbell :
    (m : Memory) (dbv : ℕ) (slots : List ℕ) (s : ℕ)
    → AreSlots slots
    → s < 32
    → bit (ioread32be (ring_doorbell m dbv slots) dbv) s ≡ (if contains s slots then 1 else 0)
unfolding ring_doorbell
bit-ring_doorbell m dbv slots s h small =
    let dbr = doorbell_sum 0 slots in
    let written : ioread32be (iowrite32be m dbv dbr) dbv ≡ dbr % 2 ^ 32 =
      ground (arith, ioread32be-iowrite32be m dbv dbr dbv) in
    rw written (
      bit-mod 32 dbr s small
      ∙ bit-doorbell_sum slots 0 s h small (λ t c. bit-zero t)
      ∙ ground (arith, bit-zero s))
