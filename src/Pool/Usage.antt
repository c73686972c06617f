-- ===== src/Pool/Usage.antt =====
-- server/src/pool.h: which elements of a pool are used, as a set of places, and how many.
use l4rdma.Prelude.{
  ℕ, zero, suc, ◌+◌, ◌≤◌, ◌<◌, ◌≡◌, ◌≢◌, refl, ap, ◌⊎◌, some, inl, inr, Bool, true, false, List, [],
  ◌∷◌, ◌++◌, All, arith, ◌==◌, ltb, if◌then◌else◌, length, Bool-cases,
}
use l4rdma.Pool.{Ptr, null, Element, Block, Heap}
use l4rdma.Pool.Chain.{Cells, Chain, has, replace}
use l4rdma.Pool.FirstFit.{AllUsed, AllFull}

pub length-middle {ℓ} :
    {A : Type ℓ} (xs : List A) (x y : A) (ys : List A)
    → length (xs ++ y ∷ ys) ≡ length (xs ++ x ∷ ys)
length-middle [] x y ys = refl
length-middle (z ∷ xs) x y ys = ap suc (length-middle xs x y ys)

module _ {ED : Type 0} where
  abbrev pub count_used : List (Element ED) → ℕ
  count_used [] = 0
  count_used (e ∷ es) = if e.used then suc (count_used es) else count_used es

  abbrev pub is_used : List (Element ED) → ℕ → Bool
  is_used [] i = false
  is_used (e ∷ es) zero = e.used
  is_used (e ∷ es) (suc i) = is_used es i

  -- An array with fewer used elements than places has a first unused one.
  abbrev pub Room : List (Element ED) → Type 0
  Room es =
      (taken : List (Element ED)) × (e : Element ED) × (rest : List (Element ED)) × (es
        ≡ taken ++ e ∷ rest)
      × AllUsed taken
      × (e.used ≡ false)

  pub find-Room : (es : List (Element ED)) → count_used es < length es → Room es
  find-Room [] few = absurd (omega arith)
  find-Room (e ∷ es) few = elim (Bool-cases e.used) [
    | inl used ↦
        let later = find-Room es (ground arith) in
        (e ∷ later.0, later.1, later.2, ap (λ r. e ∷ r) later.3, (used, later.4), later.5)
    | inr unused ↦ ([], e, es, refl, tt, unused)
  ]

  pub count_used-mark :
      (taken : List (Element ED)) (e : Element ED) (rest : List (Element ED))
      → e.used ≡ false
      → count_used (taken ++ record e { used = true } ∷ rest) ≡ count_used (taken ++ e ∷ rest) + 1
  count_used-mark [] e rest unused = rw unused (omega arith)
  count_used-mark (x ∷ taken) e rest unused = ground (arith, count_used-mark taken e rest unused)

  pub count_used-unmark :
      (taken : List (Element ED)) (e : Element ED) (rest : List (Element ED))
      → e.used ≡ true
      → count_used (taken ++ record e { used = false } ∷ rest) + 1 ≡ count_used (taken ++ e ∷ rest)
  count_used-unmark [] e rest used = rw used (omega arith)
  count_used-unmark (x ∷ taken) e rest used = ground (arith, count_used-unmark taken e rest used)

  pub is_used-mark :
      (u : Bool) (taken : List (Element ED)) (e : Element ED) (rest : List (Element ED)) (i : ℕ)
      → is_used (taken ++ record e { used = u } ∷ rest) i
        ≡ (if i == length taken then u else is_used (taken ++ e ∷ rest) i)
  is_used-mark u [] e rest zero = refl
  is_used-mark u [] e rest (suc i) = ground arith
  is_used-mark u (x ∷ taken) e rest zero = ground arith
  is_used-mark u (x ∷ taken) e rest (suc i) = ground (arith, is_used-mark u taken e rest i)

  pub is_used-middle :
      (taken : List (Element ED)) (e : Element ED) (rest : List (Element ED))
      → is_used (taken ++ e ∷ rest) (length taken) ≡ e.used
  is_used-middle [] e rest = refl
  is_used-middle (x ∷ taken) e rest = is_used-middle taken e rest

  pub is_used-none : (es : List (Element ED)) (i : ℕ) → count_used es ≡ 0 → is_used es i ≡ false
  is_used-none [] i none_used = refl
  is_used-none (e ∷ es) zero none_used = ground arith
  is_used-none (e ∷ es) (suc i) none_used = ground (arith, is_used-none es i)

  pub All-middle {ℓ} :
      (P : Element ED → Type ℓ) (taken : List (Element ED)) (e : Element ED)
      (rest : List (Element ED))
      → All P (taken ++ e ∷ rest)
      → P e
  All-middle P [] e rest all = all.0
  All-middle P (x ∷ taken) e rest all = All-middle P taken e rest all.1

  pub All-mark {ℓ} :
      (P : Element ED → Type ℓ) (taken : List (Element ED)) (e x : Element ED)
      (rest : List (Element ED))
      → (P e → P x)
      → All P (taken ++ e ∷ rest)
      → All P (taken ++ x ∷ rest)
  All-mark P [] e x rest keep all = (keep all.0, all.1)
  All-mark P (y ∷ taken) e x rest keep all = (all.0, All-mark P taken e x rest keep all.1)

module _ {BD ED : Type 0} where
  -- Whether the element at index `i` of the block at `home` is used.
  abbrev pub used_at : Cells BD ED → (home : Ptr) (i : ℕ) → Bool
  used_at [] home i = false
  used_at ((a, b) ∷ r) home i = if home == a then is_used b.elements i else used_at r home i

  -- The count of the block at `home`.
  abbrev pub count_at : Cells BD ED → Ptr → ℕ
  count_at [] home = 0
  count_at ((a, b) ∷ r) home = if home == a then b.element_count else count_at r home

  abbrev pub total_used : Cells BD ED → ℕ
  total_used [] = 0
  total_used ((a, b) ∷ r) = b.element_count + total_used r

  -- The first block with room, if there is one.
  abbrev pub Gap : ℕ → Cells BD ED → Type 0
  Gap block_size bs =
      (front : Cells BD ED) × (a : Ptr) × (b : Block BD ED) × (back : Cells BD ED) × (bs
        ≡ front ++ (a, b) ∷ back)
      × AllFull block_size front
      × (b.element_count < block_size)

  pub find-Gap : (n : ℕ) (bs : Cells BD ED) → AllFull n bs ⊎ Gap n bs
  find-Gap n [] = inl tt
  find-Gap n ((a, b) ∷ r) = elim (Bool-cases (ltb b.element_count n)) [
    | inl room ↦ inr ([], a, b, r, refl, tt, ground arith)
    | inr full ↦
        let le : n ≤ b.element_count = ground arith in
        elim (find-Gap n r) [
          | inl all ↦ inl (le, all)
          | inr gap ↦
              inr (
                (a, b) ∷ gap.0,
                gap.1,
                gap.2,
                gap.3,
                ap (λ x. (a, b) ∷ x) gap.4,
                (le, gap.5),
                gap.6,
              )
        ]
  ]

  pub has-middle :
      (x a : Ptr) (b : Block BD ED) (front back : Cells BD ED)
      → has x (front ++ (a, b) ∷ back) ≡ false
      → (has x front ≡ false) × ((x == a) ≡ false) × (has x back ≡ false)
  has-middle x a b [] back out = ground arith
  has-middle x a b ((y, c) ∷ front) back out = ground (arith, has-middle x a b front back)

  -- In a list, the address of a block stands nowhere else.
  pub Chain-apart :
      (h : Heap BD ED) (prev p a : Ptr) (b : Block BD ED) (front back : Cells BD ED)
      → Chain h prev p (front ++ (a, b) ∷ back)
      → (has a front ≡ false) × (has a back ≡ false)
  Chain-apart h prev p a b [] back ch = (refl, ch.4)
  Chain-apart h prev p a b ((x, c) ∷ front) back ch =
      let later = Chain-apart h x c.next a b front back ch.5 in
      let other = has-middle x a b front back ch.4 in (ground (arith, later, other), later.1)

  pub Chain-found :
      (h : Heap BD ED) (prev p a : Ptr) (b : Block BD ED) (front back : Cells BD ED)
      → Chain h prev p (front ++ (a, b) ∷ back)
      → h a ≡ some b
  Chain-found h prev p a b [] back ch = ch.2
  Chain-found h prev p a b ((x, c) ∷ front) back ch = Chain-found h x c.next a b front back ch.5

  pub Chain-there :
      (h : Heap BD ED) (prev p a : Ptr) (b : Block BD ED) (front back : Cells BD ED)
      → Chain h prev p (front ++ (a, b) ∷ back)
      → a ≢ null
  Chain-there h prev p a b [] back ch = ch.1
  Chain-there h prev p a b ((x, c) ∷ front) back ch = Chain-there h x c.next a b front back ch.5

  pub replace-out :
      (a : Ptr) (c : Block BD ED) (bs : Cells BD ED) → has a bs ≡ false → replace a c bs ≡ bs
  replace-out a c [] out = refl
  replace-out a c ((x, b) ∷ r) out = ground (arith, replace-out a c r)

  pub replace-middle :
      (a : Ptr) (b c : Block BD ED) (front back : Cells BD ED)
      → has a front ≡ false
      → has a back ≡ false
      → replace a c (front ++ (a, b) ∷ back) ≡ front ++ (a, c) ∷ back
  replace-middle a b c [] back here there = ground (arith, replace-out a c back there)
  replace-middle a b c ((x, d) ∷ front) back here there =
      ground (arith, replace-middle a b c front back)

  pub total_used-middle :
      (front back : Cells BD ED) (a : Ptr) (b c : Block BD ED)
      → total_used (front ++ (a, c) ∷ back) + b.element_count
        ≡ total_used (front ++ (a, b) ∷ back) + c.element_count
  total_used-middle [] back a b c = omega arith
  total_used-middle ((x, d) ∷ front) back a b c = omega (arith, total_used-middle front back a b c)

  pub element_count-le-total_used :
      (front back : Cells BD ED) (a : Ptr) (b : Block BD ED)
      → b.element_count ≤ total_used (front ++ (a, b) ∷ back)
  element_count-le-total_used [] back a b = omega arith
  element_count-le-total_used ((x, d) ∷ front) back a b =
      omega (arith, element_count-le-total_used front back a b)

  pub used_at-middle :
      (front back : Cells BD ED) (a : Ptr) (b : Block BD ED) (i : ℕ)
      → has a front ≡ false
      → used_at (front ++ (a, b) ∷ back) a i ≡ is_used b.elements i
  used_at-middle [] back a b i out = ground arith
  used_at-middle ((x, d) ∷ front) back a b i out = ground (arith, used_at-middle front back a b i)

  pub used_at-other :
      (front back : Cells BD ED) (a : Ptr) (b c : Block BD ED) (home : Ptr) (i : ℕ)
      → (home == a) ≡ false
      → used_at (front ++ (a, c) ∷ back) home i ≡ used_at (front ++ (a, b) ∷ back) home i
  used_at-other [] back a b c home i out = ground arith
  used_at-other ((x, d) ∷ front) back a b c home i out =
      ground (arith, used_at-other front back a b c home i out)
