-- ===== src/Pool/Marking.antt =====
-- server/src/pool.h: a pool in which one element of a block is marked as used, or as unused.
use l4rdma.Prelude.{
  ℕ, ◌+◌, ◌≤◌, ◌<◌, ◌≡◌, ◌≢◌, refl, sym, ap, ◌∙◌, inl, inr, Bool, true, false, some, List, ◌∷◌,
  ◌++◌, All, arith, ◌==◌, if◌then◌else◌, length, Bool-cases, subst,
}
use l4rdma.Pool.{Ptr, null, Element, Block, Store, increment}
use l4rdma.Pool.Chain.{Cells, Chain, Chain-replace}
use l4rdma.Pool.FirstFit.{with_used}
use l4rdma.Pool.Usage.{
  count_used, used_at, is_used, count_used-mark, count_used-unmark, element_count-le-total_used,
  length-middle, Chain-found, is_used-mark, is_used-middle, All-mark, Chain-apart, replace-middle,
  total_used-middle, used_at-middle, used_at-other,
}
use l4rdma.Pool.{write, decrement}
use l4rdma.Pool.Invariant.{IsBlock, IsPool, All-middle, Ends-middle, IsBlock-middle, with_place}

-- The pool with another size, and with block `c` at `a`.
abbrev pub with_block :
    {PD BD ED : Type 0} → Store PD BD ED → (a : Ptr) → Block BD ED → (size : ℕ) → Store PD BD ED
with_block s a c size = record {
  pool = record (s.pool) { size = size };
  heap = write s.heap a (some c);
}

module _ {PD BD ED : Type 0} (s : Store PD BD ED) (a : Ptr) (b c : Block BD ED)
    (front back : Cells BD ED) (inv : IsPool s (front ++ (a, b) ∷ back)) where
  pub with_block-IsPool :
      (size : ℕ)
      → (c.next ≡ b.next) × (c.prev ≡ b.prev)
      → IsBlock s.pool.block_size a c
      → size + b.element_count ≡ s.pool.size + c.element_count
      → size ≤ s.pool.max
      → IsPool (with_block s a c size) (front ++ (a, c) ∷ back)
  with_block-IsPool size (next, prev) good sum within =
      let apart = Chain-apart s.heap null s.pool.start a b front back inv.chain in
      let found = Chain-found s.heap null s.pool.start a b front back inv.chain in
      record {
        chain =
            subst (λ bs. Chain (write s.heap a (some c)) null s.pool.start bs)
              (replace-middle a b c front back apart.0 apart.1)
              (Chain-replace s.heap null s.pool.start a b c (front ++ (a, b) ∷ back) found next prev
                inv.chain);
        ends = Ends-middle s.pool.end a b c front back inv.ends;
        blocks = All-middle s.pool.block_size a b c front back good inv.blocks;
        few = inv.few;
        listed = inv.listed ∙ sym (length-middle front (a, b) (a, c) back);
        total = omega (arith, inv.total, sum, total_used-middle front back a b c);
        within = within;
        bounded = inv.bounded;
        not_trivial = inv.not_trivial;
      }

  pub used_at-with_block :
      (h : Ptr) (i : ℕ)
      → used_at (front ++ (a, c) ∷ back) h i
        ≡ (if h == a then is_used c.elements i else used_at (front ++ (a, b) ∷ back) h i)
  used_at-with_block h i =
      let apart = Chain-apart s.heap null s.pool.start a b front back inv.chain in
      elim (Bool-cases (h == a)) [
        | inl here ↦
            let same : h ≡ a = ground arith in
            rw here (
              ap (λ z. used_at (front ++ (a, c) ∷ back) z i) same
              ∙ used_at-middle front back a c i apart.0)
        | inr away ↦ rw away (used_at-other front back a b c h i away)
      ]

-- The block with another mark for the element between `taken` and `rest`, and another count.
abbrev pub marked :
    {BD ED : Type 0} (b : Block BD ED) (taken : List (Element ED)) (e : Element ED)
    → List (Element ED)
    → (u : Bool) (count : ℕ) → Block BD ED
marked b taken e rest u count = record b {
  element_count = count;
  elements = taken ++ record e { used = u } ∷ rest;
}

module _ {PD BD ED : Type 0} (s : Store PD BD ED) (a : Ptr) (b : Block BD ED)
    (taken : List (Element ED)) (e : Element ED) (rest : List (Element ED))
    (front back : Cells BD ED) (inv : IsPool s (front ++ (a, b) ∷ back))
    (parts : b.elements ≡ taken ++ e ∷ rest) where
  marked-IsBlock :
      (u : Bool) (count : ℕ)
      → count_used (taken ++ record e { used = u } ∷ rest) ≡ count
      → IsBlock s.pool.block_size a (marked b taken e rest u count)
  marked-IsBlock u count counted =
      let block = IsBlock-middle s.pool.block_size a b front back inv.blocks in
      record {
        whole =
            length-middle taken e (record e { used = u }) rest
            ∙ ap length (sym parts)
            ∙ block.whole;
        counted = counted;
        owned =
            All-mark (λ x. x.owner ≡ a) taken e (record e { used = u }) rest (λ own. own)
              (subst (λ es. All (λ x. x.owner ≡ a) es) parts block.owned);
      }

  -- The set of used places after it.
  pub used_at-marked :
      (u : Bool) (count : ℕ) (h : Ptr) (i : ℕ)
      → used_at (front ++ (a, marked b taken e rest u count) ∷ back) h i
        ≡ with_place (used_at (front ++ (a, b) ∷ back)) a (length taken) u h i
  used_at-marked u count h i =
      let apart = Chain-apart s.heap null s.pool.start a b front back inv.chain in
      used_at-with_block s a b (marked b taken e rest u count) front back inv h i
      ∙ elim (Bool-cases (h == a)) [
        | inl here ↦
            let same : h ≡ a = ground arith in
            rw here (
              is_used-mark u taken e rest i
              ∙ ap (λ v. if i == length taken then u else v)
                  (ap (λ es. is_used es i) (sym parts)
                    ∙ sym (used_at-middle front back a b i apart.0)
                    ∙ ap (λ z. used_at (front ++ (a, b) ∷ back) z i) (sym same)))
        | inr away ↦ rw away refl
      ]

  pub used_at-place : used_at (front ++ (a, b) ∷ back) a (length taken) ≡ e.used
  used_at-place =
      let apart = Chain-apart s.heap null s.pool.start a b front back inv.chain in
      used_at-middle front back a b (length taken) apart.0
      ∙ ap (λ es. is_used es (length taken)) parts
      ∙ is_used-middle taken e rest

  pub with_used-IsPool :
      e.used ≡ false
      → b.element_count < s.pool.block_size
      → s.pool.size ≢ s.pool.max
      → IsPool
          (with_used s a b taken e rest)
          (front ++ (a, marked b taken e rest true (increment b.element_count)) ∷ back)
  with_used-IsPool unused room open_pool =
      let block = IsBlock-middle s.pool.block_size a b front back inv.blocks in
      let more : increment b.element_count ≡ b.element_count + 1 =
        omega (arith, room, inv.not_trivial) in
      let larger : increment s.pool.size ≡ s.pool.size + 1 =
        omega (arith, inv.within, inv.bounded, open_pool) in
      with_block-IsPool s a b (marked b taken e rest true (increment b.element_count)) front back
        inv (increment s.pool.size) (refl, refl)
        (marked-IsBlock true (increment b.element_count) (
          count_used-mark taken e rest unused
          ∙ omega (arith, more, ap count_used (sym parts), block.counted)))
        (omega (arith, more, larger)) (omega (arith, larger, inv.within, open_pool))

  pub with_unused-IsPool :
      e.used ≡ true
      → IsPool
          (with_block s a
            (marked b taken e rest false (decrement b.element_count))
            (decrement s.pool.size))
          (front ++ (a, marked b taken e rest false (decrement b.element_count)) ∷ back)
  with_unused-IsPool used =
      let block = IsBlock-middle s.pool.block_size a b front back inv.blocks in
      let parted = count_used-unmark taken e rest used in
      let whole : count_used (taken ++ e ∷ rest) ≡ b.element_count =
        ap count_used (sym parts) ∙ block.counted in
      let small = element_count-le-total_used front back a b in
      let fewer : decrement b.element_count + 1 ≡ b.element_count =
        omega (arith, parted, whole, small, inv.total, inv.within, inv.bounded) in
      let smaller : decrement s.pool.size + 1 ≡ s.pool.size =
        omega (arith, parted, whole, small, inv.total, inv.within, inv.bounded) in
      with_block-IsPool s a b (marked b taken e rest false (decrement b.element_count)) front back
        inv (decrement s.pool.size) (refl, refl)
        (marked-IsBlock false (decrement b.element_count) (omega (arith, parted, whole, fewer)))
        (omega (arith, fewer, smaller)) (omega (arith, smaller, inv.within))
