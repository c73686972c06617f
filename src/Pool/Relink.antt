-- ===== src/Pool/Relink.antt =====
-- server/src/pool.h: the list of blocks with one block taken out of it, and the blocks on both sides
-- of it pointing at each other.
use l4rdma.Prelude.{
  ℕ, ◌+◌, ◌≡◌, refl, sym, ◌∙◌, ap, Bool, false, ◌||◌, [], ◌∷◌, ◌++◌, arith, ◌==◌, length, inl, inr,
  Bool-cases,
}
use l4rdma.Pool.{Ptr, Block}
use l4rdma.Pool.Chain.{Cells, has, last_of}
use l4rdma.Pool.Usage.{used_at, count_used, total_used, is_used-none}
use l4rdma.Pool.Invariant.{AllBlocks, Ends, link}

module _ {BD ED : Type 0} where
  -- The blocks with the first one pointing back to `v`.
  abbrev pub behind : Ptr → Cells BD ED → Cells BD ED
  behind v [] = []
  behind v ((y, d) ∷ r) = (y, record d { prev = v }) ∷ r

  -- The list `front ++ (a, b) ∷ back` without the block `b`.
  abbrev pub relinked : (front : Cells BD ED) → Block BD ED → (back : Cells BD ED) → Cells BD ED
  relinked front b back = link b.next front ++ behind b.prev back

  abbrev pub first_at : Ptr → Cells BD ED → Bool
  first_at z [] = false
  first_at z ((y, d) ∷ r) = z == y

  pub has-append :
      (z : Ptr) (front back : Cells BD ED) → has z (front ++ back) ≡ (has z front || has z back)
  has-append z [] back = refl
  has-append z ((x, c) ∷ r) back = ground (arith, has-append z r back)

  has-behind : (z v : Ptr) (back : Cells BD ED) → has z (behind v back) ≡ has z back
  has-behind z v [] = refl
  has-behind z v ((y, d) ∷ r) = refl

  pub has-relinked :
      (z n v : Ptr) (front back : Cells BD ED)
      → has z (link n front ++ behind v back) ≡ (has z front || has z back)
  has-relinked z n v [] back = has-behind z v back
  has-relinked z n v ((x, c) ∷ []) back = ground (arith, has-behind z v back)
  has-relinked z n v ((x, c) ∷ (d ∷ r)) back = ground (arith, has-relinked z n v (d ∷ r) back)

  pub length-relinked :
      (n v a : Ptr) (b : Block BD ED) (front back : Cells BD ED)
      → length (link n front ++ behind v back) + 1 ≡ length (front ++ (a, b) ∷ back)
  length-relinked n v a b [] [] = refl
  length-relinked n v a b [] ((y, d) ∷ r) = omega arith
  length-relinked n v a b ((x, c) ∷ []) [] = refl
  length-relinked n v a b ((x, c) ∷ []) ((y, d) ∷ r) = omega arith
  length-relinked n v a b ((x, c) ∷ (d ∷ r)) back =
      omega (arith, length-relinked n v a b (d ∷ r) back)

  pub total_used-relinked :
      (n v a : Ptr) (b : Block BD ED) (front back : Cells BD ED)
      → b.element_count ≡ 0
      → total_used (link n front ++ behind v back) ≡ total_used (front ++ (a, b) ∷ back)
  total_used-relinked n v a b [] [] none_used = omega arith
  total_used-relinked n v a b [] ((y, d) ∷ r) none_used = omega arith
  total_used-relinked n v a b ((x, c) ∷ []) [] none_used = omega arith
  total_used-relinked n v a b ((x, c) ∷ []) ((y, d) ∷ r) none_used = omega arith
  total_used-relinked n v a b ((x, c) ∷ (d ∷ r)) back none_used =
      omega (arith, total_used-relinked n v a b (d ∷ r) back none_used)

  pub AllBlocks-relinked :
      (k n v a : ℕ) (b : Block BD ED) (front back : Cells BD ED)
      → AllBlocks k (front ++ (a, b) ∷ back)
      → AllBlocks k (link n front ++ behind v back)
  AllBlocks-relinked k n v a b [] [] all = tt
  AllBlocks-relinked k n v a b [] ((y, d) ∷ r) (gone, (first, all)) =
      (record { whole = first.whole; counted = first.counted; owned = first.owned }, all)
  AllBlocks-relinked k n v a b ((x, c) ∷ []) back (first, all) = (
    record { whole = first.whole; counted = first.counted; owned = first.owned },
    AllBlocks-relinked k n v a b [] back all,
  )
  AllBlocks-relinked k n v a b ((x, c) ∷ (d ∷ r)) back (first, all) =
      (first, AllBlocks-relinked k n v a b (d ∷ r) back all)

  last_of-relinked :
      (prev n v : Ptr) (front back : Cells BD ED)
      → last_of prev (link n front ++ behind v back) ≡ last_of (last_of prev front) back
  last_of-relinked prev n v [] [] = refl
  last_of-relinked prev n v [] ((y, d) ∷ r) = refl
  last_of-relinked prev n v ((x, c) ∷ []) back = last_of-relinked x n v [] back
  last_of-relinked prev n v ((x, c) ∷ (d ∷ r)) back = last_of-relinked x n v (d ∷ r) back

  pub Ends-relinked :
      (p n v x : Ptr) (c : Block BD ED) (r back : Cells BD ED)
      → p ≡ last_of (last_of x r) back
      → Ends p (link n ((x, c) ∷ r) ++ behind v back)
  Ends-relinked p n v x c [] back e = e ∙ sym (last_of-relinked x n v [] back)
  Ends-relinked p n v x c (d ∷ r) back e = e ∙ sym (last_of-relinked x n v (d ∷ r) back)

  pub last_of-append :
      (prev a : Ptr) (b : Block BD ED) (front back : Cells BD ED)
      → last_of prev (front ++ (a, b) ∷ back) ≡ last_of a back
  last_of-append prev a b [] back = refl
  last_of-append prev a b ((x, c) ∷ r) back = last_of-append x a b r back

  used_at-behind :
      (v h : Ptr) (i : ℕ) (back : Cells BD ED) → used_at (behind v back) h i ≡ used_at back h i
  used_at-behind v h i [] = refl
  used_at-behind v h i ((y, d) ∷ r) = refl

  used_at-out : (h : Ptr) (i : ℕ) (bs : Cells BD ED) → has h bs ≡ false → used_at bs h i ≡ false
  used_at-out h i [] out = refl
  used_at-out h i ((y, d) ∷ r) out = ground (arith, used_at-out h i r)

  -- A block without used elements may be taken out of the set of used places.
  pub used_at-relinked :
      (n v a : Ptr) (b : Block BD ED) (front back : Cells BD ED) (h : Ptr) (i : ℕ)
      → count_used b.elements ≡ 0
      → has a back ≡ false
      → used_at (link n front ++ behind v back) h i ≡ used_at (front ++ (a, b) ∷ back) h i
  used_at-relinked n v a b [] back h i none_used out = elim (Bool-cases (h == a)) [
    | inl here ↦
        let same : h ≡ a = ground arith in
        rw here (
          used_at-behind v h i back
          ∙ used_at-out h i back (ap (λ z. has z back) same ∙ out)
          ∙ sym (is_used-none b.elements i none_used))
    | inr away ↦ rw away (used_at-behind v h i back)
  ]
  used_at-relinked n v a b ((x, c) ∷ []) back h i none_used out =
      ground (arith, used_at-relinked n v a b [] back h i none_used out)
  used_at-relinked n v a b ((x, c) ∷ (d ∷ r)) back h i none_used out =
      ground (arith, used_at-relinked n v a b (d ∷ r) back h i none_used out)
