-- ===== src/Pool/Returning.antt =====
-- server/src/pool.h: `free_page` on a well-formed pool, as an operation on the set of its used places.
use l4rdma.Prelude.{
  ℕ, ◌≤◌, ◌≡◌, sym, true, false, arith, length, refl, subst, ◌⊎◌, inl, inr, ◌∙◌, Bool-cases, ◌==◌,
  List, ◌∷◌, ◌++◌, All,
}
use l4rdma.Run.{Run, ok, FailsAs, FailsAs-same}
use l4rdma.Pool.{Ptr, null, Element, Block, Store, Slot, decrement, release_slot, free_page}
use l4rdma.Pool.Chain.{Cells}
use l4rdma.Pool.RoundTrip.{release_slot-used, free_page-kept, free_page-emptied}
use l4rdma.Pool.Usage.{
  used_at, count_at, Chain-found, Chain-there, All-middle, element_count-le-total_used,
}
use l4rdma.Pool.Invariant.{IsPool, IsBlock-middle, with_place}
use l4rdma.Pool.Marking.{marked, with_block, with_unused-IsPool, used_at-marked}
use l4rdma.Pool.Discarding.{OffHead, OffHead-middle, Discharge}
use l4rdma.Pool.Room.{Place, find-Place}

-- The block keeps a used element, or it is not the first of several blocks.
abbrev pub Keeps : {BD ED : Type 0} → Cells BD ED → Ptr → Type 0
Keeps bs a = (2 ≤ count_at bs a) ⊎ OffHead bs a

module _ {PD BD ED : Type 0} where
  -- On a well-formed pool, one place is not used any more, and every other place is as before.
  abbrev pub WithoutPlace : Cells BD ED → Slot → Store PD BD ED → Cells BD ED → Type 0
  WithoutPlace bs slot s' bs' =
      IsPool s' bs'
      × ((home : Ptr) (i : ℕ)
          → used_at bs' home i ≡ with_place (used_at bs) slot.home slot.index false home i)

  abbrev pub Returns : Store PD BD ED → Cells BD ED → Slot → Run (Store PD BD ED) → Type 0
  Returns s bs slot r =
      (s' : Store PD BD ED) × (bs' : Cells BD ED) × (r ≡ ok s')
      × WithoutPlace bs slot s' bs'
      × (s'.pool.content ≡ s.pool.content)

  module _ (Refused : Store PD BD ED → Ptr → Type 0)
      (free_block : Store PD BD ED → Ptr → Run (Store PD BD ED)) where
    -- The block has no used element any more, and giving it up is refused.
    abbrev pub Refuses : Cells BD ED → Slot → Run (Store PD BD ED) → Type 0
    Refuses bs slot r =
        (t : Store PD BD ED) × (bs' : Cells BD ED) × WithoutPlace bs slot t bs'
        × Refused t slot.home
        × FailsAs r (free_block t slot.home)

    module _ (gives_up : Discharge Refused free_block) (s : Store PD BD ED) (a : Ptr) where
      -- With the place marked as unused, the block is kept or given up.
      free_page-marked :
          (s' : Store PD BD ED) (i count : ℕ) (bs front back : Cells BD ED) (c : Block BD ED)
          → let slot : Slot = record { home = a; index = i } in
            release_slot s slot ≡ ok (s', a, count)
            → c.element_count ≡ count
            → (1 ≤ count) ⊎ OffHead (front ++ (a, c) ∷ back) a
            → WithoutPlace bs slot s' (front ++ (a, c) ∷ back)
            → s'.pool.content ≡ s.pool.content
            → Returns s bs slot (free_page free_block s slot)
              ⊎ Refuses bs slot (free_page free_block s slot)
      free_page-marked s' i count bs front back c released counted keeps without content =
          let slot : Slot = record { home = a; index = i } in
          elim (Bool-cases (count == 0)) [
            | inr busy ↦ inl (
              s',
              front ++ (a, c) ∷ back,
              free_page-kept free_block s s' slot a count released (ground arith),
              without,
              content,
            )
            | inl empty ↦
                let none_used : c.element_count ≡ 0 = ground (arith, counted) in
                let off : OffHead (front ++ (a, c) ∷ back) a = elim keeps [
                  | inl busy ↦ absurd (ground arith)
                  | inr off ↦ off
                ] in
                let gives = free_page-emptied free_block s s' slot a count released empty in
                elim (gives_up.discards s' front back a c none_used off without.0) [
                  | inl (refused, fails) ↦ inr (
                    s',
                    front ++ (a, c) ∷ back,
                    without,
                    refused,
                    subst (λ r. FailsAs r (free_block s' a)) (sym gives)
                        (FailsAs-same (free_block s' a) fails),
                  )
                  | inr (t, bs', gone, inv, same, kept) ↦
                      inl (
                        t,
                        bs',
                        gives ∙ gone,
                        (inv, λ h i. same h i ∙ without.1 h i),
                        kept ∙ content,
                      )
                ]
          ]

      free_page-split :
          (front back : Cells BD ED) (b : Block BD ED) (taken : List (Element ED)) (e : Element ED)
          (rest : List (Element ED))
          → IsPool s (front ++ (a, b) ∷ back)
          → b.elements ≡ taken ++ e ∷ rest
          → e.used ≡ true
          → (2 ≤ b.element_count) ⊎ OffHead (front ++ (a, b) ∷ back) a
          → let slot : Slot = record { home = a; index = length taken } in
            Returns s (front ++ (a, b) ∷ back) slot (free_page free_block s slot)
            ⊎ Refuses (front ++ (a, b) ∷ back) slot (free_page free_block s slot)
      free_page-split front back b taken e rest inv parts used keeps =
          let count = decrement b.element_count in
          let block = IsBlock-middle s.pool.block_size a b front back inv.blocks in
          let own =
            All-middle (λ x. x.owner ≡ a) taken e rest
              (subst (λ es. All (λ x. x.owner ≡ a) es) parts block.owned) in
          let there = Chain-there s.heap null s.pool.start a b front back inv.chain in
          let found = Chain-found s.heap null s.pool.start a b front back inv.chain in
          let small = element_count-le-total_used front back a b in
          let c = marked b taken e rest false count in
          free_page-marked (with_block s a c (decrement s.pool.size)) (length taken) count
            (front ++ (a, b) ∷ back) front back c
            (release_slot-used s a b taken e rest there own found parts) refl
            (elim keeps [
              | inl busy ↦ inl (omega (arith, busy, small, inv.total, inv.within, inv.bounded))
              | inr off ↦ inr (OffHead-middle front back a b c off)
            ])
            (
              with_unused-IsPool s a b taken e rest front back inv parts used,
              used_at-marked s a b taken e rest front back inv parts false count,
            )
            refl

      free_page-Place :
          (bs : Cells BD ED) (i : ℕ)
          → IsPool s bs
          → Place bs a i
          → Keeps bs a
          → let slot : Slot = record { home = a; index = i } in
            Returns s bs slot (free_page free_block s slot)
            ⊎ Refuses bs slot (free_page free_block s slot)
      free_page-Place bs i inv (front, b, back, taken, e, rest, place, parts, at, used, counted)
            keeps =
          let split =
            free_page-split front back b taken e rest (subst (IsPool s) place inv) parts used
              (elim keeps [
                | inl busy ↦ inl (omega (arith, busy, counted))
                | inr off ↦ inr (subst (λ cells. OffHead cells a) place off)
              ]) in
          let slot : ℕ → Slot = λ k. record { home = a; index = k } in
          subst
            (λ k.
              Returns s bs (slot k) (free_page free_block s (slot k))
              ⊎ Refuses bs (slot k) (free_page free_block s (slot k)))
            at
            (subst
              (λ cells.
                let r = free_page free_block s (slot (length taken)) in
                Returns s cells (slot (length taken)) r ⊎ Refuses cells (slot (length taken)) r)
              (sym place) split)

  -- Giving back a used element of a well-formed pool, in a block that keeps another used one or is
  -- not the first of several blocks, either succeeds: its place is not used any more, every other
  -- place is as before, the pool's own data is too, and the pool is well-formed again. Or the block
  -- has no used element any more, giving it up is refused, and the call fails in the same way.
  pub free_page-Returns :
      (Refused : Store PD BD ED → Ptr → Type 0)
      (free_block : Store PD BD ED → Ptr → Run (Store PD BD ED)) (s : Store PD BD ED)
      (bs : Cells BD ED) (slot : Slot)
      → Discharge Refused free_block
      → IsPool s bs
      → used_at bs slot.home slot.index ≡ true
      → Keeps bs slot.home
      → Returns s bs slot (free_page free_block s slot)
        ⊎ Refuses Refused free_block bs slot (free_page free_block s slot)
  free_page-Returns Refused free_block s bs slot gives_up inv used keeps =
      free_page-Place Refused free_block gives_up s slot.home bs slot.index inv
        (find-Place bs slot.home slot.index used) keeps
