-- ===== src/Pool/Room.antt =====
-- server/src/pool.h: `alloc_page` on a pool in which a block has room, as an operation on the set of
-- its used places.
use l4rdma.Prelude.{
  ℕ, zero, suc, ◌<◌, ◌≡◌, ◌≢◌, refl, sym, ap, ◌∙◌, inl, inr, true, false, Option, some, List, [],
  ◌∷◌, ◌++◌, arith, get_elem?, ◌==◌, length, Bool-cases,
}
use l4rdma.Run.{Run, ok}
use l4rdma.Pool.{
  Ptr, increment, Element, Block, Heap, Store, Slot, load, element_at, walk, alloc_page,
}
use l4rdma.Pool.Chain.{Cells, Chain, load-ok}
use l4rdma.Pool.FirstFit.{AllFull, with_used, walk-first_fit, alloc_page-first_fit}
use l4rdma.Pool.Usage.{Room, find-Room, used_at, count_at, is_used}
use l4rdma.Pool.Invariant.{IsPool, IsBlock-middle, with_place}
use l4rdma.Pool.Marking.{marked, with_used-IsPool, used_at-marked, used_at-place}

module _ {PD BD ED : Type 0} where
  -- On a well-formed pool, one place that was not used is used now, and every other place is as
  -- before.
  abbrev pub WithPlace : Cells BD ED → Store PD BD ED → Cells BD ED → Slot → Type 0
  WithPlace bs s' bs' slot =
      IsPool s' bs'
      × (used_at bs slot.home slot.index ≡ false)
      × ((home : Ptr) (i : ℕ)
          → used_at bs' home i ≡ with_place (used_at bs) slot.home slot.index true home i)

  -- The pool's own data is as before, too.
  abbrev pub Taken : Store PD BD ED → Cells BD ED → Store PD BD ED → Cells BD ED → Slot → Type 0
  Taken s bs s' bs' slot = WithPlace bs s' bs' slot × (s'.pool.content ≡ s.pool.content)

  abbrev pub Takes : Store PD BD ED → Cells BD ED → Run (Option Slot × Store PD BD ED) → Type 0
  Takes s bs r =
      (slot : Slot) × (s' : Store PD BD ED) × (bs' : Cells BD ED) × (r ≡ ok (some slot, s'))
      × Taken s bs s' bs' slot

  -- An element of the first block with room is taken.
  module _ (s : Store PD BD ED) (a : Ptr) (b : Block BD ED) (front back : Cells BD ED)
      (inv : IsPool s (front ++ (a, b) ∷ back)) (room : b.element_count < s.pool.block_size) where
    Room-in : Room b.elements
    Room-in =
        let block = IsBlock-middle s.pool.block_size a b front back inv.blocks in
        find-Room b.elements (omega (arith, block.counted, block.whole))

    pub slot_in : Slot
    slot_in = record { home = a; index = length Room-in.0 }

    pub store_in : Store PD BD ED
    store_in = with_used s a b Room-in.0 Room-in.1 Room-in.2

    pub cells_in : Cells BD ED
    cells_in =
        front ++ (a, marked b Room-in.0 Room-in.1 Room-in.2 true (increment b.element_count)) ∷ back

    pub Taken-room :
        s.pool.size ≢ s.pool.max → Taken s (front ++ (a, b) ∷ back) store_in cells_in slot_in
    unfolding slot_in store_in cells_in
    Taken-room open_pool =
        let place = Room-in in
        (
          (
            with_used-IsPool s a b place.0 place.1 place.2 front back inv place.3 place.5 room
                open_pool,
            used_at-place s a b place.0 place.1 place.2 front back inv place.3 ∙ place.5,
            used_at-marked s a b place.0 place.1 place.2 front back inv place.3 true
                (increment b.element_count),
          ),
          refl,
        )

    pub alloc_page-room :
        (alloc_block : Store PD BD ED → Run (Store PD BD ED))
        → AllFull s.pool.block_size front
        → s.pool.size ≢ s.pool.max
        → Takes s (front ++ (a, b) ∷ back) (alloc_page alloc_block s)
    unfolding slot_in store_in
    alloc_page-room alloc_block full open_pool =
        let place = Room-in in
        (
          slot_in,
          store_in,
          cells_in,
          alloc_page-first_fit alloc_block s a b place.0 place.1 place.2 room place.3 place.4
              place.5 front back inv.chain full open_pool inv.listed,
          Taken-room open_pool,
        )

    -- From a block on, whatever the blocks before it are.
    pub walk-room :
        (alloc_block : Store PD BD ED → Run (Store PD BD ED)) (fuel prev : ℕ)
        → Chain s.heap prev a ((a, b) ∷ [])
        → 0 < fuel
        → walk alloc_block fuel s a ≡ ok (slot_in, store_in)
    unfolding slot_in store_in
    walk-room alloc_block fuel prev ch enough =
        let place = Room-in in
        walk-first_fit alloc_block s a b place.0 place.1 place.2 room place.3 place.4 place.5 fuel
          prev a [] [] ch tt enough

module _ {ED : Type 0} where
  element_used :
      (es : List (Element ED)) (i : ℕ)
      → is_used es i ≡ true
      → (e : Element ED) × (get_elem? es i ≡ some e) × (e.used ≡ true)
  element_used [] i used = cc
  element_used (e ∷ es) zero used = (e, refl, used)
  element_used (e ∷ es) (suc i) used = element_used es i used

  element_split :
      (es : List (Element ED)) (i : ℕ)
      → is_used es i ≡ true
      → (taken : List (Element ED)) × (e : Element ED) × (rest : List (Element ED)) × (es
          ≡ taken ++ e ∷ rest)
        × (length taken ≡ i)
        × (e.used ≡ true)
  element_split [] i used = cc
  element_split (e ∷ es) zero used = ([], e, es, refl, refl, used)
  element_split (e ∷ es) (suc i) used =
      let later = element_split es i used in
      (e ∷ later.0, later.1, later.2, ap (λ z. e ∷ z) later.3, ap suc later.4, later.5)

module _ {BD ED : Type 0} where
  -- The element of a used place can be read.
  pub place_used :
      (h : Heap BD ED) (prev p : Ptr) (bs : Cells BD ED) (home : Ptr) (i : ℕ)
      → Chain h prev p bs
      → used_at bs home i ≡ true
      → (b : Block BD ED) × (e : Element ED) × (load h home ≡ ok b)
        × (element_at b i ≡ ok e)
        × (e.used ≡ true)
  unfolding element_at
  place_used h prev p [] home i ch used = cc
  place_used h prev p ((a, b) ∷ r) home i ch used = elim (Bool-cases (home == a)) [
    | inl here ↦
        let same : home ≡ a = ground arith in
        let (e, found, marked_used) = element_used b.elements i (rw here at used) in
        (b, e, rw same (load-ok h a b ch.1 ch.2), rw (element_at, found) refl, marked_used)
    | inr away ↦ place_used h a b.next r home i ch.5 (rw away at used)
  ]

  -- Where a used place is.
  abbrev pub Place : Cells BD ED → (home : Ptr) (i : ℕ) → Type 0
  Place bs home i =
      (front : Cells BD ED) × (b : Block BD ED) × (back : Cells BD ED) × (taken : List (Element ED))
      × (e : Element ED) × (rest : List (Element ED)) × (bs ≡ front ++ (home, b) ∷ back)
      × (b.elements ≡ taken ++ e ∷ rest)
      × (length taken ≡ i)
      × (e.used ≡ true)
      × (count_at bs home ≡ b.element_count)

  pub find-Place :
      (bs : Cells BD ED) (home : Ptr) (i : ℕ) → used_at bs home i ≡ true → Place bs home i
  find-Place [] home i used = cc
  find-Place ((a, b) ∷ r) home i used = elim (Bool-cases (home == a)) [
    | inl here ↦
        let same : home ≡ a = ground arith in
        let (taken, e, rest, parts, whole, in_use) = element_split b.elements i (rw here at used) in
        (
          [],
          b,
          r,
          taken,
          e,
          rest,
          ap (λ z. (z, b) ∷ r) (sym same),
          parts,
          whole,
          in_use,
          rw here refl,
        )
    | inr away ↦
        let later = find-Place r home i (rw away at used) in
        (
          (a, b) ∷ later.0,
          later.1,
          later.2,
          later.3,
          later.4,
          later.5,
          ap (λ z. (a, b) ∷ z) later.6,
          later.7,
          later.8,
          later.9,
          rw away later.10,
        )
  ]
