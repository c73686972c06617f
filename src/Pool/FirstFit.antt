-- ===== src/Pool/FirstFit.antt =====
-- server/src/pool.h: `alloc_page` takes the first unused element of the first block with room.
use native.Mathlib.Nat.{add-zero}
use l4rdma.Prelude.{
  ℕ, zero, suc, ◌+◌, ◌≤◌, ◌<◌, ◌≡◌, ◌≢◌, refl, ap, ◌∙◌, true, false, none, some, List, [], ◌∷◌,
  ◌++◌, All, arith, ◌==◌, ltb, length, get_elem?, set, set-append, length-append,
}
use l4rdma.Run.{Run, ok, ◌>>=◌}
use l4rdma.Pool.{
  Ptr, null, Element, Block, Store, increment, write, load, element_at, first_unused, find_slot,
  take_slot, walk, alloc_page,
}
use l4rdma.Pool.Chain.{Cells, Chain, Chain-start, load-ok, not_null}

module _ {ED : Type 0} where
  abbrev pub AllUsed : List (Element ED) → Type 0
  AllUsed es = All (λ e. e.used ≡ true) es

  first_unused-append :
      (i : ℕ) (taken : List (Element ED)) (e : Element ED) (rest : List (Element ED))
      → AllUsed taken
      → e.used ≡ false
      → first_unused i (taken ++ e ∷ rest) ≡ some (i + length taken)
  unfolding first_unused
  first_unused-append i [] e rest used unused = rw (unused, add-zero i) refl
  first_unused-append i (x ∷ taken) e rest used unused =
      let same : i + 1 + length taken ≡ i + suc (length taken) = omega arith in
      rw used.0 (first_unused-append (i + 1) taken e rest used.1 unused ∙ ap some same)

module _ {ℓ} {A : Type ℓ} where
  get_elem?-append :
      (xs : List A) (x : A) (ys : List A) → get_elem? (xs ++ x ∷ ys) (length xs) ≡ some x
  get_elem?-append [] x ys = refl
  get_elem?-append (y ∷ xs) x ys = get_elem?-append xs x ys

module _ {BD ED : Type 0} where
  -- The counts of these blocks say that they have no unused element.
  abbrev pub AllFull : ℕ → Cells BD ED → Type 0
  AllFull block_size bs = All (λ c. block_size ≤ c.1.element_count) bs

  pub element_at-room :
      (b : Block BD ED) (taken : List (Element ED)) (e : Element ED) (rest : List (Element ED))
      → b.elements ≡ taken ++ e ∷ rest
      → element_at b (length taken) ≡ ok e
  unfolding element_at
  element_at-room b taken e rest parts =
      let here : get_elem? b.elements (length taken) ≡ some e =
        ap (λ es. get_elem? es (length taken)) parts ∙ get_elem?-append taken e rest in
      rw (element_at, here) refl

module _ {PD BD ED : Type 0} where
  -- The pool with the element at `slot`, in block `b`, used.
  abbrev pub with_used :
      Store PD BD ED
      → (a : Ptr) (b : Block BD ED) (taken : List (Element ED)) (e : Element ED) → List (Element ED)
      → Store PD BD ED
  with_used s a b taken e rest =
      let block : Block BD ED = record b {
        element_count = increment b.element_count;
        elements = taken ++ record e { used = true } ∷ rest;
      } in
      record {
        pool = record (s.pool) { size = increment s.pool.size };
        heap = write s.heap a (some block);
      }

  pub find_slot-full :
      (s : Store PD BD ED) (b : Block BD ED)
      → s.pool.block_size ≤ b.element_count
      → find_slot s b ≡ none
  unfolding find_slot
  find_slot-full s b full = ground arith

  find_slot-room :
      (s : Store PD BD ED) (b : Block BD ED) (taken : List (Element ED)) (e : Element ED)
      (rest : List (Element ED))
      → b.element_count < s.pool.block_size
      → b.elements ≡ taken ++ e ∷ rest
      → AllUsed taken
      → e.used ≡ false
      → find_slot s b ≡ some (length taken)
  unfolding find_slot
  find_slot-room s b taken e rest room parts used unused =
      let test : ltb b.element_count s.pool.block_size ≡ true = ground arith in
      rw (test, parts) (first_unused-append 0 taken e rest used unused ∙ ap some (omega arith))

  module _ (alloc_block : Store PD BD ED → Run (Store PD BD ED)) (s : Store PD BD ED) where
    pub walk-passed :
        (fuel p : ℕ) (c : Block BD ED)
        → load s.heap p ≡ ok c
        → find_slot s c ≡ none
        → c.next ≢ null
        → walk alloc_block (suc fuel) s p ≡ walk alloc_block fuel s c.next
    unfolding walk
    walk-passed fuel p c here full more = rw (here, ◌>>=◌, full, not_null more, here, ◌>>=◌) refl

  module _ (alloc_block : Store PD BD ED → Run (Store PD BD ED)) (s : Store PD BD ED) (a : Ptr)
      (b : Block BD ED) (taken : List (Element ED)) (e : Element ED) (rest : List (Element ED))
      (room : b.element_count < s.pool.block_size) (parts : b.elements ≡ taken ++ e ∷ rest)
      (used : AllUsed taken) (unused : e.used ≡ false) where
    take_slot-room :
        take_slot s a b (length taken) e
        ≡ (record { home = a; index = length taken }, with_used s a b taken e rest)
    unfolding take_slot
    take_slot-room =
        let after : set b.elements (length taken) (record e { used = true })
            ≡ taken ++ record e { used = true } ∷ rest =
          ap (λ es. set es (length taken) (record e { used = true })) parts
          ∙ set-append taken e (record e { used = true }) rest in
        rw after refl

    walk-taken :
        (fuel p i : ℕ) (c : Block BD ED) (x : Element ED)
        → load s.heap p ≡ ok c
        → find_slot s c ≡ some i
        → element_at c i ≡ ok x
        → walk alloc_block (suc fuel) s p ≡ ok (take_slot s p c i x)
    unfolding walk
    walk-taken fuel p i c x here slot element = cc (here, slot, element)

    pub walk-first_fit :
        (fuel : ℕ) (prev p : Ptr) (front back : Cells BD ED)
        → Chain s.heap prev p (front ++ (a, b) ∷ back)
        → AllFull s.pool.block_size front
        → length front < fuel
        → walk alloc_block fuel s p
          ≡ ok (record { home = a; index = length taken }, with_used s a b taken e rest)
    walk-first_fit zero prev p front back ch full enough = absurd (omega arith)
    walk-first_fit (suc fuel) prev p [] back ch full enough =
        ap (walk alloc_block (suc fuel) s) ch.0
        ∙ walk-taken fuel a (length taken) b e (load-ok s.heap a b ch.1 ch.2)
            (find_slot-room s b taken e rest room parts used unused)
            (element_at-room b taken e rest parts)
        ∙ ap ok take_slot-room
    walk-first_fit (suc fuel) prev p ((x, c) ∷ front) back ch full enough =
        ap (walk alloc_block (suc fuel) s) ch.0
        ∙ walk-passed alloc_block s fuel x c (load-ok s.heap x c ch.1 ch.2)
            (find_slot-full s c full.0) (Chain-start s.heap x c.next a b front back ch.5)
        ∙ walk-first_fit fuel x c.next front back ch.5 full.1 (omega arith)

    -- In a pool that is not full, whose blocks stand in the list and are counted, `alloc_page`
    -- returns the first unused element of the first block with room; that element, the count of
    -- its block and the size of the pool are changed, and nothing else.
    pub alloc_page-first_fit :
        (front back : Cells BD ED)
        → Chain s.heap null s.pool.start (front ++ (a, b) ∷ back)
        → AllFull s.pool.block_size front
        → s.pool.size ≢ s.pool.max
        → s.pool.block_count ≡ length (front ++ (a, b) ∷ back)
        → alloc_page alloc_block s
          ≡ ok (some (record { home = a; index = length taken }), with_used s a b taken e rest)
    unfolding alloc_page
    alloc_page-first_fit front back ch full open_pool counted =
        let many = length-append front ((a, b) ∷ back) in
        let not_max : (s.pool.size == s.pool.max) ≡ false = ground arith in
        let not_empty : (s.pool.block_count == 0) ≡ false = ground arith in
        rw
          (
            not_max,
            not_empty,
            walk-first_fit (s.pool.block_count + 2) null s.pool.start front back ch full
                (omega arith),
          )
          refl
