-- ===== src/Pool/RoundTrip.antt =====
-- server/src/pool.h: `free_page` takes back what `alloc_page` did.
use l4rdma.Prelude.{
  set-append, ℕ, ◌^◌, ◌≤◌, ◌<◌, ◌≡◌, ◌≢◌, refl, sym, ap, ◌∙◌, fun_ext, true, false, Option, none,
  some, List, ◌∷◌, ◌++◌, arith, ◌==◌, length, set, inl, inr, Bool-cases,
}
use l4rdma.Run.{Run, ok, ◌>>=◌}
use l4rdma.Pool.{
  Ptr, null, Element, Block, Heap, Store, Slot, increment, decrement, write, load, release_slot,
  alloc_page, free_page,
}
use l4rdma.Pool.Chain.{Cells, Chain, load-ok, not_null}
use l4rdma.Pool.FirstFit.{AllUsed, AllFull, with_used, alloc_page-first_fit, element_at-room}

decrement-increment : (n : ℕ) → n < 2 ^ 64 → decrement (increment n) ≡ n
decrement-increment n small = omega arith

module _ {BD ED : Type 0} where
  pub load-write :
      (h : Heap BD ED) (a : Ptr) (b : Block BD ED) → a ≢ null → load (write h a (some b)) a ≡ ok b
  unfolding load write
  load-write h a b there =
      let same : (a == a) ≡ true = ground arith in rw (not_null there, same) refl

  write-here : (h : Heap BD ED) (a : Ptr) (b : Option (Block BD ED)) → write h a b a ≡ b
  unfolding write
  write-here h a b = let same : (a == a) ≡ true = ground arith in rw same refl

  pub write-write :
      (h : Heap BD ED) (a : Ptr) (b c : Option (Block BD ED))
      → write (write h a b) a c ≡ write h a c
  unfolding write
  write-write h a b c =
      fun_ext λ x. elim (Bool-cases (x == a)) [ inl here ↦ rw here refl | inr away ↦ rw away refl ]

  pub write-same : (h : Heap BD ED) (a : Ptr) (b : Option (Block BD ED)) → h a ≡ b → write h a b ≡ h
  unfolding write
  write-same h a b found = fun_ext λ x. elim (Bool-cases (x == a)) [
    | inl here ↦ let same : x ≡ a = ground arith in rw here (sym found ∙ ap h (sym same))
    | inr away ↦ rw away refl
  ]

module _ {PD BD ED : Type 0} where
  pub release_slot-used :
      (s : Store PD BD ED) (a : Ptr) (b : Block BD ED) (taken : List (Element ED)) (e : Element ED)
      (rest : List (Element ED))
      → a ≢ null
      → e.owner ≡ a
      → s.heap a ≡ some b
      → b.elements ≡ taken ++ e ∷ rest
      → release_slot s (record { home = a; index = length taken })
        ≡ ok (
          record {
            pool = record (s.pool) { size = decrement s.pool.size };
            heap = write s.heap a (
                some (record b {
                  element_count = decrement b.element_count;
                  elements = taken ++ record e { used = false } ∷ rest;
                }));
          },
          a,
          decrement b.element_count,
        )
  unfolding release_slot
  release_slot-used s a b taken e rest there own found parts =
      let fewer : Block BD ED = record b { element_count = decrement b.element_count } in
      let freed : set b.elements (length taken) (record e { used = false })
          ≡ taken ++ record e { used = false } ∷ rest =
        ap (λ es. set es (length taken) (record e { used = false })) parts
        ∙ set-append taken e (record e { used = false }) rest in
      let loaded = load-ok s.heap a b there found in
      rw
        (
          loaded,
          ◌>>=◌,
          element_at-room b taken e rest parts,
          ◌>>=◌,
          own,
          loaded,
          ◌>>=◌,
          load-write s.heap a fewer there,
          ◌>>=◌,
          (rw own at freed),
          write-write,
        )
        refl

  -- `free_page` on the outcome of `alloc_page`; a null pointer is not given back.
  abbrev pub give_back :
      (Store PD BD ED → Ptr → Run (Store PD BD ED))
      → Option Slot × Store PD BD ED
      → Run (Store PD BD ED)
  give_back free_block (found, s) = elim found [
    | none ↦ ok s
    | some slot ↦ free_page free_block s slot
  ]

  pub free_page-kept :
      (free_block : Store PD BD ED → Ptr → Run (Store PD BD ED)) (s s' : Store PD BD ED)
      (slot : Slot) (owner : Ptr) (count : ℕ)
      → release_slot s slot ≡ ok (s', owner, count)
      → 1 ≤ count
      → free_page free_block s slot ≡ ok s'
  unfolding free_page
  free_page-kept free_block s s' slot owner count released busy =
      let kept : (count == 0) ≡ false = ground arith in rw (released, ◌>>=◌, kept) refl

  pub free_page-emptied :
      (free_block : Store PD BD ED → Ptr → Run (Store PD BD ED)) (s s' : Store PD BD ED)
      (slot : Slot) (owner : Ptr) (count : ℕ)
      → release_slot s slot ≡ ok (s', owner, count)
      → (count == 0) ≡ true
      → free_page free_block s slot ≡ free_block s' owner
  unfolding free_page
  free_page-emptied free_block s s' slot owner count released empty =
      rw (released, ◌>>=◌, empty) refl

  module _ (s : Store PD BD ED) (a : Ptr) (b : Block BD ED) (taken : List (Element ED))
      (e : Element ED) (rest : List (Element ED)) (unused : e.used ≡ false)
      (found : s.heap a ≡ some b) (parts : b.elements ≡ taken ++ e ∷ rest)
      (busy : 1 ≤ b.element_count) (few : b.element_count < 2 ^ 64)
      (small : s.pool.size < 2 ^ 64) where
    block_back :
        record b {
          element_count = decrement (increment b.element_count);
          elements = taken ++ record e { used = false } ∷ rest;
        }
        ≡ b
    block_back =
        ap
          (λ n. record b {
            element_count = n;
            elements = taken ++ record e { used = false } ∷ rest;
          })
          (decrement-increment b.element_count few)
        ∙ ap (λ u. record b { elements = taken ++ record e { used = u } ∷ rest }) (sym unused)
        ∙ ap (λ es. record b { elements = es }) (sym parts)

    heap_back :
        (c : Option (Block BD ED))
        → write (write s.heap a c) a (
            some (record b {
              element_count = decrement (increment b.element_count);
              elements = taken ++ record e { used = false } ∷ rest;
            }))
          ≡ s.heap
    heap_back c =
        write-write s.heap a c _
        ∙ ap (λ x. write s.heap a (some x)) block_back
        ∙ write-same s.heap a (some b) found

    free_page-with_used :
        (free_block : Store PD BD ED → Ptr → Run (Store PD BD ED))
        → a ≢ null
        → e.owner ≡ a
        → free_page free_block
            (with_used s a b taken e rest)
            (record { home = a; index = length taken })
          ≡ ok s
    free_page-with_used free_block there own =
        let more : Block BD ED = record b {
          element_count = increment b.element_count;
          elements = taken ++ record e { used = true } ∷ rest;
        } in
        let here : write s.heap a (some more) a ≡ some more = write-here s.heap a (some more) in
        let released =
          release_slot-used (with_used s a b taken e rest) a more taken (record e { used = true })
            rest there own here refl in
        let kept : 1 ≤ decrement (increment b.element_count) =
          omega (arith, decrement-increment b.element_count few) in
        free_page-kept free_block (with_used s a b taken e rest) _ _ _ _ released kept
        ∙ ap
            (λ h. ok (record {
              pool = record (s.pool) { size = decrement (increment s.pool.size) };
              heap = h;
            }))
            (heap_back (some more))
        ∙ ap (λ n. ok (record s { pool = record (s.pool) { size = n } }))
            (decrement-increment s.pool.size small)

  -- Giving back at once what `alloc_page` returned restores the pool and the heap as they were, in
  -- a pool that is not full, where the element comes from a block in use and names it as its owner.
  pub free_page-alloc_page :
      (alloc_block : Store PD BD ED → Run (Store PD BD ED))
      (free_block : Store PD BD ED → Ptr → Run (Store PD BD ED)) (s : Store PD BD ED) (a : Ptr)
      (b : Block BD ED) (taken : List (Element ED)) (e : Element ED) (rest : List (Element ED))
      → (b.element_count < s.pool.block_size) × (1 ≤ b.element_count)
      → (b.elements ≡ taken ++ e ∷ rest) × AllUsed taken × (e.used ≡ false) × (e.owner ≡ a)
      → (s.heap a ≡ some b) × (a ≢ null)
      → (b.element_count < 2 ^ 64) × (s.pool.size < 2 ^ 64)
      → (front back : Cells BD ED) → Chain s.heap null s.pool.start (front ++ (a, b) ∷ back)
      → AllFull s.pool.block_size front
      → s.pool.size ≢ s.pool.max
      → s.pool.block_count ≡ length (front ++ (a, b) ∷ back)
      → (alloc_page alloc_block s >>= give_back free_block) ≡ ok s
  free_page-alloc_page alloc_block free_block s a b taken e rest (room, busy)
        (parts, used, unused, own) (found, there) (few, small) front back ch full open_pool
        counted =
      ap (λ r. r >>= give_back free_block)
        (alloc_page-first_fit alloc_block s a b taken e rest room parts used unused front back ch
          full open_pool counted)
      ∙ free_page-with_used s a b taken e rest unused found parts busy few small free_block there
          own
