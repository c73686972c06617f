-- ===== src/Pool/Chain.antt =====
-- server/src/pool.h: the doubly linked list of blocks, as the list of its addresses and blocks.
use l4rdma.Prelude.{
  ◌≡◌, ◌≢◌, refl, sym, ap, ◌∙◌, inl, inr, Bool, false, ◌||◌, Option, true, none, some, List, [],
  ◌∷◌, ◌++◌, arith, ◌==◌, if◌then◌else◌, Bool-cases,
}
use l4rdma.Run.{ok, throw, fault}
use l4rdma.Pool.{Ptr, null, Block, Heap, write, load}

abbrev pub Cells : Type 0 → Type 0 → Type 0
Cells BD ED = List (Ptr × Block BD ED)

module _ {BD ED : Type 0} where
  abbrev pub has : Ptr → Cells BD ED → Bool
  has a [] = false
  has a ((x, _) ∷ r) = (a == x) || has a r

  -- From `p` on, with `prev` before it, the blocks `bs` stand in a list that ends with null.
  abbrev pub Chain : Heap BD ED → (prev p : Ptr) → Cells BD ED → Type 0
  Chain h prev p [] = p ≡ null
  Chain h prev p ((a, b) ∷ r) =
      (p ≡ a)
      × (a ≢ null)
      × (h a ≡ some b)
      × (b.prev ≡ prev)
      × (has a r ≡ false)
      × Chain h a b.next r

  abbrev pub last_of : Ptr → Cells BD ED → Ptr
  last_of prev [] = prev
  last_of prev ((a, b) ∷ r) = last_of a r

  -- Another block at the same address.
  abbrev pub replace : Ptr → Block BD ED → Cells BD ED → Cells BD ED
  replace a c [] = []
  replace a c ((x, b) ∷ r) = (x, if x == a then c else b) ∷ replace a c r

  pub has-replace :
      (x a : Ptr) (c : Block BD ED) (bs : Cells BD ED) → has x (replace a c bs) ≡ has x bs
  has-replace x a c [] = refl
  has-replace x a c ((y, b) ∷ r) = ground (arith, has-replace x a c r)

  -- A change elsewhere does not touch the list.
  pub Chain-frame :
      (h : Heap BD ED) (prev p a : Ptr) (c : Option (Block BD ED)) (bs : Cells BD ED)
      → has a bs ≡ false
      → Chain h prev p bs
      → Chain (write h a c) prev p bs
  unfolding write
  Chain-frame h prev p a c [] out ch = ch
  Chain-frame h prev p a c ((x, b) ∷ r) out ch = ground (arith, Chain-frame h x b.next a c r)

  -- A block that keeps its pointers may be replaced.
  pub Chain-replace :
      (h : Heap BD ED) (prev p a : Ptr) (b c : Block BD ED) (bs : Cells BD ED)
      → h a ≡ some b
      → c.next ≡ b.next
      → c.prev ≡ b.prev
      → Chain h prev p bs
      → Chain (write h a (some c)) prev p (replace a c bs)
  Chain-replace h prev p a b c [] e n v ch = ch
  Chain-replace h prev p a b c ((x, d) ∷ r) e n v ch =
      let rest = Chain-replace h x d.next a b c r e n v ch.5 in
      let apart = has-replace x a c r in
      elim (Bool-cases (x == a)) [
        | inl here ↦
            let same : x ≡ a = ground arith in
            let block : d ≡ b = cc (ap h same, ch.2) in
            rw here (
              ch.0,
              ch.1,
              unfold write in rw here refl,
              v ∙ ap (λ k. k.prev) (sym block) ∙ ch.3,
              apart ∙ ch.4,
              rw (n, ← block) rest,
            )
        | inr away ↦ rw away (ch.0, ch.1, (unfold write in rw away ch.2), ch.3, apart ∙ ch.4, rest)
      ]

pub not_null : {p : Ptr} → p ≢ null → (p == null) ≡ false
not_null there = ground arith

module _ {BD ED : Type 0} where
  pub load-ok :
      (h : Heap BD ED) (p : Ptr) (b : Block BD ED) → p ≢ null → h p ≡ some b → load h p ≡ ok b
  unfolding load
  load-ok h p b there found = rw (not_null there, found) refl

  -- A list with a block in it starts at an address.
  pub Chain-start :
      (h : Heap BD ED) (prev p a : Ptr) (b : Block BD ED) (front back : Cells BD ED)
      → Chain h prev p (front ++ (a, b) ∷ back)
      → p ≢ null
  Chain-start h prev p a b [] back ch none_left = ch.1 (sym ch.0 ∙ none_left)
  Chain-start h prev p a b ((x, c) ∷ r) back ch none_left = ch.1 (sym ch.0 ∙ none_left)

  pub load-other :
      (h : Heap BD ED) (a b : Ptr) (y : Block BD ED)
      → (a == b) ≡ false
      → b ≢ null
      → h b ≡ some y
      → load (write h a none) b ≡ ok y
  unfolding write
  load-other h a b y apart there found =
      let other : (b == a) ≡ false = ground arith in
      load-ok (write h a none) b y there (rw other found)

  pub load-removed : (h : Heap BD ED) (a : Ptr) → a ≢ null → load (write h a none) a ≡ throw fault
  unfolding load write
  load-removed h a there =
      let same : (a == a) ≡ true = ground arith in rw (not_null there, same) refl
