-- ===== src/Pool/Invariant.antt =====
-- server/src/pool.h: what holds of a pool between two operations, and what a pool relies on where it
-- is given another block.
use l4rdma.Prelude.{
  ℕ, ◌^◌, ◌≤◌, ◌<◌, ◌≡◌, ◌≢◌, refl, sym, ◌∙◌, ◌⊎◌, Bool, ◌&&◌, [], ◌∷◌, ◌++◌, All, ◌==◌,
  if◌then◌else◌, length,
}
use l4rdma.Run.{Run, ok, Fails}
use l4rdma.Pool.{Ptr, null, Block, Store}
use l4rdma.Pool.Chain.{Cells, Chain, last_of}
use l4rdma.Pool.FirstFit.{AllFull}
use l4rdma.Pool.Usage.{count_used, total_used}

module _ {BD ED : Type 0} where
  -- The array has a fixed length, the count is that of its used elements, and each element names
  -- its block.
  pub record IsBlock (block_size : ℕ) (a : Ptr) (b : Block BD ED) : Type 0 where
    pub whole : length b.elements ≡ block_size
    pub counted : count_used b.elements ≡ b.element_count
    pub owned : All (λ e. e.owner ≡ a) b.elements

  abbrev pub AllBlocks : ℕ → Cells BD ED → Type 0
  AllBlocks n bs = All (λ c. IsBlock n c.0 c.1) bs

  -- The end of a list that is empty is undefined.
  abbrev pub Ends : Ptr → Cells BD ED → Type 0
  Ends p [] = Unit
  Ends p ((a, b) ∷ r) = p ≡ last_of a r

module _ {PD BD ED : Type 0} where
  -- The blocks `bs` stand in the list and are counted, their counts make up the size of the pool,
  -- and that is no more than the maximum.
  pub record IsPool (s : Store PD BD ED) (bs : Cells BD ED) : Type 0 where
    pub chain : Chain s.heap null s.pool.start bs
    pub ends : Ends s.pool.end bs
    pub blocks : AllBlocks s.pool.block_size bs
    pub listed : s.pool.block_count ≡ length bs
    pub few : s.pool.block_count < 2 ^ 64
    pub total : s.pool.size ≡ total_used bs
    pub within : s.pool.size ≤ s.pool.max
    pub bounded : s.pool.max < 2 ^ 64
    pub not_trivial : (0 < s.pool.block_size) × (s.pool.block_size < 2 ^ 64)

module _ {BD ED : Type 0} where
  -- The blocks with the last one pointing to `a`.
  abbrev pub link : Ptr → Cells BD ED → Cells BD ED
  link a [] = []
  link a ((x, b) ∷ []) = (x, record b { next = a }) ∷ []
  link a (c ∷ (d ∷ r)) = c ∷ link a (d ∷ r)

module _ {PD BD ED : Type 0} where
  -- One more block, with no element used, stands at the end of the list.
  abbrev pub Added : Store PD BD ED → Cells BD ED → Run (Store PD BD ED) → Type 0
  Added s bs r =
      (s' : Store PD BD ED) × (a : Ptr) × (b : Block BD ED) × (r ≡ ok s')
      × IsPool s' (link a bs ++ (a, b) ∷ [])
      × (b.element_count ≡ 0)
      × (s'.pool.size ≡ s.pool.size)
      × (s'.pool.max ≡ s.pool.max)
      × (s'.pool.block_size ≡ s.pool.block_size)
      × (s'.pool.content ≡ s.pool.content)

  -- What a pool relies on: where it is not full but all its blocks are, the function that it calls
  -- for another block fails or adds one.
  pub record Supply (alloc_block : Store PD BD ED → Run (Store PD BD ED)) : Type 0 where
    pub adds :
        (s : Store PD BD ED) (bs : Cells BD ED)
        → IsPool s bs
        → AllFull s.pool.block_size bs
        → s.pool.size ≢ s.pool.max
        → Fails (alloc_block s) ⊎ Added s bs (alloc_block s)

module _ {BD ED : Type 0} where
  last_of-middle :
      (prev a : Ptr) (b c : Block BD ED) (front back : Cells BD ED)
      → last_of prev (front ++ (a, c) ∷ back) ≡ last_of prev (front ++ (a, b) ∷ back)
  last_of-middle prev a b c [] back = refl
  last_of-middle prev a b c ((x, d) ∷ front) back = last_of-middle x a b c front back

  pub Ends-middle :
      (p a : Ptr) (b c : Block BD ED) (front back : Cells BD ED)
      → Ends p (front ++ (a, b) ∷ back)
      → Ends p (front ++ (a, c) ∷ back)
  Ends-middle p a b c [] back ends = ends
  Ends-middle p a b c ((x, d) ∷ front) back ends = ends ∙ sym (last_of-middle x a b c front back)

-- A set of places with one of them put in or taken out.
abbrev pub with_place : (Ptr → ℕ → Bool) → (home : Ptr) (i : ℕ) → Bool → Ptr → ℕ → Bool
with_place places home i u h j = if (h == home) && (j == i) then u else places h j

module _ {BD ED : Type 0} (n : ℕ) (a : Ptr) (b : Block BD ED) where
  pub All-middle :
      (c : Block BD ED) (front back : Cells BD ED)
      → IsBlock n a c
      → AllBlocks n (front ++ (a, b) ∷ back)
      → AllBlocks n (front ++ (a, c) ∷ back)
  All-middle c [] back good all = (good, all.1)
  All-middle c (x ∷ front) back good all = (all.0, All-middle c front back good all.1)

  pub IsBlock-middle :
      (front back : Cells BD ED) → AllBlocks n (front ++ (a, b) ∷ back) → IsBlock n a b
  IsBlock-middle [] back all = all.0
  IsBlock-middle (x ∷ front) back all = IsBlock-middle front back all.1

-- The data that the pool's client keeps with it is not part of that.
module _ {PD BD ED : Type 0} (s : Store PD BD ED) (content : PD) where
  abbrev pub with_content : Store PD BD ED
  with_content = record s { pool = record (s.pool) { content = content } }

  pub with_content-IsPool : (bs : Cells BD ED) → IsPool s bs → IsPool with_content bs
  with_content-IsPool bs inv = record {
    chain = inv.chain;
    ends = inv.ends;
    blocks = inv.blocks;
    listed = inv.listed;
    few = inv.few;
    total = inv.total;
    within = inv.within;
    bounded = inv.bounded;
    not_trivial = inv.not_trivial;
  }
