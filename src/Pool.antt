-- ===== src/Pool.antt =====
-- server/src/pool.h: the pool allocator. Blocks of elements stand in a doubly linked list on the
-- heap. Each operation holds the pool's lock from its first line to its return, so it is one step.

pub mod Blocks
pub mod Chain
pub mod Discarding
pub mod FirstFit
pub mod Growing
pub mod Invariant
pub mod Marking
pub mod Relink
pub mod Removal
pub mod Returning
pub mod Room
pub mod RoundTrip
pub mod Supply
pub mod Taking
pub mod Unlinking
pub mod Usage
use l4rdma.Prelude.{
  ℕ, zero, suc, ◌+◌, ◌-◌, ◌%◌, ◌^◌, Bool, true, false, Option, none, some, List, [], ◌∷◌, ltb, ◌==◌,
  if◌then◌else◌, get_elem?, set,
}
use l4rdma.Run.{Run, ok, throw, out_of_fuel, fault, ◌>>=◌}

abbrev pub Ptr : Type 0
Ptr = ℕ

abbrev pub null : Ptr
null = 0

-- `owner` is the field `block`.
pub record Element (ED : Type 0) : Type 0 where
  pub used : Bool
  pub content : ED
  pub owner : Ptr

-- `elements` is the array at `start`.
pub record Block (BD ED : Type 0) : Type 0 where
  pub element_count : ℕ
  pub next : Ptr
  pub prev : Ptr
  pub content : BD
  pub elements : List (Element ED)

pub record Pool (PD : Type 0) : Type 0 where
  pub max : ℕ
  pub size : ℕ
  pub block_size : ℕ
  pub block_count : ℕ
  pub content : PD
  pub start : Ptr
  pub end : Ptr

abbrev pub Heap : Type 0 → Type 0 → Type 0
Heap BD ED = Ptr → Option (Block BD ED)

pub record Store (PD BD ED : Type 0) : Type 0 where
  pub pool : Pool PD
  pub heap : Heap BD ED

-- A pointer to an element: `index` in the array of block `home`.
pub record Slot : Type 0 where
  pub home : Ptr
  pub index : ℕ

abbrev pub increment : ℕ → ℕ
increment n = (n + 1) % 2 ^ 64

abbrev pub decrement : ℕ → ℕ
decrement n = (n + (2 ^ 64 - 1)) % 2 ^ 64

-- What `malloc` gives: an address, and memory with any content.
pub record Malloc (BD ED : Type 0) : Type 0 where
  pub address : Heap BD ED → Ptr
  pub raw_content : BD
  pub raw_elements : ℕ → List (Element ED)

module _ {BD ED : Type 0} where
  unfoldable pub write : Heap BD ED → Ptr → Option (Block BD ED) → Heap BD ED
  write h p c a = if a == p then c else h a

  unfoldable pub load : Heap BD ED → Ptr → Run (Block BD ED)
  load h p = if p == null then throw fault else elim (h p) [ none ↦ throw fault | some b ↦ ok b ]

  unfoldable pub element_at : Block BD ED → ℕ → Run (Element ED)
  element_at b i = elim (get_elem? b.elements i) [ none ↦ throw fault | some e ↦ ok e ]

-- The first element that is not used, from index `i` on.
unfoldable pub first_unused : {ED : Type 0} → ℕ → List (Element ED) → Option ℕ
first_unused i [] = none
first_unused i (e ∷ es) = if e.used then first_unused (i + 1) es else some i

module _ {PD BD ED : Type 0} where
  unfoldable pub create_block : Malloc BD ED → Store PD BD ED → Run (Ptr × Store PD BD ED)
  create_block malloc s =
      let b = malloc.address s.heap in
      let raw : Block BD ED = record {
        element_count = 0;
        next = null;
        prev = null;
        content = malloc.raw_content;
        elements = malloc.raw_elements s.pool.block_size;
      } in
      if b == null then throw fault else ok (b, record s { heap = write s.heap b (some raw) })

  unfoldable pub add_block_to_pool : Store PD BD ED → Ptr → Run (Store PD BD ED)
  add_block_to_pool s b =
      let p = s.pool in
      let count = increment p.block_count in
      if p.start == null
      then ok (record s { pool = record p { start = b; end = b; block_count = count } })
      else do
        last ← load s.heap p.end
        let h₁ = write s.heap p.end (some (record last { next = b }))
        new ← load h₁ b
        let h₂ = write h₁ b (some (record new { prev = p.end }))
        ok (record { pool = record p { end = b; block_count = count }; heap = h₂ })

  -- The list without block `b`, before the count is changed.
  unfoldable pub unlink_block : Store PD BD ED → Block BD ED → Run (Store PD BD ED)
  unlink_block s b =
      if b.prev == null
      then ok
          (record s { pool = record (s.pool) { start = if b.next == null then null else b.next } })
      else if b.next == null
      then (do
        before ← load s.heap b.prev
        let h = write s.heap b.prev (some (record before { next = null }))
        ok (record { pool = record (s.pool) { end = b.prev }; heap = h }))
      else do
        before ← load s.heap b.prev
        let h₁ = write s.heap b.prev (some (record before { next = b.next }))
        after ← load h₁ b.next
        ok (record s { heap = write h₁ b.next (some (record after { prev = b.prev })) })

  unfoldable pub remove_block_from_pool : Store PD BD ED → Ptr → Run (Store PD BD ED)
  unfolding unlink_block
  remove_block_from_pool s b = do
    block ← load s.heap b
    s' ← unlink_block s block
    ok (record s' { pool = record (s'.pool) { block_count = decrement s'.pool.block_count } })

  -- `free(b->start); free(b);`
  unfoldable pub destroy_block : Store PD BD ED → Ptr → Run (Store PD BD ED)
  destroy_block s b = do block ← load s.heap b; ok (record s { heap = write s.heap b none })

  -- The pool, the block and the element are marked.
  unfoldable pub take_slot :
      Store PD BD ED → Ptr → Block BD ED → ℕ → Element ED → Slot × Store PD BD ED
  take_slot s b block i e =
      let taken = record block {
        element_count = increment block.element_count;
        elements = set block.elements i (record e { used = true });
      } in
      (
        record { home = b; index = i },
        record {
          pool = record (s.pool) { size = increment s.pool.size };
          heap = write s.heap b (some taken);
        },
      )

  -- An unused element of the block, if its count says that there is one.
  unfoldable pub find_slot : Store PD BD ED → Block BD ED → Option ℕ
  find_slot s block =
      if ltb block.element_count s.pool.block_size then first_unused 0 block.elements else none

  -- The marks of `take_slot` taken back, in the block that the element names; with that block
  -- and the number of its elements that are still used.
  unfoldable pub release_slot : Store PD BD ED → Slot → Run (Store PD BD ED × Ptr × ℕ)
  release_slot s slot = do
    home ← load s.heap slot.home
    e ← element_at home slot.index
    block ← load s.heap e.owner
    let count = decrement block.element_count
    let h₁ = write s.heap e.owner (some (record block { element_count = count }))
    home' ← load h₁ slot.home
    let unused = set home'.elements slot.index (record e { used = false })
    let h₂ = write h₁ slot.home (some (record home' { elements = unused }))
    let p = record (s.pool) { size = decrement s.pool.size }
    ok (record { pool = p; heap = h₂ }, e.owner, count)

  unfoldable pub free_page :
      (Store PD BD ED → Ptr → Run (Store PD BD ED)) → Store PD BD ED → Slot → Run (Store PD BD ED)
  unfolding release_slot
  free_page free_block s slot = do
    (s', owner, count) ← release_slot s slot
    if count == 0 then free_block s' owner else ok s'

  module _ (alloc_block : Store PD BD ED → Run (Store PD BD ED)) where
    -- The walk along the blocks, which adds one at the end of the list.
    unfoldable pub walk : ℕ → Store PD BD ED → Ptr → Run (Slot × Store PD BD ED)
    walk zero s b = out_of_fuel
    walk (suc fuel) s b = do
      block ← load s.heap b
      elim (find_slot s block) [
        | some i ↦ do e ← element_at block i; ok (take_slot s b block i e)
        | none ↦ do
          s' ← (if block.next == null then alloc_block s else ok s)
          block' ← load s'.heap b
          walk fuel s' block'.next
      ]

    -- `none` is the null pointer of a pool that is full. The walk visits each block once, and the
    -- one that it may add.
    unfoldable pub alloc_page : Store PD BD ED → Run (Option Slot × Store PD BD ED)
    unfolding walk take_slot find_slot
    alloc_page s = if s.pool.size == s.pool.max then ok (none, s) else do
      s' ← (if s.pool.block_count == 0 then alloc_block s else ok s)
      (slot, s'') ← walk (s'.pool.block_count + 2) s' s'.pool.start
      ok (some slot, s'')
