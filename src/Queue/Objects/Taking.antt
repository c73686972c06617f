-- ===== src/Queue/Objects/Taking.antt =====
-- server/src/queue.cc: `alloc_queue` on well-formed pools of queue objects and of region pages.
use l4rdma.Prelude.{
  ℕ, ◌*◌, ◌%◌, ◌^◌, ◌<◌, ◌≡◌, refl, ap, ◌∙◌, ◌⊎◌, inl, inr, true, Option, none, some, arith, ltb,
  Bool-cases,
}
use l4rdma.Run.{
  Run, ok, Fails, Fails-bind, Fails-first, FailsAs, FailsAs-ok, Run-cases, store_words, ◌>>=◌,
}
use l4rdma.Dma.{DmaMem, hca_page_size}
use l4rdma.Pool.{Heap, Store, Slot, alloc_page}
use l4rdma.Pool.Chain.{Cells}
use l4rdma.Pool.Blocks.{IsMalloc}
use l4rdma.Pool.Usage.{used_at}
use l4rdma.Pool.Invariant.{IsPool, Supply}
use l4rdma.Pool.Room.{WithPlace, Takes, place_used}
use l4rdma.Pool.Taking.{alloc_page-Takes}
use l4rdma.Mem.{alloc_dma_mem}
use l4rdma.Uar.{Uar, UarStore, take_region}
use l4rdma.Uar.{alloc_block as alloc_regions}
use l4rdma.Uar.Supply.{alloc_block-Supply as alloc_regions-Supply}
use l4rdma.Queue.Objects.{
  QueueObj, QueueStore, QueueServices, page_count, pas_words, not_null, object_at, alloc_block,
  alloc_queue,
}
use l4rdma.Queue.Objects.Addresses.{store_words-pas_words, store_words-pas_words-Fails}
use l4rdma.Queue.Objects.Supply.{alloc_block-Supply}
use l4rdma.Queue.Objects.Contents.{put_object-Puts}

FailsAs-Fails : {X Y : Type 0} (r : Run X) (r' : Run Y) → FailsAs r r' → Fails r
FailsAs-Fails r r' same = elim (Run-cases r) [
  | inl done ↦ done
  | inr (x, gives) ↦ absurd (FailsAs-ok r r' x same gives)
]

module _ {PD BD ED : Type 0} where
  -- The pool is full, or another block cannot be had.
  abbrev pub NoRoom : (Store PD BD ED → Run (Store PD BD ED)) → Store PD BD ED → Type 0
  NoRoom alloc_block s = (s.pool.size ≡ s.pool.max) ⊎ Fails (alloc_block s)

  -- `alloc_page` fails or returns a null pointer.
  abbrev NoPlace : Run (Option Slot × Store PD BD ED) → Type 0
  NoPlace r = Fails r ⊎ ((s' : Store PD BD ED) × (r ≡ ok (none, s')))

  alloc_page-places :
      (alloc_block : Store PD BD ED → Run (Store PD BD ED)) (s : Store PD BD ED) (bs : Cells BD ED)
      → Supply alloc_block
      → IsPool s bs
      → (NoRoom alloc_block s × NoPlace (alloc_page alloc_block s))
        ⊎ Takes s bs (alloc_page alloc_block s)
  alloc_page-places alloc_block s bs supply inv =
      elim (alloc_page-Takes alloc_block s bs supply inv) [
        | inl (full, gives) ↦ inl (inl full, inr (s, gives))
        | inr (inl (_, fails, same)) ↦
            inl (inr fails, inl (FailsAs-Fails (alloc_page alloc_block s) (alloc_block s) same))
        | inr (inr taken) ↦ inr taken
      ]

module _ {C : Type 0} where
  -- The ring is the memory from its start on, it is empty, and the list has its pages.
  abbrev pub IsRing : (size pages : ℕ) → QueueObj C → Type 0
  IsRing size pages obj =
      (obj.queue.start ≡ obj.queue.dma_mem.virt)
      × (obj.queue.size ≡ size)
      × (obj.queue.head ≡ 0)
      × (obj.pas_list ≡ pas_words obj.queue.dma_mem.phys 0 pages)

  -- An object and a region that were not used are used, and nothing else is changed in the pools.
  abbrev pub Allocates :
      QueueStore C
      → Cells (Unit {0}) (QueueObj C)
      → Cells (Unit {0}) Uar
      → (size : ℕ) → Run (Slot × QueueStore C × UarStore)
      → Type 0
  Allocates s bs us size r =
      (slot : Slot) × (obj : QueueObj C) × (s' : QueueStore C) × (bs' : Cells (Unit {0})
        (QueueObj C))
      × (regions' : UarStore) × (us' : Cells (Unit {0}) Uar) × (r ≡ ok (slot, s', regions'))
      × WithPlace bs s' bs' slot
      × WithPlace us regions' us' obj.uarp
      × (s'.pool.content ≡ s.pool.content)
      × (object_at s' slot ≡ ok obj)
      × IsRing size (page_count s.pool.content.page_entry_count size) obj

  module _ (l4 : QueueServices C) (s : QueueStore C) (regions : UarStore) (size : ℕ) where
    abbrev pages : ℕ
    pages = page_count s.pool.content.page_entry_count size

    abbrev memory : Heap (Unit {0}) (QueueObj C) → Run DmaMem
    memory h = alloc_dma_mem l4.superpage_shift (l4.grant h) (hca_page_size * pages % 2 ^ 32)

    -- One of the pools has no room, the kernel gives no memory, or the list has too few words.
    abbrev pub Lacks : Type 0
    Lacks =
        NoRoom (alloc_block l4) s
        ⊎ NoRoom (alloc_regions l4.regions) regions
        ⊎ ((h : Heap (Unit {0}) (QueueObj C)) × Fails (memory h))
        ⊎ (l4.malloc_words pages < 2 * pages)

    no_object : NoPlace (alloc_page (alloc_block l4) s) → Fails (alloc_queue l4 s regions size)
    unfolding alloc_queue not_null
    no_object (inl fails) = Fails-first (alloc_page (alloc_block l4) s) _ fails
    no_object (inr (s₁, gives)) =
        rw (gives, ◌>>=◌) (Fails-bind (take_region l4.regions regions) _ (λ y. refl))

    no_region :
        (slot : Slot) (s₁ : QueueStore C)
        → alloc_page (alloc_block l4) s ≡ ok (some slot, s₁)
        → NoPlace (take_region l4.regions regions)
        → Fails (alloc_queue l4 s regions size)
    unfolding alloc_queue not_null
    no_region slot s₁ gives (inl fails) =
        rw (gives, ◌>>=◌) (Fails-first (take_region l4.regions regions) _ fails)
    no_region slot s₁ gives (inr (regions₁, gives')) = rw (gives, ◌>>=◌, gives', ◌>>=◌) refl

    -- With an object and a region, the memory and the room in the list decide.
    alloc_queue-both :
        (slot uarp : Slot) (s₁ : QueueStore C) (bs₁ : Cells (Unit {0}) (QueueObj C))
        (regions₁ : UarStore) (bs : Cells (Unit {0}) (QueueObj C)) (us us₁ : Cells (Unit {0}) Uar)
        → alloc_page (alloc_block l4) s ≡ ok (some slot, s₁)
        → take_region l4.regions regions ≡ ok (some uarp, regions₁)
        → WithPlace bs s₁ bs₁ slot
        → s₁.pool.content ≡ s.pool.content
        → WithPlace us regions₁ us₁ uarp
        → (Lacks × Fails (alloc_queue l4 s regions size))
          ⊎ Allocates s bs us size (alloc_queue l4 s regions size)
    unfolding alloc_queue not_null object_at
    alloc_queue-both slot uarp s₁ bs₁ regions₁ bs us us₁ gives gives' (inv, was, now) content
          region =
        let used : used_at bs₁ slot.home slot.index ≡ true =
          now slot.home slot.index ∙ ground arith in
        let (b, e, loaded, element, _) =
          place_used s₁.heap _ s₁.pool.start bs₁ slot.home slot.index inv.chain used in
        elim (Run-cases (memory s₁.heap)) [
          | inl none_left ↦ inl (
            inr (inr (inl (s₁.heap, none_left))),
            rw (gives, ◌>>=◌, gives', ◌>>=◌, loaded, ◌>>=◌, element, ◌>>=◌)
                (Fails-first (memory s₁.heap) _ none_left),
          )
          | inr (dma, granted) ↦ elim (Bool-cases (ltb (l4.malloc_words pages) (2 * pages))) [
            | inl short ↦ inl (
              inr (inr (inr (ground (arith, short)))),
              rw (gives, ◌>>=◌, gives', ◌>>=◌, loaded, ◌>>=◌, element, ◌>>=◌, granted, ◌>>=◌)
                  (Fails-first (store_words (l4.malloc_words pages) 0 (pas_words dma.phys 0 pages))
                    _
                    (store_words-pas_words-Fails (l4.malloc_words pages) dma.phys pages
                      (ground (arith, short)))),
            )
            | inr long ↦
                let stored =
                  store_words-pas_words (l4.malloc_words pages) dma.phys pages
                    (ground (arith, long)) in
                let obj : QueueObj C = record (e.content) {
                  queue = record { start = dma.virt; size = size; head = 0; dma_mem = dma };
                  uarp = uarp;
                  pas_list = pas_words dma.phys 0 pages;
                } in
                let (s₂, bs₂, puts, inv₂, same, pool, read) =
                  put_object-Puts s₁ bs₁ slot obj inv used in
                inr (
                  slot,
                  obj,
                  s₂,
                  bs₂,
                  regions₁,
                  us₁,
                  rw
                      (
                        gives, ◌>>=◌, gives', ◌>>=◌, loaded, ◌>>=◌, element, ◌>>=◌, granted, ◌>>=◌,
                        stored, ◌>>=◌, puts, ◌>>=◌,
                      )
                      refl,
                  (inv₂, was, λ h i. same h i ∙ now h i),
                  region,
                  ap (λ p. p.content) pool ∙ content,
                  read,
                  (refl, refl, refl, refl),
                )
          ]
        ]

    -- On well-formed pools, where malloc keeps its promise, allocating a queue does one of two
    -- things. It fails, where one of the pools is full or cannot be given the block that it calls
    -- for, the kernel gives no memory, or malloc gives the address list less than two words for
    -- each page. Or it returns the place of an object that was not used, and the object has a page
    -- of a region that was not used, an empty ring of the size that was asked for at the start of
    -- its memory, and the addresses of the memory's pages; both places are used then, every other
    -- place of both pools and the queue pool's own data are as before, and both pools are
    -- well-formed again.
    pub alloc_queue-Allocates :
        (bs : Cells (Unit {0}) (QueueObj C)) (us : Cells (Unit {0}) Uar)
        → IsMalloc l4.malloc
        → IsMalloc l4.regions
        → IsPool s bs
        → IsPool regions us
        → (Lacks × Fails (alloc_queue l4 s regions size))
          ⊎ Allocates s bs us size (alloc_queue l4 s regions size)
    unfolding take_region
    alloc_queue-Allocates bs us objects_law regions_law inv inv_regions =
        elim (alloc_page-places (alloc_block l4) s bs (alloc_block-Supply l4 objects_law) inv) [
          | inl (lacks, nothing) ↦ inl (inl lacks, no_object nothing)
          | inr (slot, s₁, bs₁, gives, (object, content)) ↦
              elim (alloc_page-places (alloc_regions l4.regions) regions us
                (alloc_regions-Supply l4.regions regions_law) inv_regions) [
                  | inl (lacks, nothing) ↦ inl (inr (inl lacks), no_region slot s₁ gives nothing)
                  | inr (uarp, regions₁, us₁, gives', (region, _)) ↦
                      alloc_queue-both slot uarp s₁ bs₁ regions₁ bs us us₁ gives gives' object
                        content region
                ]
        ]
