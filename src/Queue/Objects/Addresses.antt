-- ===== src/Queue/Objects/Addresses.antt =====
-- server/src/queue.cc: the list of page addresses that `alloc_queue` fills, and its room.
use l4rdma.Prelude.{
  ℕ, zero, suc, ◌+◌, ◌*◌, ◌%◌, ◌^◌, ◌≤◌, ◌<◌, ◌≡◌, refl, ◌∙◌, arith, length, get_or,
}
use l4rdma.Run.{ok, Fails, Fails-bind, Fails-first, store_words, store_words-ok, store_words-Fails}
use l4rdma.Dma.{hca_page_size}
use l4rdma.Pool.{alloc_page}
use l4rdma.Mem.{alloc_dma_mem}
use l4rdma.Uar.{UarStore, take_region}
use l4rdma.Queue.Objects.{
  QueueServices, QueueStore, pas_words, page_count, alloc_block, alloc_queue, not_null, object_at,
}

pub length-pas_words : (phys i rounds : ℕ) → length (pas_words phys i rounds) ≡ 2 * rounds
unfolding pas_words
length-pas_words phys i zero = refl
length-pas_words phys i (suc rounds) = omega (arith, length-pas_words phys (i + 1) rounds)

pas_words_from :
    (phys i rounds k : ℕ)
    → k < rounds
    → hca_page_size * (i + rounds) ≤ 2 ^ 32
    → phys + hca_page_size * (i + rounds) ≤ 2 ^ 64
    → get_or (pas_words phys i rounds) (2 * k) 0 * 2 ^ 32
        + get_or (pas_words phys i rounds) (2 * k + 1) 0
      ≡ phys + hca_page_size * (i + k)
unfolding pas_words
pas_words_from phys i zero k inside words fits = absurd (omega arith)
pas_words_from phys i (suc rounds) zero inside words fits = omega arith
pas_words_from phys i (suc rounds) (suc k) inside words fits =
    let even : 2 * suc k ≡ suc (suc (2 * k)) = omega arith in
    let odd : suc (suc (2 * k)) + 1 ≡ suc (suc (2 * k + 1)) = omega arith in
    rw (even, odd)
      (pas_words_from phys (i + 1) rounds k (omega arith) (omega arith) (omega arith) ∙ omega arith)

-- In a queue of less than 4 GiB, below the end of the address space, the two words for page `k` are
-- the address `k` pages behind the start of the queue's memory.
pub pas_words_lem :
    (phys pages k : ℕ)
    → k < pages
    → hca_page_size * pages ≤ 2 ^ 32
    → phys + hca_page_size * pages ≤ 2 ^ 64
    → get_or (pas_words phys 0 pages) (2 * k) 0 * 2 ^ 32
        + get_or (pas_words phys 0 pages) (2 * k + 1) 0
      ≡ phys + hca_page_size * k
pas_words_lem phys pages k inside words fits =
    pas_words_from phys 0 pages k inside (omega arith) (omega arith) ∙ omega arith

-- The loop stores the words of `rounds` pages if they fit the list.
pub store_words-pas_words :
    (room phys rounds : ℕ)
    → 2 * rounds ≤ room
    → store_words room 0 (pas_words phys 0 rounds) ≡ ok (pas_words phys 0 rounds)
store_words-pas_words room phys rounds fits =
    store_words-ok room 0 (pas_words phys 0 rounds) (omega (arith, length-pas_words phys 0 rounds))

pub store_words-pas_words-Fails :
    (room phys rounds : ℕ)
    → room < 2 * rounds
    → Fails (store_words room 0 (pas_words phys 0 rounds))
store_words-pas_words-Fails room phys rounds short =
    store_words-Fails room 0 (pas_words phys 0 rounds) (omega arith)
      (omega (arith, length-pas_words phys 0 rounds))

-- Where `malloc` gives the address list less than two words for each page, no queue of that size is
-- allocated: one of the stores of the loop is behind the end of the list.
pub alloc_queue-Fails :
    {C : Type 0} (l4 : QueueServices C) (s : QueueStore C) (regions : UarStore) (size : ℕ)
    → let pages = page_count s.pool.content.page_entry_count size in
      l4.malloc_words pages < 2 * pages → Fails (alloc_queue l4 s regions size)
unfolding alloc_queue
alloc_queue-Fails l4 s regions size short =
    let pages = page_count s.pool.content.page_entry_count size in
    Fails-bind (alloc_page (alloc_block l4) s) _ λ x.
      Fails-bind (take_region l4.regions regions) _ λ y. Fails-bind (not_null x.0) _ λ slot.
        Fails-bind (not_null y.0) _ λ uarp. Fails-bind (object_at x.1 slot) _ λ obj.
          Fails-bind
            (alloc_dma_mem l4.superpage_shift (l4.grant x.1.heap) (hca_page_size * pages % 2 ^ 32))
            _
            λ dma.
              Fails-first (store_words (l4.malloc_words pages) 0 (pas_words dma.phys 0 pages)) _
                (store_words-pas_words-Fails (l4.malloc_words pages) dma.phys pages short)
