-- ===== src/Driver/Pages.antt =====
-- server/src/driver.cc: lending pages to the firmware and taking them back.
pub mod Chunks
pub mod Addresses
pub mod Lending
use l4rdma.Prelude.{
  ℕ, zero, suc, ◌+◌, ◌-◌, ◌*◌, ◌/◌, ◌%◌, ◌^◌, ◌≤◌, ◌<◌, Option, none, some, List, [], ◌∷◌, ◌++◌,
  Bool, ltb, leb, ◌==◌, if◌then◌else◌, get_or, length, get_elem?,
}
use l4rdma.Run.{Run, ok, throw, out_of_fuel, terminated, fault, ◌>>=◌, store_words}
use l4rdma.Io.{ioread32be}
use l4rdma.Cmd.Opcode.{query_pages, manage_pages}
use l4rdma.Cmd.Mail.{imb_max_data, omb_max_data, mbb_max_count}
use l4rdma.Cmd.Args.{cod_output, entry}
use l4rdma.Cmd.Complete.{Firmware}
use l4rdma.Mem.{MemPage, MemStore, L4re, lend_page, return_page}
use l4rdma.Driver.{Hca, execute, output}

abbrev pub query_pages_output_length : ℕ
query_pages_output_length = 2

-- The adapter and the pool of pages.
pub record PageState : Type 0 where
  pub hca : Hca
  pub pool : MemStore

abbrev pub get_number_of_pages : Hca → (slot : ℕ) → ℕ
get_number_of_pages hca slot = get_or (output hca slot query_pages_output_length) 1 0

-- An `int32_t` with this bit pattern is negative.
abbrev pub is_negative : ℕ → Bool
is_negative w = leb (2 ^ 31) w

-- The words of all page addresses, as an unsigned 32-bit number.
abbrev pub address_words : ℕ → ℕ
address_words page_count = page_count * 2 % 2 ^ 32

-- How many times MANAGE_PAGES is run.
pub cmd_count : ℕ → ℕ
cmd_count page_count =
    let full = address_words page_count / imb_max_data in
    let remainder = address_words page_count % imb_max_data in
    if remainder == 0 then full else full + 1

-- How many pages command `i` provides.
pub payload_page_count : ℕ → ℕ → ℕ
unfolding cmd_count
payload_page_count page_count i =
    let remainder = address_words page_count % imb_max_data in
    if i + 1 == cmd_count page_count
    then (if remainder == 0 then imb_max_data / 2 else remainder / 2)
    else imb_max_data / 2

-- The payload of MANAGE_PAGES from its third word on: the physical addresses of the pages.
unfoldable pub page_words : List MemPage → List ℕ
page_words [] = []
page_words (page ∷ pages) = page.phys / 2 ^ 32 ∷ page.phys % 2 ^ 32 ∷ page_words pages

-- So many pages of the pool, in the order in which they are taken.
pub lend_pages : L4re → MemStore → ℕ → Run (List MemPage × MemStore)
lend_pages l4 s zero = ok ([], s)
lend_pages l4 s (suc rounds) = do
  (page, s₁) ← lend_page l4 s
  (pages, s₂) ← lend_pages l4 s₁ rounds
  ok (page ∷ pages, s₂)

module _ (fw : Firmware) (l4 : L4re) where
  -- The loop over the commands, from command `i` on.
  pub provide_loop : PageState → ℕ → (i rounds : ℕ) → Run PageState
  unfolding payload_page_count lend_pages page_words
  provide_loop s page_count i zero = ok s
  provide_loop s page_count i (suc rounds) = do
    let count = payload_page_count page_count i
    (pages, pool) ← lend_pages l4 s.pool count
    (_, hca) ← execute fw s.hca manage_pages 1 (0 ∷ count ∷ page_words pages) 2
    provide_loop (record { hca = hca; pool = pool }) page_count (i + 1) rounds

  pub provide_pages : PageState → ℕ → Run PageState
  unfolding provide_loop
  provide_pages s page_count = provide_loop s page_count 0 (cmd_count page_count)

  -- QUERY_PAGES with a modifier, and the pages that the firmware then asks for; the number of
  -- pages is given back.
  pub query_and_provide : PageState → ℕ → Run (ℕ × PageState)
  unfolding provide_pages
  query_and_provide s op_mod = do
    (slot, hca) ← execute fw s.hca query_pages op_mod [] query_pages_output_length
    let page_count = get_number_of_pages hca slot
    if is_negative page_count
        then throw terminated
        else (do s' ← provide_pages (record s { hca = hca }) page_count; ok (page_count, s'))

  pub provide_boot_pages : PageState → Run (ℕ × PageState)
  unfolding query_and_provide
  provide_boot_pages s = query_and_provide s 1

  pub provide_init_pages : PageState → Run (ℕ × PageState)
  unfolding query_and_provide
  provide_init_pages s = query_and_provide s 2

-- A word of the array; one that was not stored is not read as any value.
unfoldable pub word_at : List ℕ → ℕ → Run ℕ
word_at words i = elim (get_elem? words i) [ none ↦ throw fault | some w ↦ ok w ]

-- The two words of an address put together.
unfoldable pub address_at : List ℕ → ℕ → Run ℕ
address_at words i = do msb ← word_at words i; lsb ← word_at words (i + 1); ok (msb * 2 ^ 32 + lsb)

-- The addresses of `rounds` pages from number `i` on are given back to the pool.
unfoldable pub return_pages : L4re → MemStore → List ℕ → (i rounds : ℕ) → Run MemStore
unfolding address_at
return_pages l4 s words i zero = ok s
return_pages l4 s words i (suc rounds) = do
  phys ← address_at words (2 + i * 2)
  s' ← return_page l4 s phys
  return_pages l4 s' words (i + 1) rounds

module _ (fw : Firmware) (l4 : L4re) where
  -- The output goes to an array on the stack.
  unfoldable pub reclaim_pages : PageState → ℕ → Run (ℕ × PageState)
  unfolding return_pages
  reclaim_pages s page_count = do
    let output_length = (2 + page_count * 2) % 2 ^ 32
    (slot, hca) ← execute fw s.hca manage_pages 2 (0 ∷ page_count ∷ []) output_length
    let reclaimed = ioread32be hca.memory (entry hca.cmd.cq slot + cod_output 0)
    words ← store_words (omb_max_data + 2) 0 (output hca slot output_length)
    let rounds : ℕ = if is_negative reclaimed then 0 else reclaimed
    pool ← return_pages l4 s.pool words 0 rounds
    ok (reclaimed, record { hca = hca; pool = pool })

  -- The loop of `reclaim_all_pages`; nothing in it bounds the rounds but the firmware's answers.
  pub reclaim_loop : ℕ → PageState → ℕ → Run (ℕ × PageState)
  unfolding reclaim_pages
  reclaim_loop zero s result = out_of_fuel
  reclaim_loop (suc fuel) s result = do
    (reclaimed, s') ← reclaim_pages s (64 * mbb_max_count)
    let result' = (result + reclaimed) % 2 ^ 32
    let later = reclaim_loop fuel s' result'
    if reclaimed == 0 then ok (result', s') else later

  pub reclaim_all_pages : ℕ → PageState → Run (ℕ × PageState)
  unfolding reclaim_loop
  reclaim_all_pages fuel s = reclaim_loop fuel s 0
