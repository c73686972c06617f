-- ===== src/Driver/Pages/Chunks.antt =====
-- server/src/driver.cc: how `provide_pages` divides the pages among its commands.
use l4rdma.Prelude.{ℕ, zero, suc, ◌+◌, ◌*◌, ◌^◌, ◌≤◌, ◌<◌, ◌≡◌, arith, ◌==◌, if◌then◌else◌}
use l4rdma.Cmd.Mail.{imb_max_data}
use l4rdma.Driver.Pages.{cmd_count, payload_page_count}

-- The pages of the commands from command `i` on.
unfoldable pub pages_from : ℕ → (i rounds : ℕ) → ℕ
pages_from page_count i zero = 0
pages_from page_count i (suc rounds) =
    payload_page_count page_count i + pages_from page_count (i + 1) rounds

-- Every command provides a page at least, and the words of its payload fit into the input mailbox.
pub payload_page_count_bounds :
    (page_count i : ℕ)
    → 1 ≤ payload_page_count page_count i × payload_page_count page_count i * 2 ≤ imb_max_data
unfolding payload_page_count
payload_page_count_bounds page_count i = ground arith

pages_from_lem :
    (page_count i rounds : ℕ)
    → page_count < 2 ^ 31
    → i + rounds ≡ cmd_count page_count
    → pages_from page_count i rounds + i * 3200 ≡ (if rounds == 0 then i * 3200 else page_count)
unfolding pages_from payload_page_count cmd_count
pages_from_lem page_count i zero small last = omega arith
pages_from_lem page_count i (suc zero) small last = ground arith
pages_from_lem page_count i (suc (suc rounds)) small last =
    ground (arith, pages_from_lem page_count (i + 1) (suc rounds) small)

chunks_total :
    (page_count : ℕ)
    → page_count < 2 ^ 31
    → pages_from page_count 0 (cmd_count page_count) ≡ page_count
unfolding cmd_count pages_from
chunks_total page_count small =
    ground (arith, pages_from_lem page_count 0 (cmd_count page_count) small (omega arith))

-- Below 2 ^ 31 pages, the commands of `provide_pages` provide as many pages as are asked for in
-- all, and each of them at least one and no more than its input mailbox can carry.
pub provide_pages_chunks :
    (page_count : ℕ)
    → page_count < 2 ^ 31
    → (pages_from page_count 0 (cmd_count page_count) ≡ page_count)
      × ((i : ℕ)
          → (1 ≤ payload_page_count page_count i)
            × (payload_page_count page_count i * 2 ≤ imb_max_data))
provide_pages_chunks page_count small =
    (chunks_total page_count small, λ i. payload_page_count_bounds page_count i)
