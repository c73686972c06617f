-- ===== src/Driver/Teardown.antt =====
-- server/src/driver.cc: the end of the teardown, after the event queues are destroyed.
use l4rdma.Prelude.{ℕ, []}
use l4rdma.Run.{Run, ok, ◌>>=◌}
use l4rdma.Cmd.Lengths.{teardown_hca_output_length, disable_hca_output_length}
use l4rdma.Cmd.Opcode.{teardown_hca, disable_hca}
use l4rdma.Cmd.Complete.{Firmware}
use l4rdma.Mem.{L4re}
use l4rdma.Driver.{execute}
use l4rdma.Driver.Setup.{dealloc_uar}
use l4rdma.Driver.Pages.{PageState, reclaim_all_pages}

-- The teardown from the user access region on. The fuel bounds the rounds of `reclaim_all_pages`.
pub teardown_commands : Firmware → L4re → (fuel uar_index : ℕ) → PageState → Run PageState
teardown_commands fw l4 fuel uar_index s = do
  hca₁ ← dealloc_uar fw s.hca uar_index
  (_, hca₂) ← execute fw hca₁ teardown_hca 0 [] teardown_hca_output_length
  (_, s₁) ← reclaim_all_pages fw l4 fuel (record s { hca = hca₂ })
  (_, hca₃) ← execute fw s₁.hca disable_hca 0 [] disable_hca_output_length
  ok (record s₁ { hca = hca₃ })
