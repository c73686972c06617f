-- ===== src/Driver/Setup.antt =====
-- server/src/driver.cc: the commands of the setup and of the teardown that need no pages.
use l4rdma.Prelude.{
  ℕ, ◌+◌, ◌*◌, ◌/◌, ◌%◌, ◌^◌, List, [], ◌∷◌, bit_and, Bool, ◌==◌, leb, if◌then◌else◌, get_or, set,
}
use l4rdma.Run.{Run, ok, ◌>>=◌}
use l4rdma.Dma.{hca_page_size}
use l4rdma.Cmd.Lengths.{
  alloc_uar_output_length, dealloc_uar_output_length, alloc_pd_output_length,
  dealloc_pd_output_length,
}
use l4rdma.Cmd.Opcode.{
  query_hca_cap, set_hca_cap, alloc_uar as op_alloc_uar, dealloc_uar as op_dealloc_uar,
  alloc_pd as op_alloc_pd, dealloc_pd as op_dealloc_pd,
}
use l4rdma.Cmd.Complete.{Firmware}
use l4rdma.Driver.{Hca, execute, output}

abbrev pub query_hca_cap_output_length : ℕ
query_hca_cap_output_length = 406

abbrev pub set_hca_cap_output_length : ℕ
set_hca_cap_output_length = 2

-- The capabilities as they are written back: three words are changed where a feature is there.
pub choose_caps : List ℕ → List ℕ
choose_caps cap =
    let cache_line_128byte = bit_and (get_or cap 13 0 / 2 ^ 27) 0x1 in
    let cap₁ = if cache_line_128byte == 0 then cap else set cap 13 (2 ^ 27) in
    let cmdif_checksum = bit_and (get_or cap₁ 18 0 / 2 ^ 14) 0x3 in
    let cap₂ = if leb 1 cmdif_checksum then set cap₁ 18 (2 ^ 14) else cap₁ in
    let log_max_sq = bit_and (get_or cap₂ 29 0 / 2 ^ 16) 0x1f in
    if log_max_sq == 0 then cap₂ else set cap₂ 29 (log_max_sq * 2 ^ 16)

-- Whether SET_DRIVER_VERSION is to be run, and the capabilities set.
pub configure_hca_cap : Firmware → Hca → Run (Bool × Hca)
configure_hca_cap fw hca = do
  (slot, hca₁) ← execute fw hca query_hca_cap 0 (0 ∷ []) query_hca_cap_output_length
  let cap = choose_caps (output hca₁ slot query_hca_cap_output_length)
  let driver_version = bit_and (get_or cap 21 0 / 2 ^ 30) 0x1
  (_, hca₂) ← execute fw hca₁ set_hca_cap 0 cap set_hca_cap_output_length
  ok (driver_version == 1, hca₂)

-- The first user access region: its index and its address.
pub alloc_uar : Firmware → Hca → ℕ → Run (ℕ × ℕ × Hca)
alloc_uar fw hca bar0 = do
  (slot, hca₁) ← execute fw hca op_alloc_uar 0 [] alloc_uar_output_length
  let index = get_or (output hca₁ slot 2) 0 0
  ok (index, (bar0 + hca_page_size * index % 2 ^ 32) % 2 ^ 64, hca₁)

pub dealloc_uar : Firmware → Hca → ℕ → Run Hca
dealloc_uar fw hca uar_index = do
  (_, hca₁) ← execute fw hca op_dealloc_uar 0 (uar_index ∷ 0 ∷ []) dealloc_uar_output_length
  ok hca₁

-- A protection domain.
pub alloc_pd : Firmware → Hca → Run (ℕ × Hca)
alloc_pd fw hca = do
  (slot, hca₁) ← execute fw hca op_alloc_pd 0 [] alloc_pd_output_length
  ok (get_or (output hca₁ slot 2) 0 0, hca₁)

pub dealloc_pd : Firmware → Hca → ℕ → Run Hca
dealloc_pd fw hca pd = do
  (_, hca₁) ← execute fw hca op_dealloc_pd 0 (pd ∷ 0 ∷ []) dealloc_pd_output_length
  ok hca₁
