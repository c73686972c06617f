-- ===== src/Cmd/Lengths.antt =====
-- server/src/cmd.h: the lengths of the outputs of the commands, in words.
use l4rdma.Prelude.{ℕ}

abbrev pub init_hca_output_length : ℕ
init_hca_output_length = 0

abbrev pub teardown_hca_output_length : ℕ
teardown_hca_output_length = 0

abbrev pub enable_hca_output_length : ℕ
enable_hca_output_length = 0

abbrev pub disable_hca_output_length : ℕ
disable_hca_output_length = 0

abbrev pub set_driver_version_output_length : ℕ
set_driver_version_output_length = 0

abbrev pub create_eq_output_length : ℕ
create_eq_output_length = 2

abbrev pub destroy_eq_output_length : ℕ
destroy_eq_output_length = 2

abbrev pub create_cq_output_length : ℕ
create_cq_output_length = 2

abbrev pub alloc_pd_output_length : ℕ
alloc_pd_output_length = 2

abbrev pub dealloc_pd_output_length : ℕ
dealloc_pd_output_length = 0

abbrev pub alloc_uar_output_length : ℕ
alloc_uar_output_length = 2

abbrev pub dealloc_uar_output_length : ℕ
dealloc_uar_output_length = 0
