-- ===== src/Cmd/Opcode.antt =====
-- server/src/cmd.h: the firmware commands and their opcodes.
use l4rdma.Prelude.{ℕ, ◌^◌, ◌<◌, arith}

pub data Opcode : Type 0 where
  query_hca_cap query_adapter init_hca teardown_hca enable_hca disable_hca query_pages : Opcode
  manage_pages set_hca_cap query_issi set_issi set_driver_version create_mkey query_mkey : Opcode
  destroy_mkey query_special_contexts create_eq destroy_eq query_eq gen_eqe create_cq : Opcode
  destroy_cq query_cq modify_cq query_vport_state modify_vport_state query_nic_vport_context :
      Opcode
  modify_nic_vport_context query_vport_counter alloc_pd dealloc_pd alloc_uar dealloc_uar : Opcode
  config_int_moderation access_reg nop alloc_transport_domain dealloc_transport_domain : Opcode
  set_l2_table_entry query_l2_table_entry delete_l2_table_entry create_tir modify_tir : Opcode
  destroy_tir query_tir create_sq modify_sq destroy_sq query_sq create_rq modify_rq destroy_rq :
      Opcode
  query_rq create_rmp modify_rmp destroy_rmp query_rmp create_tis modify_tis destroy_tis : Opcode
  query_tis create_rqt modify_rqt destroy_rqt query_rqt set_flow_table_root create_flow_table :
      Opcode
  destroy_flow_table query_flow_table create_flow_group destroy_flow_group query_flow_group : Opcode
  set_flow_table_entry query_flow_table_entry delete_flow_table_entry alloc_flow_counter : Opcode
  dealloc_flow_counter query_flow_counter modify_flow_table : Opcode

-- The value of each enumerator.
unfoldable pub opcode_value : Opcode → ℕ
opcode_value query_hca_cap = 0x100
opcode_value query_adapter = 0x101
opcode_value init_hca = 0x102
opcode_value teardown_hca = 0x103
opcode_value enable_hca = 0x104
opcode_value disable_hca = 0x105
opcode_value query_pages = 0x107
opcode_value manage_pages = 0x108
opcode_value set_hca_cap = 0x109
opcode_value query_issi = 0x10a
opcode_value set_issi = 0x10b
opcode_value set_driver_version = 0x10d
opcode_value create_mkey = 0x200
opcode_value query_mkey = 0x201
opcode_value destroy_mkey = 0x202
opcode_value query_special_contexts = 0x203
opcode_value create_eq = 0x301
opcode_value destroy_eq = 0x302
opcode_value query_eq = 0x303
opcode_value gen_eqe = 0x304
opcode_value create_cq = 0x400
opcode_value destroy_cq = 0x401
opcode_value query_cq = 0x402
opcode_value modify_cq = 0x403
opcode_value query_vport_state = 0x750
opcode_value modify_vport_state = 0x751
opcode_value query_nic_vport_context = 0x754
opcode_value modify_nic_vport_context = 0x755
opcode_value query_vport_counter = 0x770
opcode_value alloc_pd = 0x800
opcode_value dealloc_pd = 0x801
opcode_value alloc_uar = 0x802
opcode_value dealloc_uar = 0x803
opcode_value config_int_moderation = 0x804
opcode_value access_reg = 0x805
opcode_value nop = 0x80d
opcode_value alloc_transport_domain = 0x816
opcode_value dealloc_transport_domain = 0x817
opcode_value set_l2_table_entry = 0x829
opcode_value query_l2_table_entry = 0x82a
opcode_value delete_l2_table_entry = 0x82b
opcode_value create_tir = 0x900
opcode_value modify_tir = 0x901
opcode_value destroy_tir = 0x902
opcode_value query_tir = 0x903
opcode_value create_sq = 0x904
opcode_value modify_sq = 0x905
opcode_value destroy_sq = 0x906
opcode_value query_sq = 0x907
opcode_value create_rq = 0x908
opcode_value modify_rq = 0x909
opcode_value destroy_rq = 0x90a
opcode_value query_rq = 0x90b
opcode_value create_rmp = 0x90c
opcode_value modify_rmp = 0x90d
opcode_value destroy_rmp = 0x90e
opcode_value query_rmp = 0x90f
opcode_value create_tis = 0x912
opcode_value modify_tis = 0x913
opcode_value destroy_tis = 0x914
opcode_value query_tis = 0x915
opcode_value create_rqt = 0x916
opcode_value modify_rqt = 0x917
opcode_value destroy_rqt = 0x918
opcode_value query_rqt = 0x919
opcode_value set_flow_table_root = 0x92f
opcode_value create_flow_table = 0x930
opcode_value destroy_flow_table = 0x931
opcode_value query_flow_table = 0x932
opcode_value create_flow_group = 0x933
opcode_value destroy_flow_group = 0x934
opcode_value query_flow_group = 0x935
opcode_value set_flow_table_entry = 0x936
opcode_value query_flow_table_entry = 0x937
opcode_value delete_flow_table_entry = 0x938
opcode_value alloc_flow_counter = 0x939
opcode_value dealloc_flow_counter = 0x93a
opcode_value query_flow_counter = 0x93b
opcode_value modify_flow_table = 0x93c

-- Every opcode fits the 16 bits of its field.
pub opcode_value-lt : (o : Opcode) → opcode_value o < 2 ^ 16
unfolding opcode_value
opcode_value-lt query_hca_cap = omega arith
opcode_value-lt query_adapter = omega arith
opcode_value-lt init_hca = omega arith
opcode_value-lt teardown_hca = omega arith
opcode_value-lt enable_hca = omega arith
opcode_value-lt disable_hca = omega arith
opcode_value-lt query_pages = omega arith
opcode_value-lt manage_pages = omega arith
opcode_value-lt set_hca_cap = omega arith
opcode_value-lt query_issi = omega arith
opcode_value-lt set_issi = omega arith
opcode_value-lt set_driver_version = omega arith
opcode_value-lt create_mkey = omega arith
opcode_value-lt query_mkey = omega arith
opcode_value-lt destroy_mkey = omega arith
opcode_value-lt query_special_contexts = omega arith
opcode_value-lt create_eq = omega arith
opcode_value-lt destroy_eq = omega arith
opcode_value-lt query_eq = omega arith
opcode_value-lt gen_eqe = omega arith
opcode_value-lt create_cq = omega arith
opcode_value-lt destroy_cq = omega arith
opcode_value-lt query_cq = omega arith
opcode_value-lt modify_cq = omega arith
opcode_value-lt query_vport_state = omega arith
opcode_value-lt modify_vport_state = omega arith
opcode_value-lt query_nic_vport_context = omega arith
opcode_value-lt modify_nic_vport_context = omega arith
opcode_value-lt query_vport_counter = omega arith
opcode_value-lt alloc_pd = omega arith
opcode_value-lt dealloc_pd = omega arith
opcode_value-lt alloc_uar = omega arith
opcode_value-lt dealloc_uar = omega arith
opcode_value-lt config_int_moderation = omega arith
opcode_value-lt access_reg = omega arith
opcode_value-lt nop = omega arith
opcode_value-lt alloc_transport_domain = omega arith
opcode_value-lt dealloc_transport_domain = omega arith
opcode_value-lt set_l2_table_entry = omega arith
opcode_value-lt query_l2_table_entry = omega arith
opcode_value-lt delete_l2_table_entry = omega arith
opcode_value-lt create_tir = omega arith
opcode_value-lt modify_tir = omega arith
opcode_value-lt destroy_tir = omega arith
opcode_value-lt query_tir = omega arith
opcode_value-lt create_sq = omega arith
opcode_value-lt modify_sq = omega arith
opcode_value-lt destroy_sq = omega arith
opcode_value-lt query_sq = omega arith
opcode_value-lt create_rq = omega arith
opcode_value-lt modify_rq = omega arith
opcode_value-lt destroy_rq = omega arith
opcode_value-lt query_rq = omega arith
opcode_value-lt create_rmp = omega arith
opcode_value-lt modify_rmp = omega arith
opcode_value-lt destroy_rmp = omega arith
opcode_value-lt query_rmp = omega arith
opcode_value-lt create_tis = omega arith
opcode_value-lt modify_tis = omega arith
opcode_value-lt destroy_tis = omega arith
opcode_value-lt query_tis = omega arith
opcode_value-lt create_rqt = omega arith
opcode_value-lt modify_rqt = omega arith
opcode_value-lt destroy_rqt = omega arith
opcode_value-lt query_rqt = omega arith
opcode_value-lt set_flow_table_root = omega arith
opcode_value-lt create_flow_table = omega arith
opcode_value-lt destroy_flow_table = omega arith
opcode_value-lt query_flow_table = omega arith
opcode_value-lt create_flow_group = omega arith
opcode_value-lt destroy_flow_group = omega arith
opcode_value-lt query_flow_group = omega arith
opcode_value-lt set_flow_table_entry = omega arith
opcode_value-lt query_flow_table_entry = omega arith
opcode_value-lt delete_flow_table_entry = omega arith
opcode_value-lt alloc_flow_counter = omega arith
opcode_value-lt dealloc_flow_counter = omega arith
opcode_value-lt query_flow_counter = omega arith
opcode_value-lt modify_flow_table = omega arith
