-- ===== src/Dma.antt =====
-- server/src/mem.h: a chunk of DMA memory, and the page size of the hardware.
use l4rdma.Prelude.{ℕ}

abbrev pub hca_page_size : ℕ
hca_page_size = 4096

-- The dataspace capability that holds the memory is kept by the kernel and is left out.
pub record DmaMem : Type 0 where
  pub virt : ℕ
  pub phys : ℕ
