-- ===== src/Lib.antt =====
-- A model of the RDMA driver l4rdma, a server for L4Re that brings up an mlx5 network adapter and
-- talks to its firmware through commands in shared memory.
--
-- The parts and how they interact. The driver (server/src/driver.cc) runs commands: each is
-- written into an entry of the command queue, with mailboxes for what the entry cannot hold
-- (server/src/cmd.cc), handed over by the doorbell register, and waited for. The firmware asks
-- for memory; the driver lends it pages of a pool of DMA pages (server/src/mem.cc), which is an
-- instance of the pool allocator (server/src/pool.h). Before that, the adapter is found on the
-- PCI bus and its memory and interrupt table are mapped (server/src/device.cc, interrupt.cc);
-- afterwards, queues of events, completions and work are allocated from pools of queue objects
-- (server/src/queue.cc, event.cc, cq.cc, wq.cc), a thread serves the firmware's requests for
-- pages, and the server hands queues to clients (server/src/server_interface.cc).
--
-- Which file models what:
--   Prelude, Bits, Run: shared helpers: lists and tests on native numbers, masks and shifts as
--     arithmetic, and outcomes of code that may throw.
--   Io, Io/Endian: server/src/device.h: `ioread32be`, `iowrite32be`, `ioread32`, `iowrite32`
--     and `swap_endian`. Memory and registers are one function from byte addresses to 32-bit
--     words as the processor reads them.
--   Dma: `HCA_PAGE_SIZE` and `DMA_MEM` of server/src/mem.h.
--   Queue, Queue/Ring: `Q::Queue` and `Q::enqueue` of server/src/queue.cc.
--   Queue/Objects and the modules below it: the pool of queue objects of server/src/queue.h and
--     queue.cc: `alloc_block`, `free_block`, `index_queue`, `get_queue`, `alloc_queue` and
--     `free_queue`. How many words an allocation can hold is a parameter.
--   Cmd, Cmd/Opcode, Cmd/Args, Cmd/Mail, Cmd/Entry, Cmd/Complete, and the modules below them:
--     server/src/cmd.h and server/src/cmd.cc: mailboxes (`prepare_mbb`, `tie_mail_together`,
--     `pack_mail`, `unpack_mail`), `create_cqe`, `ring_doorbell`, `poll_ownership`, the two
--     status checks, `validate_cqe` and `get_cmd_output`. The registers of an entry and of a
--     mailbox block are byte offsets. An overlong payload is not cut off, as in the source.
--   Pool, and the modules below it: server/src/pool.h: blocks on a heap, with pointers as
--     numbers. A pointer that is null or freed faults when it is read; the arrays of elements are
--     lists. Pool/Invariant has the well-formed pools, and `Supply`: what a pool relies on where
--     it calls for another block. Mem/Supply, Uar/Supply and Queue/Objects/Supply have the three
--     functions that are called (Pool/Blocks what they share). Pool/Discarding has `Discharge`:
--     what a pool relies on where it gives a block up; Mem/Discharge, Uar/Returning and
--     Queue/Objects/Returning have the functions that are called. Pool/Relink and Pool/Unlinking
--     have the list without a block. Pool/Usage views a pool as the set of its used places.
--   Mem, Mem/Rounding, Mem/Lending, Mem/Index, Mem/PageCalls: server/src/mem.h and mem.cc: DMA
--     allocation and the page pool, with the index of the lent pages; `PageCalls` are sequences of
--     calls. The services of the kernel are the record `L4re`, a parameter.
--   Uar: server/src/uar.h and server/src/uar.cc: the pool of pages of a user access region,
--     another instance of the pool allocator.
--   Driver, Driver/Wait, Driver/Issi, Driver/Setup, Driver/Pages, Driver/BringUp,
--     Driver/Teardown, and the modules below them: server/src/driver.cc: `init_wait`,
--     `get_issi_support`, `configure_issi`, `configure_hca_cap`, `alloc_uar` and `dealloc_uar`
--     (their commands), `alloc_pd`, `dealloc_pd`, `provide_pages`, `provide_boot_pages`,
--     `provide_init_pages`, `reclaim_pages`, `reclaim_all_pages`, `set_driver_version`,
--     `init_hca`, and `teardown_hca` from the user access region on.
--   Context: `MLX5_Context` of server/src/driver.h, and what is outside as one record.
--   Event, Event/Ownership, Event/Payload: server/src/event.h and event.cc: `init_eq`,
--     `create_eq`, `get_eq_state`, `destroy_eq`, `eqe_owned_by_hw`, `read_eqe` and `arm_eq`.
--   Completion: `create_cq` of server/src/cq.cc. Work: `create_wqc` and `destroy_wqc` of
--     server/src/wq.cc, and `setup_work_queue` of server/src/driver.cc. Words that the code does
--     not set before it sends them are those of the parameter `stack`.
--   Requests, Requests/Handler, Requests/Lending: `setup_event_queue`, `page_request_handler`, and
--     `teardown_hca` as a whole, of server/src/driver.cc. What the hardware and the main thread do
--     between two rounds of the handler is a parameter, and so is the number of rounds, for which
--     the flag `active` stays set.
--   Cmd/Entry/Sharing: the handler and the main thread in `create_cqe` at the same time, as steps.
--   Pci, Pci/Capability, Pci/Bar, Pci/Msix, Pci/Bus: server/src/device.cc: `pci_get_dev`,
--     `map_pci_bar`, `get_pci_cap`, `setup_msix`, `bind_dma_space_to_device` and
--     `create_icu_cap`. The bus and the kernel are the records `PciDev` and `BusServices`,
--     parameters.
--   Interrupt, Interrupt/Table, Interrupt/Binding: server/src/interrupt.h and interrupt.cc:
--     `create_msix_entry`, `create_and_bind_irq`, `create_msix_irq`, and the arguments that
--     `create_msix_thread` leaves for the thread. The kernel is the record `IrqServices`, a
--     parameter; it sees the memory when a vector is unmasked.
--   Client, Client/Setup, Client/Setup/Outcome: server/src/interface.h, wq_interface.cc,
--     cq_interface.cc and server_interface.cc: the operations of a queue's thread, and
--     `op_create_wq` and `op_create_cq` with the thread that they start, as steps of a system.
--     The answers of the kernel are the record `Kernel`, a parameter.
--   Start, Start/Pools, Start/Lending: server/src/main.cc from the adapter on to the teardown,
--     and the pools as `main`, `init_queue_obj_pool` and `alloc_uar` set them up. The pointer to
--     the end of a pool is not set there; it is a parameter.
--   Examples: the theorems at concrete inputs, and tests.
--
-- The firmware and the clock are the record `Firmware`, a parameter: the memory that each look at
-- an entry finds, and the time of each look. It is relied on only that the sleep between two
-- looks takes 20 ms at least.
--
-- Arrays. An array is the list of its elements, or the room that it has (`store_words` of Run): a
-- word that is stored or read behind its end is a fault. The teardown takes the blocks of the event
-- queues' pool for an array; block `i` is looked for behind `i` structures of 40 bytes, the size of
-- a block on a machine with pointers of 64 bits.
--
-- Bounds and fuel. Integers of the source are natural numbers with the wrap-around written out.
-- `poll_ownership` has fuel for 251 looks: after 250 sleeps of 20 ms the timeout of 5000 ms has
-- passed; `init_wait` has the same timeout and the same fuel. The walk of `alloc_page` has fuel
-- for two rounds more than there are blocks; it visits each block once, and the block that it may
-- add. The loop of `ffs` has fuel for the 32 bits of a word. `reclaim_all_pages` takes its fuel
-- as an argument, since only the firmware's answers end its loop. The walk of `get_pci_cap` has
-- fuel for the 64 places that a pointer can name; the logarithm of a size has 64 halvings.
--
-- Not modelled: output on the console; the registration of the server and its loop, which are
-- those of L4Re; the lifetime of the variable whose address `create_msix_thread` passes to
-- the thread; `op_kill`, which only throws; the structures of server/src/wq.h and the constants
-- of the headers that no code uses. In `main`, the handler's thread runs after the set-up of the
-- work queue, and its rounds follow one another; that the two threads share the command queue
-- without a lock is modelled for `create_cqe` alone.
pub mod Prelude
pub mod Bits
pub mod Run
pub mod Io
pub mod Dma
pub mod Queue
pub mod Cmd
pub mod Pool
pub mod Mem
pub mod Uar
pub mod Driver
pub mod Pci
pub mod Interrupt
pub mod Context
pub mod Event
pub mod Completion
pub mod Work
pub mod Requests
pub mod Client
pub mod Start
mod Examples
