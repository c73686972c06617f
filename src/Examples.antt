-- ===== src/Examples.antt =====
-- The theorems at concrete inputs, and tests by evaluation.
mod Client
mod Cmd
mod Driver
mod Event
mod Mem
mod Pool
mod Queue
mod Start
mod Pci
