-- ===== src/Cmd.antt =====
-- server/src/cmd.h and cmd.cc: the command interface of the firmware.
pub mod Opcode
pub mod Lengths
pub mod Mail
pub mod Args
pub mod Entry
pub mod Complete
