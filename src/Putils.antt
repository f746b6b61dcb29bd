-- ===== src/Putils.antt =====
-- reproduce/src/putils.c: the registers of a tracee, running and cancelling its system calls, and copying
-- to and from its memory.
pub mod Registers
pub mod Child
pub mod Buffer
pub mod Text
