-- ===== src/Sample/Examples/Clocks.antt =====
-- The clock of a process over some calls.
use reproduce.Prelude.{◌<◌, ◌↔◌, arith}
use reproduce.HashTable.{first_time}
use reproduce.Syscalls.Clock.Times.{ticks, nsec_range_iff}

nsec_range_iff_example :
    ((ticks 483546075 first_time).tv_nsec < 1_000_000_000) ↔ (483546075 < 483546075)
nsec_range_iff_example = nsec_range_iff 483546075 (omega arith)
