-- ===== src/Syscalls/Clock/Times.antt =====
-- The clock of a process over any number of calls.
use reproduce.Prelude.{ℕ, zero, suc, ◌+◌, ◌^◌, ◌<◌, ◌≡◌, ◌↔◌, ap, arith}
use reproduce.Tracer.{Timespec}
use reproduce.HashTable.{first_time}
use reproduce.Syscalls.{tick}

-- the clock after some calls
pub ticks : ℕ → Timespec → Timespec
ticks zero t = t
ticks (suc n) t = ticks n (tick t)

-- After n calls both fields of the clock are n further on.
pub ticks-first_time :
    (n : ℕ) (t : Timespec)
    → t.tv_sec + n < 2 ^ 63
    → t.tv_nsec + n < 2 ^ 63
    → ticks n t ≡ record { tv_sec = t.tv_sec + n; tv_nsec = t.tv_nsec + n }
unfolding ticks
ticks-first_time zero t h g = ground arith
ticks-first_time (suc n) t h g =
    ground (arith, ticks-first_time n (tick t) (omega arith) (omega arith))

-- After n calls of the clocks by a new process, n below 2^62, the nanoseconds of its clock are
-- below 10^9 exactly when n is below 483546075.
pub nsec_range_iff :
    (n : ℕ) → n < 2 ^ 62 → ((ticks n first_time).tv_nsec < 1_000_000_000) ↔ (n < 483546075)
nsec_range_iff n small =
    let e =
      ap (λ (t : Timespec). t.tv_nsec)
        (ticks-first_time n first_time (omega arith) (omega arith)) in
    (λ h. omega arith, λ h. omega arith)
