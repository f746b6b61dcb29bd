-- ===== src/Printrandom/UnderTracer.antt =====
-- What the test program of reproduce/src/printrandom.c is answered under the tracer.
use reproduce.Prelude.{ℕ, ◌+◌, ◌^◌, ◌≤◌, ◌<◌, ◌≡◌, ◌⊎◌, List, length}
use reproduce.Tracer.{Timespec}
use reproduce.HashTable.{first_time}
use reproduce.Syscalls.{tick}
use reproduce.Syscalls.Clock.{reported, result, gettimeofday, time, clock_gettime}
use reproduce.Syscalls.Random.{filled}
use reproduce.Printrandom.{bytes_of, end_range}
use reproduce.Printrandom.Calls.{System}

-- A system in which the calls that the tracer leaves to the kernel succeed, and in which the others
-- are answered from the clock that the tracer keeps for the process, as `handle_syscall` answers
-- them. After `fork` the program goes on as the parent, or as the child, with a clock of its own.
pub record Traced {S : Type 0} (os : System S) (clock : S → Timespec) : Type 0 where
  pub system : (command : List ℕ) (s : S) → clock (os.system command s).1 ≡ clock s
  pub pthread_create :
      (start : S → S) (s : S)
      → ((s' : S) → clock (start s') ≡ clock s')
      → ((os.pthread_create start s).0 ≡ 0) × (clock (os.pthread_create start s).1 ≡ clock s)
  pub pthread_join : (s : S) → ((os.pthread_join s).0 ≡ 0) × (clock (os.pthread_join s).1 ≡ clock s)
  pub open_file :
      (path : List ℕ) (s : S)
      → ((os.open_file path s).0 < 2 ^ 31) × (clock (os.open_file path s).1 ≡ clock s)
  pub read :
      (fd size : ℕ) (s : S)
      → ((os.read fd size s).0.0 < 2 ^ 63) × (clock (os.read fd size s).1 ≡ clock s)
  pub getpid : (s : S) → clock (os.getpid s).1 ≡ clock s
  pub fork :
      (s : S)
      → ((os.fork s).0 < 2 ^ 31)
        × ((clock (os.fork s).1 ≡ clock s) ⊎ (clock (os.fork s).1 ≡ first_time))
  pub getrandom :
      (buf : List ℕ) (offset size : ℕ) (s : S)
      → offset + size ≤ length buf
      → ((os.getrandom buf offset size s).0.0 ≡ size)
        × ((i : ℕ)
            → bytes_of (os.getrandom buf offset size s).0.1 i
              ≡ filled 0x22 (bytes_of buf) offset size i)
        × (clock (os.getrandom buf offset size s).1 ≡ clock s)
  pub gettimeofday :
      (s : S)
      → ((os.gettimeofday s).0.tv_sec ≡ (reported gettimeofday (clock s)).tv_sec)
        × ((os.gettimeofday s).0.tv_usec ≡ (reported gettimeofday (clock s)).tv_nsec)
        × (clock (os.gettimeofday s).1 ≡ tick (clock s))
  -- The tracer writes 16 bytes, of which the variable of the program holds the first 8. What lies behind
  -- it on the stack is the compiler's choice, and is left out.
  pub time :
      (s : S)
      → ((os.time s).0.0 ≡ result time (clock s))
        × ((os.time s).0.1 ≡ (reported time (clock s)).tv_sec)
        × (clock (os.time s).1 ≡ tick (clock s))
  pub clock_gettime :
      (s : S)
      → ((os.clock_gettime s).0.0 ≡ 0)
        × ((os.clock_gettime s).0.1 ≡ reported clock_gettime (clock s))
        × (clock (os.clock_gettime s).1 ≡ tick (clock s))

-- The clock leaves room for n more calls.
abbrev pub LeavesRoom : ℕ → Timespec → Type 0
LeavesRoom n t = (1718099106 ≤ t.tv_sec) × (t.tv_sec + n < end_range)
