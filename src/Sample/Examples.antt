-- ===== src/Sample/Examples.antt =====
-- The theorems at inputs over the small machine. Here: what the examples share.
mod Calls
mod Opens
mod Clocks
mod Memory
mod Tables
mod Program
mod Stops
mod Starts
mod Sessions
mod Histories
mod Launched
mod Lives
mod Arrivals
mod Invariants
use reproduce.Prelude.{
  zero, suc, ℕ, ◌-◌, ◌/◌, ◌%◌, ◌≡◌, refl, List, [], ◌∷◌, some, get_or, ◌==◌, Bool-cases, inl, inr,
  arith, if◌then◌else◌,
}
use reproduce.Prelude.Assoc
use reproduce.Prelude.Bytes.{codes}
use reproduce.Putils.Text.Strings.{string_at}
use reproduce.Putils.Text.Readable.{Readable}
use reproduce.Syscalls.{nr_openat}
use reproduce.Prelude.Bytes.{byte_of}
use reproduce.Kernel.{Regs, Wait}
use reproduce.Uthash.{Uthash}
use reproduce.Tracer.{ChildProcess, Heap, State}
use reproduce.HashTable.{first_time}
use reproduce.HashTable.View.{IsTable}
use reproduce.Vdso.Stack.{StackAt}
use reproduce.Sample.Machine.{World, machine, view}
use reproduce.Sample.Table.{Entries, one_bucket, find}

-- A stop at the entry of a system call with two arguments.
abbrev pub entry : (number a1 a2 : ℕ) → Regs
entry number a1 a2 = record {
  orig_rax = number;
  rax = 0;
  rdi = a1;
  rsi = a2;
  rdx = 0;
  rcx = 0;
  r8 = 0;
  r9 = 0;
  r10 = 0;
  rsp = 5000;
}

abbrev pub process : ChildProcess
process = record { pid = 7; gettime_data = first_time }

-- Process 7 is traced, with its struct at the address 1.
abbrev pub tracing : (mem : ℕ → ℕ) → Regs → List Wait → State
tracing mem r reports = record {
  world = record { mem = mem; regs = r; reports = reports };
  process_table = (7, 1) ∷ [];
  entry_count = 1;
  heap = (1, process) ∷ [];
}

-- A memory with some bytes at the address 5000, and zeros behind them.
abbrev pub mem_of : List ℕ → ℕ → ℕ
mem_of bytes a = get_or bytes (a - 5000) 0

one-found :
    (pid p : ℕ)
    → find ((7, 1) ∷ []) pid ≡ some p
    → (c : ChildProcess) × (Assoc.lookup p ((1, process) ∷ []) ≡ some c) × (c.pid ≡ pid)
unfolding Assoc.lookup
one-found pid p e = elim (Bool-cases (7 == pid)) [
  | inl own ↦ let same : 1 ≡ p = ground arith in (process, ground arith, ground arith)
  | inr other ↦ absurd (ground arith)
]

pub tracing-IsTable :
    (mem : ℕ → ℕ) (r : Regs) (reports : List Wait) → IsTable (tracing mem r reports)
tracing-IsTable mem r reports = record {
  valid = (refl, refl, tt);
  found = one-found;
  counted = refl;
}

-- argc, one argument, no environment, AT_PAGESZ and AT_SYSINFO_EHDR.
abbrev pub stack : List ℕ
stack = 1 ∷ 6000 ∷ 0 ∷ 0 ∷ 6 ∷ 4096 ∷ 33 ∷ 61440 ∷ 0 ∷ []

abbrev pub started : State
started =
    tracing (λ a. byte_of ((a - 5000) % 8) (get_or stack ((a - 5000) / 8) 0)) (entry 59 0 0) []

pub started-StackAt :
    (p : ℕ) → StackAt view started.world p 5008 (6000 ∷ []) [] ((6, 4096) ∷ (33, 61440) ∷ [])
started-StackAt p = (
  record { mapped = refl; word = refl; clear = refl },
  refl,
  (
    record { mapped = refl; word = refl; clear = refl },
    (
      record { mapped = refl; word = refl; clear = refl },
      (
        record { mapped = refl; word = refl; clear = refl },
        (record { mapped = refl; word = refl; clear = refl }, tt),
      ),
    ),
  ),
)

-- openat(0, "/dev/urandom")
abbrev pub at_device : State
at_device = tracing (mem_of (codes "/dev/urandom")) (entry nr_openat 0 5000) []

pub at_device-Readable : Readable view at_device.world 7 5000
unfolding string_at
at_device-Readable zero lt within = (refl, λ e. absurd (omega arith))
at_device-Readable (suc zero) lt within = (refl, λ e. absurd (omega arith))
at_device-Readable (suc (suc n)) lt within = absurd (omega arith)
