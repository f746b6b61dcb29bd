-- ===== src/Sample/Examples/Sessions.antt =====
-- A program that calls `time(NULL)` again and again, as process 7 and as process 9.
use reproduce.Prelude.{ℕ, zero, suc, ◌%◌, ◌≡◌, refl, [], ◌∷◌, arith, ◌∙◌}
use reproduce.Prelude.Assoc
use reproduce.Kernel.{Regs, changed}
use reproduce.Tracer.{State}
use reproduce.Tracer.Outcome.{Returns}
use reproduce.Putils.Registers.{r_syscall}
use reproduce.HashTable.{first_time}
use reproduce.Syscalls.{nr_time}
use reproduce.Syscalls.Clock.{time}
use reproduce.Syscalls.Reproducible.{Seen, clock, CanAnswer}
use reproduce.Syscalls.Sessions.{
  Sees, Continues, Session, at_stop, at_call, serve_calls, Sees-served, Session-reproducible,
}
use reproduce.Syscalls.Programs.{Program, next_stop, play}
use reproduce.Sample.Machine.{at_entry, machine, view, laws}
use reproduce.Sample.Table.{one_bucket}
use reproduce.Sample.Examples.{entry, process, tracing, mem_of}

abbrev regs : Regs
regs = entry nr_time 0 0

abbrev program : Program
program r m = (regs, m)

-- The state in which the program has run to its next call.
abbrev continued : State → State
continued s = record s { world = record s.world { mem = view.byte s.world 7; regs = regs } }

mod_mod : (n : ℕ) → n % 256 % 256 ≡ n % 256
mod_mod n = omega arith

module _ (pid child : ℕ) where
  continued-Continues : (s : State) → Continues view pid child program s (continued s)
  continued-Continues s = record {
    stopped = tt;
    regs = refl;
    memory = λ a. mod_mod (s.world.mem a);
    time = refl;
  }

  session :
      (n : ℕ) (o : Seen) (s : State)
      → o.regs ≡ regs
      → Sees view pid child o s
      → Session view pid child program continued n s
  session zero o s e h = at_stop
  session (suc n) o s e h =
      let r : s.world.regs ≡ regs = h.regs ∙ e in
      let called : r_syscall (s.world.regs) ≡ nr_time = rw r refl in
      let can : CanAnswer view s pid (clock time) s.world.regs =
        let null : s.world.regs.rdi ≡ 0 = rw r refl in
        (at_entry pid _, λ given. absurd (ground arith)) in
      at_call (clock time) called can (λ s1 run. continued-Continues s1)
        (λ s1 run. session n (next_stop program o) (continued s1) refl (
          Sees-served view pid child laws program (clock time) o s s1 (continued s1) h called can
            run (continued-Continues s1)))

abbrev blank : Seen
blank = record { regs = regs; memory = λ a. mem_of [] a % 256; time = first_time }

abbrev seven : State
seven = tracing (mem_of []) regs []

abbrev nine : State
nine = record {
  world = record { mem = mem_of []; regs = regs; reports = changed 9 0 ∷ [] };
  process_table = (9, 12) ∷ (7, 1) ∷ [];
  entry_count = 2;
  heap = (1, process) ∷ (12, record { pid = 9; gettime_data = first_time }) ∷ [];
}

seven-Sees : Sees view 7 1 blank seven
unfolding Assoc.lookup
seven-Sees = record { stopped = tt; regs = refl; memory = λ a. refl; time = refl }

nine-Sees : Sees view 9 12 blank nine
unfolding Assoc.lookup
nine-Sees = record { stopped = tt; regs = refl; memory = λ a. refl; time = refl }

Session-reproducible_example :
    Returns (λ _ t. Sees view 7 1 (play program 3 blank) t) (serve_calls view 7 1 continued 3 seven)
    × Returns
        (λ _ t. Sees view 9 12 (play program 3 blank) t)
        (serve_calls view 9 12 continued 3 nine)
Session-reproducible_example =
    Session-reproducible machine machine one_bucket one_bucket view view laws laws 7 1 9 12 program
      3 blank continued continued seven nine seven-Sees nine-Sees
      (session 7 1 3 blank seven refl seven-Sees) (session 9 12 3 blank nine refl nine-Sees)
