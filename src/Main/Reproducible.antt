-- ===== src/Main/Reproducible.antt =====
-- Two whole runs of the tracer, `main` of reproduce/src/main.c, on one program.
use reproduce.Prelude.{ℕ, ◌≤◌, ◌≡◌, Option, List, length, ◌∙◌, arith}
use reproduce.Kernel.{Kernel, Regs}
use reproduce.Kernel.Laws.{View, Ptrace}
use reproduce.Uthash.{Uthash}
use reproduce.Tracer.{State, pure, ◌>>◌}
use reproduce.HashTable.{first_time}
use reproduce.Syscalls.Programs.{Program, play}
use reproduce.Events.{handle_event}
use reproduce.Events.Isolation.{HasProcess}
use reproduce.Events.Histories.{struct_of, Plays, History}
use reproduce.Events.Histories.Execs.{Image, first_stop, IsLoaded, Enters, Enters-IsLoaded}
use reproduce.ProcInit.Stack.{Resumed}
use reproduce.Events.Histories.Played.{History-Plays}
use reproduce.Main.{status, seed_of, main}
use reproduce.Main.Start.{IsInitial, Launches, launched, main-launched}

module _ ⦃k : Kernel⦄ ⦃u : Uthash⦄ (rounds fuel p : ℕ) (seed_str : Option (List ℕ))
    (argv : List (List ℕ)) (s : State) where
  -- `main`, once it has started the process p, is its event loop.
  abbrev pub IsEventLoop : Type 0
  IsEventLoop =
      main rounds fuel seed_str argv s
      ≡ (handle_event rounds fuel >> pure (status 0)) (launched p (seed_of seed_str) s)

  main-Plays :
      {v : View k.World}
      → Ptrace v
      → IsInitial s
      → 2 ≤ length argv
      → Launches p (seed_of seed_str) s
      → (program : Program) (image : Image) (n : ℕ) {s1 t : State} {r : Regs} {m : ℕ → ℕ}
      → Enters v fuel p image (launched p (seed_of seed_str) s) s1
      → History v fuel p program (first_stop image first_time) s1 n r m t
      → IsEventLoop
        × Resumed p (IsLoaded v p image) s1
        × Plays p (play program n (first_stop image first_time)) r m t
  main-Plays {v} laws i named l program image n {s1 = s1} entered past =
      let (e, t, traced) = main-launched rounds fuel p seed_str argv s i named l in
      let c = struct_of p first_time in
      let start : HasProcess p c (launched p (seed_of seed_str) s) = record {
        table = t;
        struct = traced p ∙ ground arith;
      } in
      let (loads, has) = Enters-IsLoaded v fuel p laws c image start entered in
      (e, loads, History-Plays v fuel p program laws (first_stop image first_time) s1 has past)

-- Two tracers, started on two machines with no process in the table, with a program to trace, where
-- the kernel grants every request of the parent: `main` is then the event loop, from a state in
-- which the new process is traced, in both. When, in rounds that return, that process comes to
-- execute the program, with the same memory in both, a stack that can be read and fuel enough for
-- it, and has before stopped only with no event and at calls that are not hooked: it is resumed
-- without the entry for the vDSO. When it makes then the same number of further stops in both, with
-- no event or at the event of a new child, at system calls that the tracer can serve or does not
-- look at, where what the kernel makes of those that the tracer passes on counts as a part of the
-- program: it comes to its next stop with the same registers, the same memory and the same clock in
-- both, those of the program played on its own from the first time. The machines, the seeds, the
-- process ids, and the rounds for other processes in between may differ. The tracer can serve a
-- call of a clock or for random bytes at its entry, if the process is not disturbed before the exit
-- (killed, or its memory written to by others), the memory for the answer is mapped, and there is
-- room for the random bytes; and one that opens a file, if its path can be read, and, for a random
-- device, it is also at its entry, not disturbed, and run by the kernel without a write to the
-- memory of the process.
pub main-reproducible :
    (k k' : Kernel) (u u' : Uthash) (v : View k.World) (v' : View k'.World)
    → Ptrace ⦃k = k⦄ v
    → Ptrace ⦃k = k'⦄ v'
    → (rounds rounds' fuel fuel' p p' : ℕ) (seed_str seed_str' : Option (List ℕ))
      (argv argv' : List (List ℕ)) (s : State ⦃k = k⦄ ⦃u = u⦄) (s' : State ⦃k = k'⦄ ⦃u = u'⦄)
    → IsInitial ⦃k = k⦄ ⦃u = u⦄ s
    → IsInitial ⦃k = k'⦄ ⦃u = u'⦄ s'
    → 2 ≤ length argv
    → 2 ≤ length argv'
    → Launches ⦃k = k⦄ ⦃u = u⦄ p (seed_of seed_str) s
    → Launches ⦃k = k'⦄ ⦃u = u'⦄ p' (seed_of seed_str') s'
    → (program : Program) (image : Image) (n : ℕ) {s1 t : State ⦃k = k⦄ ⦃u = u⦄}
      {s2 t' : State ⦃k = k'⦄ ⦃u = u'⦄} {r1 r2 : Regs} {m1 m2 : ℕ → ℕ}
    → Enters ⦃k = k⦄ ⦃u = u⦄ v fuel p image (launched ⦃k = k⦄ ⦃u = u⦄ p (seed_of seed_str) s) s1
    → Enters ⦃k = k'⦄ ⦃u = u'⦄ v' fuel' p' image
        (launched ⦃k = k'⦄ ⦃u = u'⦄ p' (seed_of seed_str') s')
        s2
    → History ⦃k = k⦄ ⦃u = u⦄ v fuel p program (first_stop image first_time) s1 n r1 m1 t
    → History ⦃k = k'⦄ ⦃u = u'⦄ v' fuel' p' program (first_stop image first_time) s2 n r2 m2 t'
    → (IsEventLoop ⦃k = k⦄ ⦃u = u⦄ rounds fuel p seed_str argv s
        × Resumed ⦃k = k⦄ ⦃u = u⦄ p (IsLoaded ⦃k = k⦄ ⦃u = u⦄ v p image) s1
        × Plays ⦃k = k⦄ ⦃u = u⦄ p (play program n (first_stop image first_time)) r1 m1 t)
      × (IsEventLoop ⦃k = k'⦄ ⦃u = u'⦄ rounds' fuel' p' seed_str' argv' s'
          × Resumed ⦃k = k'⦄ ⦃u = u'⦄ p' (IsLoaded ⦃k = k'⦄ ⦃u = u'⦄ v' p' image) s2
          × Plays ⦃k = k'⦄ ⦃u = u'⦄ p' (play program n (first_stop image first_time)) r2 m2 t')
main-reproducible k k' u u' v v' laws laws' rounds rounds' fuel fuel' p p' seed_str seed_str' argv
      argv' s s' i i' named named' l l' program image n entered entered' past past' =
    (
      main-Plays ⦃k = k⦄ ⦃u = u⦄ rounds fuel p seed_str argv s laws i named l program image n
          entered past,
      main-Plays ⦃k = k'⦄ ⦃u = u'⦄ rounds' fuel' p' seed_str' argv' s' laws' i' named' l' program
          image n entered' past',
    )
