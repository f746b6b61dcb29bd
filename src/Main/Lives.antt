-- ===== src/Main/Lives.antt =====
-- A run of the tracer, `main` of reproduce/src/main.c, to its end.
use reproduce.Prelude.{
  ℕ, suc, ◌≤◌, ◌≡◌, refl, Option, none, List, length, ◌∙◌, ◌==◌, arith, Bool-cases, inl, inr, ap,
}
use reproduce.Kernel.{Kernel}
use reproduce.Kernel.Frames.{Frames}
use reproduce.Kernel.Laws.{View, Ptrace}
use reproduce.Uthash.{Uthash}
use reproduce.Tracer.{State}
use reproduce.Tracer.Outcome
use reproduce.Tracer.Outcome.{Returns, returns}
use reproduce.HashTable.View.{IsTable, view, is_some}
use reproduce.HashTable.Fresh.{address_of_new}
use reproduce.Events.Ends.Lives.{Lives, handle_event-Lives}
use reproduce.Events.Ends.Tracking.{IsTracking}
use reproduce.Main.{status, seed_of, main}
use reproduce.Main.Start.{
  IsInitial, IsInitial-IsTable, Launches, launched, options_set, main-launched,
}

module _ ⦃k : Kernel⦄ ⦃u : Uthash⦄ (p : ℕ) (seed_str : Option (List ℕ)) (s : State)
    (i : IsInitial s) (l : Launches p (seed_of seed_str) s) where
  -- the event loop starts from here
  abbrev pub start : State
  start = launched p (seed_of seed_str) s

  pub launched-IsTracking :
      (rounds fuel : ℕ) (argv : List (List ℕ)) → 2 ≤ length argv → IsTracking (λ j. p == j) start
  launched-IsTracking rounds fuel argv named =
      let (e, t, v) = main-launched rounds fuel p seed_str argv s i named l in
      let (before, none_yet) = IsInitial-IsTable s i in
      let one =
        u.iter-add s.process_table p (address_of_new (options_set p (seed_of seed_str) s) p)
          before.valid in
      let empty : length (u.iter s.process_table) ≡ 0 = rw (i.table, u.iter-empty) refl in
      record {
        table = t;
        small = omega (arith, one, empty);
        tracks = λ j.
            ap is_some (v j)
            ∙ elim (Bool-cases (p == j)) [ inl same ↦ rw same refl | inr other ↦ rw other refl ];
      }

  -- Started with no process in the table, with a program to trace, and where the kernel grants
  -- every request of the parent, when from then on, in each of a number of rounds, `waitpid`
  -- reports that a traced process stops, with no event, at a system call that the tracer can serve
  -- or does not look at, or executes a program with a stack that can be read and fuel enough for
  -- it, or forks, by a call that is not hooked, a child that is not traced yet, for which there is
  -- room, or a child that is traced already, or has exited or was killed, or that, while one is
  -- traced, a process that is not stops with no event, with a stack that can be read, fuel enough
  -- for it, and room for it in memory and in the table, so that none is left after them: `main`,
  -- with a bound of one round more, returns the status 0, with no process traced. The tracer can
  -- serve a call of a clock or for random bytes at its entry, if the process is not disturbed
  -- before the exit (killed, or its memory written to by others), the memory for the answer is
  -- mapped, and there is room for the random bytes; and one that opens a file, if its path can be
  -- read, and, for a random device, it is also at its entry, not disturbed, and run by the kernel
  -- without a write to the memory of the process.
  pub main-Lives :
      {v : View k.World}
      → Ptrace v
      → Frames v
      → (fuel n : ℕ) (argv : List (List ℕ)) → 2 ≤ length argv
      → Lives v fuel n (λ j. p == j) start
      → Returns
          (λ c s'. (c ≡ status 0) × IsTable s' × ((j : ℕ) → view s' j ≡ none))
          (main (suc n) fuel seed_str argv s)
  main-Lives laws frames fuel n argv named lives =
      let (e, t, v) = main-launched (suc n) fuel p seed_str argv s i named l in
      rw e (
        Outcome.bind
          (handle_event-Lives laws frames fuel n (λ j. p == j) start
            (launched-IsTracking (suc n) fuel argv named) lives)
          (λ _ s' ended. returns (refl, ended.0, ended.1)))
