-- ===== src/Sample/Examples/Launched.antt =====
-- The program of Histories, started by two tracers with two seeds, as process 5; under the second one
-- the exit of a process that is not traced is reported in between.
use reproduce.Prelude.{ℕ, ◌%◌, ◌≡◌, refl, List, [], ◌∷◌, some, none, arith, ◌∙◌}
use reproduce.Prelude.Bytes.{codes}
use reproduce.Tracer.{State, ok}
use reproduce.HashTable.{first_time}
use reproduce.HashTable.Changes.{delete_process-absent, IsTable-IsOwn}
use reproduce.HashTable.Fresh.{with_new-IsTable}
use reproduce.ProcInit.Stack.{Resumed}
use reproduce.Tracer.Outcome.{run_of}
use reproduce.Syscalls.Programs.{play}
use reproduce.Events.{serve}
use reproduce.Events.Children.{serve-at_exit}
use reproduce.Events.Isolation.{HasProcess}
use reproduce.Events.Stops.{serve-exec}
use reproduce.Events.Histories.{struct_of, Plays, begins}
use reproduce.Events.Histories.Execs as Execs
use reproduce.Events.Histories.Execs.{
  Image, ExecsAt, Enters, enters, waits, loaded, first_stop, IsLoaded, Enters-IsLoaded,
}
use reproduce.Main.{seed_of}
use reproduce.Main.Start.{IsInitial, IsInitial-IsTable, Launches, launched, options_set}
use reproduce.Main.Reproducible.{IsEventLoop, main-reproducible}
use reproduce.Sample.Machine.{machine, view, laws}
use reproduce.Sample.Table.{one_bucket}
use reproduce.Sample.Examples.{entry, mem_of, started, started-StackAt}
use reproduce.Sample.Examples.Histories.{regs, program, mod_mod, Reached, one_more}

abbrev unstarted : State
unstarted = record {
  world = record { mem = mem_of []; regs = entry 0 0 0; reports = [] };
  process_table = [];
  entry_count = 0;
  heap = [];
}

abbrev image : Image
image = record {
  stack_pointer = 5000;
  memory = view.byte started.world 5;
  args = 6000 ∷ [];
  env = [];
  type = 6;
  value = 4096;
  aux = (33, 61440) ∷ [];
  enter = λ m. (regs, λ a. m a % 256);
}

initial : IsInitial unstarted
initial = record { table = refl; count = refl; heap = refl }

launches : (seed : ℕ) → Launches 5 seed unstarted
launches seed = record {
  forked = refl;
  positive = omega arith;
  in_range = omega arith;
  who = 5;
  stop = 0x057f;
  stopped = refl;
  alive = refl;
  set = refl;
  room = refl;
  resumed = refl;
}

abbrev words : List (List ℕ)
words = codes "reproduce" ∷ codes "date" ∷ []

abbrev start : (seed : ℕ) → State
start seed = launched 5 seed unstarted

start-HasProcess : (seed : ℕ) → HasProcess 5 (struct_of 5 first_time) (start seed)
start-HasProcess seed =
    let (t, v) =
      with_new-IsTable (options_set 5 seed unstarted) 5 refl refl
        (IsTable-IsOwn.move unstarted _ (IsInitial-IsTable unstarted initial).0) in
    record { table = IsTable-IsOwn.move _ _ t; struct = v 5 }

executed : (s : State) → ExecsAt view 6 5 image 0x4057f (record s { world = started.world })
executed s = record {
  event = record { stopped = refl; event = refl };
  stopped = tt;
  stack_pointer = refl;
  memory = λ a. refl;
  clear = refl;
  stack = started-StackAt 5;
  enough = omega arith;
}

-- the round in which the process executes the program
exec_round :
    (s : State) → (s1 : State) × (serve 6 5 0x4057f (record s { world = started.world }) ≡ ok tt s1)
exec_round s =
    let at = executed s in
    run_of (
      serve-exec laws 6 5 (record s { world = started.world }) tt 0x4057f 6 4096 (6000 ∷ []) []
        ((33, 61440) ∷ []) at.event refl (started-StackAt 5) (omega arith))

abbrev first_memory : ℕ → ℕ
first_memory a = loaded image a % 256

begun : (s0 : State) → Reached 6 5 first_memory s0 0
begun s0 = record {
  memory = first_memory;
  state = s0;
  bytes = λ a. mod_mod (loaded image a);
  history = begins;
}

-- The program has been started, and has been answered twice.
record Ran (seed : ℕ) : Type 0 where
  state : State
  entered : Enters view 6 5 image (start seed) state
  reached : Reached 6 5 first_memory state 2

further :
    (seed : ℕ) (s1 : State)
    → Enters view 6 5 image (start seed) s1
    → Reached 6 5 first_memory s1 0
    → Ran seed
further seed s1 e x =
    let (loads, has) =
      Enters-IsLoaded view 6 5 laws (struct_of 5 first_time) image (start-HasProcess seed) e in
    record {
      state = s1;
      entered = e;
      reached = one_more 6 5 first_memory s1 1 has (one_more 6 5 first_memory s1 0 has x);
    }

one_run : (seed : ℕ) → Ran seed
one_run seed =
    let (s1, served) = exec_round (start seed) in
    further seed s1 (enters 0x4057f started.world waits (executed (start seed)) served) (begun s1)

-- The exit of process 9 changes nothing.
exit_of_nine : (seed : ℕ) → serve 6 9 0 (start seed) ≡ ok tt (start seed)
exit_of_nine seed =
    serve-at_exit 6 9 0 (start seed) refl ∙ delete_process-absent (start seed) 9 refl

other_run : (seed : ℕ) → Ran seed
other_run seed =
    let (s1, served) = exec_round (start seed) in
    further seed s1
      (enters 0x4057f started.world
        (Execs.other 9 0 (start seed).world refl waits (exit_of_nine seed)) (executed (start seed))
        served)
      (begun s1)

abbrev one : Ran (seed_of none)
one = one_run (seed_of none)

abbrev two : Ran (seed_of (some (codes "7")))
two = other_run (seed_of (some (codes "7")))

main-reproducible_example :
    (IsEventLoop 9 6 5 none words unstarted
      × Resumed 5 (IsLoaded view 5 image) one.state
      × Plays 5
          (play program 2 (first_stop image first_time))
          regs
          one.reached.memory
          one.reached.state)
    × (IsEventLoop 8 6 5 (some (codes "7")) words unstarted
        × Resumed 5 (IsLoaded view 5 image) two.state
        × Plays 5
            (play program 2 (first_stop image first_time))
            regs
            two.reached.memory
            two.reached.state)
main-reproducible_example =
    main-reproducible machine machine one_bucket one_bucket view view laws laws 9 8 6 6 5 5 none
      (some (codes "7")) words words unstarted unstarted initial initial (omega arith) (omega arith)
      (launches (seed_of none)) (launches (seed_of (some (codes "7")))) program image 2 one.entered
      two.entered one.reached.history two.reached.history
