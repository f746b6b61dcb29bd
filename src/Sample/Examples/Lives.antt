-- ===== src/Sample/Examples/Lives.antt =====
-- Process 5 is started, calls `time(NULL)`, and exits.
use reproduce.Prelude.{
  ℕ, ◌≡◌, refl, List, [], ◌∷◌, none, some, ◌==◌, Bool-cases, inl, inr, arith, ap, sym, subst, ◌∙◌,
}
use reproduce.Prelude.Bytes.{codes}
use reproduce.Tracer.Macros.{in_world}
use reproduce.Kernel.{Regs, minus_one}
use reproduce.Tracer.{State, ok}
use reproduce.Tracer.Outcome.{Returns}
use reproduce.HashTable.View.{IsTable}
use reproduce.HashTable.View as Map
use reproduce.Syscalls.{nr_time}
use reproduce.Syscalls.Clock.{time}
use reproduce.Syscalls.Reproducible.{Seen, clock}
use reproduce.Events.{serve, handle_event}
use reproduce.Events.Stops.{StopStatus}
use reproduce.Events.Histories.{Plays, StandsAt}
use reproduce.Events.Histories.Steps.{answers, leaves}
use reproduce.Events.Ends.Lives.{Lives, over, exits, calls, handle_event-Lives}
use reproduce.Events.Ends.Tracking.{IsTracking, has_struct}
use reproduce.Main.{main, status, seed_of}
use reproduce.Main.Start.{IsInitial, Launches}
use reproduce.Main.Lives.{start, launched-IsTracking, main-Lives}
use reproduce.Sample.Machine.{at_entry, view}
use reproduce.Sample.Reporting.{reporting, reporting-laws, reporting-frames}
use reproduce.Sample.Table.{one_bucket}
use reproduce.Sample.Examples.{entry, mem_of}

abbrev unstarted : State
unstarted = record {
  world = record { mem = mem_of []; regs = entry nr_time 0 0; reports = [] };
  process_table = [];
  entry_count = 0;
  heap = [];
}

initial : IsInitial unstarted
initial = record { table = refl; count = refl; heap = refl }

launches : Launches 5 (seed_of none) unstarted
launches = record {
  forked = refl;
  positive = omega arith;
  in_range = omega arith;
  who = 5;
  stop = 0x057f;
  stopped = refl;
  alive = refl;
  set = refl;
  room = refl;
  resumed = refl;
}

abbrev words : List (List ℕ)
words = codes "reproduce" ∷ codes "date" ∷ []

abbrev begun : State
begun = start 5 none unstarted initial launches

tracking : IsTracking (λ j. 5 == j) begun
tracking = launched-IsTracking 5 none unstarted initial launches 3 0 words (omega arith)

call_stop : StopStatus 0 0x857f
call_stop = record { stopped = refl; event = refl }

abbrev regs : Regs
regs = entry nr_time 0 0

abbrev memory : ℕ → ℕ
memory = view.byte begun.world 5

time_stop : StandsAt view 5 (some (clock time)) regs memory begun
time_stop = record {
  stopped = tt;
  regs = refl;
  memory = λ a. refl;
  called = refl;
  can_answer = (at_entry 5 _, λ given. absurd (ground arith));
}

-- Behind the round for the call the number of the call is -1.
cancelled : (s' : State) → serve 0 5 0x857f begun ≡ ok tt s' → s'.world.regs.orig_rax ≡ minus_one
cancelled s' given =
    let (child, t, e, has) = has_struct (λ j. 5 == j) begun 5 tracking refl in
    let o : Seen = record { regs = regs; memory = memory; time = t } in
    let plays : Plays 5 o regs memory begun = record { regs = refl; memory = refl; has = has } in
    let (answered, run, served) =
      answers reporting-laws 5 o regs memory begun child begun.world plays e (some (clock time))
        time_stop 0 0x857f call_stop in
    let left =
      leaves reporting-laws 5 o regs memory begun child begun.world plays e (some (clock time))
        answered time_stop run in
    let both : ok tt (in_world answered answered.world) ≡ ok tt s' = sym served ∙ given in
    let same : in_world answered answered.world ≡ s' = ground arith in
    subst (λ (x : State). x.world.regs.orig_rax ≡ minus_one) same
      (ap (λ (r : Regs). r.orig_rax) left.regs)

lives : Lives view 0 2 (λ j. 5 == j) begun
lives = calls 5 0x857f (some (clock time)) regs memory refl refl call_stop time_stop (λ s1 served.
    exits 5 0 refl (rw (cancelled s1 served) refl) refl (λ s2 served2.
      over (λ j. elim (Bool-cases (5 == j)) [ inl e ↦ rw e refl | inr e ↦ rw e refl ])))

handle_event-Lives_example :
    Returns (λ _ s'. IsTable s' × ((j : ℕ) → Map.view s' j ≡ none)) (handle_event 3 0 begun)
handle_event-Lives_example =
    handle_event-Lives reporting-laws reporting-frames 0 2 (λ j. 5 == j) begun tracking lives

main-Lives_example :
    Returns
      (λ c s'. (c ≡ status 0) × IsTable s' × ((j : ℕ) → Map.view s' j ≡ none))
      (main 3 0 none words unstarted)
main-Lives_example =
    main-Lives 5 none unstarted initial launches reporting-laws reporting-frames 0 2 words
      (omega arith) lives
