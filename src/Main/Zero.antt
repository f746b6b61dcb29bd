-- ===== src/Main/Zero.antt =====
-- When `main` of reproduce/src/main.c returns the status 0.
use reproduce.Prelude.{
  ℕ, ◌^◌, ◌<◌, ◌≤◌, ◌≡◌, Bool, none, if◌then◌else◌, ◌⊎◌, inl, inr, refl, true, false, ◌||◌, Option,
  List, ltb, ◌==◌, length, Bool-cases, arith, ◌↔◌, ap, sym,
}
use reproduce.Kernel.{Kernel, Wait, changed, failed, only, minus_one, wifexited, wifsignaled}
use reproduce.Uthash.{Uthash}
use reproduce.Tracer.{State, ok}
use reproduce.HashTable.Fresh.{address_of_new, with_new, insert_process-absent, insert_process-full}
use reproduce.Events.Runs.{Loops}
use reproduce.Main.{
  status, seed_of, replaced, trace_options, initialize_seed, run_child, start_trace, run_parent,
  main,
}
use reproduce.Main.Start.{IsInitial, Launches, launched, waited, options_set, main-Loops}

module _ ⦃k : Kernel⦄ ⦃u : Uthash⦄ where
  not_zero :
      (done : Bool) (s s' : State)
      → ok (if done then replaced else status 1) s ≡ ok (status 0) s'
      → ⊥
  not_zero true s s' e = absurd (ground arith)
  not_zero false s s' e = absurd (ground arith)

  -- The process that acts as the child never ends with 0.
  run_child-status : (args : List (List ℕ)) (s s' : State) → run_child args s ≡ ok (status 0) s' → ⊥
  unfolding run_child
  run_child-status args s s' e = elim (Bool-cases ((k.traceme s.world).0.ret == minus_one)) [
    | inl refused ↦ let f = rw refused at e in absurd (ground arith)
    | inr granted ↦ not_zero _ _ s' (rw granted at e)
  ]

  module _ (p seed : ℕ) (s : State) where
    -- The process that `main` has started ends before it can be traced.
    pub record EndsEarly (s' : State) : Type 0 where
      pub positive : 0 < p
      pub in_range : p < 2 ^ 31
      pub who : ℕ
      pub stop : ℕ
      pub reported : (k.waitpid (only p) (k.srandom seed (k.fork s.world).1)).0 ≡ changed who stop
      pub ended : (wifexited stop || wifsignaled stop) ≡ true
      pub left : s' ≡ waited p seed s

    abbrev Granted : Type 0
    Granted =
        (((k.setoptions p trace_options (waited p seed s).world).0.ret == minus_one) ≡ false)
        × ((address_of_new (options_set p seed s) p == 0) ≡ false)
        × (((k.syscall p (with_new (options_set p seed s) p).world).0.ret == minus_one) ≡ false)

    -- The start of the trace ends with 0 only when every request is granted.
    start_trace-Granted :
        (rounds fuel : ℕ) (s' : State)
        → u.find s.process_table p ≡ none
        → start_trace rounds fuel p (waited p seed s) ≡ ok (status 0) s'
        → Granted
    unfolding start_trace
    start_trace-Granted rounds fuel s' absent e =
        elim (Bool-cases
          ((k.setoptions p trace_options (waited p seed s).world).0.ret == minus_one)) [
            | inl refused ↦ let f = rw refused at e in absurd (ground arith)
            | inr set ↦ elim (Bool-cases (address_of_new (options_set p seed s) p == 0)) [
              | inl full ↦
                  let f = rw (set, insert_process-full (options_set p seed s) p absent full) at e in
                  absurd (ground arith)
              | inr room ↦
                  elim (Bool-cases
                    ((k.syscall p (with_new (options_set p seed s) p).world).0.ret == minus_one)) [
                      | inl refused ↦
                          let f =
                            rw
                              (
                                set,
                                insert_process-absent (options_set p seed s) p absent room,
                                refused,
                              )
                              at e in
                          absurd (ground arith)
                      | inr resumed ↦ (set, room, resumed)
                    ]
            ]
          ]

  module _ (rounds fuel : ℕ) (seed_str : Option (List ℕ)) (argv : List (List ℕ)) (s s' : State)
      (i : IsInitial s) where
    abbrev p : ℕ
    p = (k.fork s.world).0

    abbrev seed : ℕ
    seed = seed_of seed_str

    abbrev Traces : Type 0
    Traces = Launches p seed s × ((n : ℕ) × (n < rounds) × Loops fuel n (launched p seed s) s')

    absent : u.find s.process_table p ≡ none
    absent = rw i.table (u.find-empty p)

    module _ (positive : 0 < p) (in_range : p < 2 ^ 31) (named : 2 ≤ length argv)
        (e : main rounds fuel seed_str argv s ≡ ok (status 0) s') where
      abbrev Parts : Wait → Type 0
      Parts w =
          (k.waitpid (only p) (k.srandom seed (k.fork s.world).1)).0 ≡ w
          → run_parent rounds fuel p w (waited p seed s) ≡ ok (status 0) s'
          → EndsEarly p seed s s' ⊎ Traces

      of_reported : (w : Wait) → Parts w
      unfolding run_parent
      of_reported (failed code) said f = absurd (ground arith)
      of_reported (changed who stop) said f =
          elim (Bool-cases (wifexited stop || wifsignaled stop)) [
            | inl ended ↦
                let g : ok (status 0) (waited p seed s) ≡ ok (status 0) s' = rw ended at f in
                let left : s' ≡ waited p seed s = ground arith in
                inl (record {
                  positive = positive;
                  in_range = in_range;
                  who = who;
                  stop = stop;
                  reported = said;
                  ended = ended;
                  left = left;
                })
            | inr alive ↦
                let g = rw alive at f in
                let (set, room, resumed) = start_trace-Granted p seed s rounds fuel s' absent g in
                let l : Launches p seed s = record {
                  forked = refl;
                  positive = positive;
                  in_range = in_range;
                  who = who;
                  stop = stop;
                  stopped = said;
                  alive = alive;
                  set = set;
                  room = room;
                  resumed = resumed;
                } in
                inr (l, ((main-Loops rounds fuel p seed_str argv s i named l).0 s').0 e)
          ]

    zero-of_early :
        2 ≤ length argv
        → EndsEarly p seed s s'
        → main rounds fuel seed_str argv s ≡ ok (status 0) s'
    unfolding main run_parent initialize_seed
    zero-of_early named early =
        let enough : ltb (length argv) 2 ≡ false = ground arith in
        let pos = early.positive in
        let below = early.in_range in
        let parent : (p == 0) ≡ false = ground arith in
        let signed : ltb p (2 ^ 31) ≡ true = ground arith in
        rw (enough, parent, signed, early.reported, early.ended)
          (ap (ok (status 0)) (sym early.left))

    -- Started with no process in the table, `main` returns the status 0 exactly when it is given a
    -- program, `fork` has made a process, and that process either ends before it can be traced, or
    -- every request of the parent that starts the trace is granted, and the loop without a bound then
    -- goes to the state that `main` leaves, in fewer rounds than the bound.
    pub main-zero_iff :
        (main rounds fuel seed_str argv s ≡ ok (status 0) s')
        ↔ ((2 ≤ length argv) × (EndsEarly p seed s s' ⊎ Traces))
    unfolding main run_parent initialize_seed
    main-zero_iff = (
      λ e. elim (Bool-cases (ltb (length argv) 2)) [
        | inl few ↦ let f = rw few at e in absurd (ground arith)
        | inr enough ↦ elim (Bool-cases (p == 0)) [
          | inl child ↦ absurd (run_child-status _ _ s' (rw (enough, child) at e))
          | inr parent ↦ elim (Bool-cases (ltb p (2 ^ 31))) [
            | inr negative ↦ let f = rw (enough, parent, negative) at e in absurd (ground arith)
            | inl signed ↦
                let named : 2 ≤ length argv = ground arith in
                (
                  named,
                  of_reported (ground arith) (ground arith) named e _ refl
                      (rw (enough, parent, signed) at e),
                )
          ]
        ]
      ],
      λ (named, how). elim how [
        | inl early ↦ zero-of_early named early
        | inr (l, looped) ↦ ((main-Loops rounds fuel p seed_str argv s i named l).0 s').1 looped
      ],
    )
