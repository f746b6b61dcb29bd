-- ===== src/Main/Keeps.antt =====
-- What the whole tracer keeps, whatever the kernel reports and replies.
use reproduce.Prelude.{ℕ, List, Option}
use reproduce.Kernel.{Kernel, Wait, changed, failed}
use reproduce.Uthash.{Uthash}
use reproduce.Tracer.{State}
use reproduce.Tracer.Keeps.{KeepsOr, keeps_rules}
use reproduce.Tracer.Outcome.{Leaves}
use reproduce.HashTable.View.{IsTable}
use reproduce.Events.Loop.{IsKept, IsInvariant-IsKept, IsTable-IsInvariant, handle_event-Keeps}
use reproduce.Main.{initialize_seed, stop_self, seed_of, run_child, start_trace, run_parent, main}

module _ ⦃k : Kernel⦄ ⦃u : Uthash⦄ where
  module _ {F : Type 0} {P : State → Type 0} (i : IsKept F P) where
    initialize_seed-Keeps : (seed_str : Option (List ℕ)) → KeepsOr F P (initialize_seed seed_str)
    unfolding initialize_seed
    initialize_seed-Keeps seed_str = record {
      at = λ s t. i.own.move s (k.srandom (seed_of seed_str) s.world) t;
    }

    stop_self-Keeps : KeepsOr F P stop_self
    stop_self-Keeps = record { at = λ s t. i.own.move s (k.stop_self s.world) t }

    run_child-Keeps : (args : List (List ℕ)) → KeepsOr F P (run_child args)
    unfolding run_child
    run_child-Keeps args = search (keeps_rules, i.own, stop_self-Keeps) depth 12

    start_trace-Keeps : (rounds fuel p : ℕ) → KeepsOr F P (start_trace rounds fuel p)
    unfolding start_trace
    start_trace-Keeps rounds fuel p =
        search (keeps_rules, i.own, i.insert, handle_event-Keeps) depth 12

    run_parent-Keeps : (rounds fuel p : ℕ) (w : Wait) → KeepsOr F P (run_parent rounds fuel p w)
    unfolding run_parent
    run_parent-Keeps rounds fuel p (failed e) = search keeps_rules
    run_parent-Keeps rounds fuel p (changed q st) = search (keeps_rules, start_trace-Keeps)

    pub main-Keeps :
        (rounds fuel : ℕ) (seed_str : Option (List ℕ)) (argv : List (List ℕ))
        → KeepsOr F P (main rounds fuel seed_str argv)
    unfolding main
    main-Keeps rounds fuel seed_str argv =
        search (keeps_rules, i.own, initialize_seed-Keeps, run_child-Keeps, run_parent-Keeps) depth
          14

  -- Started on a well-formed table, `main` leaves a well-formed table whenever it leaves a state,
  -- whatever the kernel reports and replies.
  main-IsTable :
      (rounds fuel : ℕ) (seed_str : Option (List ℕ)) (argv : List (List ℕ)) (s : State)
      → IsTable s
      → Leaves IsTable (main rounds fuel seed_str argv s)
  main-IsTable rounds fuel seed_str argv s t =
      (main-Keeps (IsInvariant-IsKept IsTable-IsInvariant) rounds fuel seed_str argv).at s t
