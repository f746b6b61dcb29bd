-- ===== src/Sample/Examples/Starts.antt =====
-- The start of the tracer, its seed, and the arguments of a system call that it runs in the tracee.
use reproduce.Prelude.{ℕ, ◌<◌, ◌≡◌, ◌↔◌, refl, List, [], ◌∷◌, ◌++◌, arith, some, none, replicate}
use reproduce.Prelude.Bytes.{codes}
use reproduce.Tracer.{State, ok}
use reproduce.Putils.Registers.{w_syscall, r_syscall}
use reproduce.Putils.Child.{set_args}
use reproduce.Putils.Child.Arguments.{kernel_argument, set_args-kernel_argument}
use reproduce.Events.Runs.{Loops}
use reproduce.Main.{main, seed_of, status}
use reproduce.Prelude.Decimal.{decimal}
use reproduce.Main.Seed.{seed_of-decimal}
use reproduce.Prelude.{Bool-cases, inl, inr}
use reproduce.HashTable.View.{IsTable}
use reproduce.Kernel.Stays.{StaysThere}
use reproduce.Main.Safe.{main-no_fault}
use reproduce.Tracer.Outcome.{LeavesOr, Leaves}
use reproduce.Main.Clocks.{Clocks, main-Clocks}
use reproduce.Prelude.{◌≤◌, ◌⊎◌, length}
use reproduce.Main.Start.{IsInitial, Launches, launched}
use reproduce.Main.Zero.{EndsEarly, main-zero_iff}
use reproduce.Sample.Machine.{in_space, machine}
use reproduce.Sample.Table.{one_bucket}
use reproduce.Sample.Examples.{entry, mem_of}

seed_of-decimal_example : seed_of (some (replicate 2 b' ' ++ (decimal 4294967303 ++ codes "x"))) ≡ 7
seed_of-decimal_example = seed_of-decimal 2 4294967303 (codes "x") refl (omega arith)

-- Nothing is traced yet; the machine forks process 5.
abbrev blank : State
blank = record {
  world = record { mem = mem_of []; regs = entry 0 0 0; reports = [] };
  process_table = [];
  entry_count = 0;
  heap = [];
}

abbrev words : List (List ℕ)
words = codes "reproduce" ∷ codes "date" ∷ []

initial : IsInitial blank
initial = record { table = refl; count = refl; heap = refl }

main-zero_iff_example :
    (main 5 100 none words blank ≡ ok (status 0) (launched 5 (seed_of none) blank)) ↔ (
      (2 ≤ length words)
      × (EndsEarly 5 (seed_of none) blank (launched 5 (seed_of none) blank)
          ⊎ (Launches 5 (seed_of none) blank
              × ((n : ℕ) × (n < 5)
                  × Loops 100 n
                      (launched 5 (seed_of none) blank)
                      (launched 5 (seed_of none) blank)))))
main-zero_iff_example =
    main-zero_iff 5 100 none words blank (launched 5 (seed_of none) blank) initial

set_args-kernel_argument_example :
    (kernel_argument 3 (set_args (w_syscall (entry 39 0 0) 9) 6 (1 ∷ 2 ∷ 3 ∷ 4 ∷ 5 ∷ 6 ∷ [])) ≡ 0)
    × (r_syscall (set_args (w_syscall (entry 39 0 0) 9) 6 (1 ∷ 2 ∷ 3 ∷ 4 ∷ 5 ∷ 6 ∷ [])) ≡ 9)
set_args-kernel_argument_example =
    set_args-kernel_argument (entry 39 0 0) 9 6 3 (1 ∷ 2 ∷ 3 ∷ 4 ∷ 5 ∷ 6 ∷ []) (omega arith)

main-Clocks_example : Leaves Clocks (main 5 100 none words blank)
main-Clocks_example = main-Clocks 5 100 none words blank initial

stays : StaysThere machine
stays = record {
  getregs = λ p w. refl;
  peekdata =
      λ p a w. elim (Bool-cases (in_space a)) [ inl e ↦ rw e (ground arith) | inr e ↦ rw e refl ];
  malloc = λ live size w. ground arith;
}

main-no_fault_example : LeavesOr ⊥ IsTable (main 5 100 none words blank)
main-no_fault_example = main-no_fault stays 5 100 none words blank initial
