-- ===== src/Main/Safe.antt =====
-- `main` of reproduce/src/main.c without a use of NULL or of a freed struct.
use reproduce.Prelude.{ℕ, List, Option}
use reproduce.Kernel.{Kernel}
use reproduce.Kernel.Stays.{StaysThere}
use reproduce.Uthash.{Uthash}
use reproduce.Tracer.{State}
use reproduce.Tracer.Outcome.{LeavesOr}
use reproduce.HashTable.View.{IsTable}
use reproduce.Events.Safe.{IsTable-IsKept}
use reproduce.Main.{main}
use reproduce.Main.Keeps.{main-Keeps}
use reproduce.Main.Start.{IsInitial, IsInitial-IsTable}

module _ ⦃k : Kernel⦄ ⦃u : Uthash⦄ where
  -- Started with no process in the table, where the kernel never says ESRCH when registers or memory
  -- are read, and `malloc` never returns NULL: `main` does not come to a fault, that is to a use of
  -- NULL or of a freed struct, and whenever it leaves a state, the table is well formed in it; whatever
  -- else the kernel reports and replies, and whatever the processes do.
  pub main-no_fault :
      StaysThere k
      → (rounds fuel : ℕ) (seed_str : Option (List ℕ)) (argv : List (List ℕ)) (s : State)
      → IsInitial s
      → LeavesOr ⊥ IsTable (main rounds fuel seed_str argv s)
  main-no_fault stays rounds fuel seed_str argv s i =
      (main-Keeps (IsTable-IsKept stays) rounds fuel seed_str argv).at s (IsInitial-IsTable s i).0
