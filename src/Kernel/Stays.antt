-- ===== src/Kernel/Stays.antt =====
-- The replies of the kernel to the tracer while no process is killed between a stop and what is asked
-- of it there: ESRCH is not among them.
use reproduce.Prelude.{ℕ, List, Bool, false, ◌&&◌, ◌==◌, ◌≡◌}
use reproduce.Kernel.{Kernel, Reply, minus_one, esrch}

-- The reply says that there is no such process.
abbrev pub says_gone : Reply → Bool
says_gone r = (r.ret == minus_one) && (r.errno == esrch)

-- A stopped process is there when its registers and its memory are read, and `malloc` has memory.
pub record StaysThere (k : Kernel) : Type 0 where
  pub getregs : (p : ℕ) (w : k.World) → says_gone (k.getregs p w).0.0 ≡ false
  pub peekdata : (p a : ℕ) (w : k.World) → says_gone (k.peekdata p a w).0 ≡ false
  pub malloc : (live : List ℕ) (size : ℕ) (w : k.World) → ((k.malloc live size w).0 == 0) ≡ false
