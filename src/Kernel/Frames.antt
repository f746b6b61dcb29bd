-- ===== src/Kernel/Frames.antt =====
-- What a request, or a call of the tracer's own C library, leaves of a stopped tracee that it is not
-- about: the stop and the registers. Of its memory nothing is said, since processes can share theirs.
use reproduce.Prelude.{ℕ, ◌≡◌, ◌==◌, false, List, ◌∙◌}
use reproduce.Kernel.{Kernel, only}
use reproduce.Kernel.Laws.{View}

-- The tracee is still stopped, with the same registers.
pub record StillThere {W : Type 0} (v : View W) (p : ℕ) (w w' : W) : Type 0 where
  pub stopped : v.Stopped w' p
  pub regs : v.regs w' p ≡ v.regs w p

pub record Frames ⦃k : Kernel⦄ (v : View k.World) : Type 1 where
  -- the message of the event is read from the tracee itself
  pub geteventmsg : (w : k.World) (p : ℕ) → v.Stopped w p → StillThere v p w (k.geteventmsg p w).1
  pub malloc :
      (live : List ℕ) (size : ℕ) (w : k.World) (p : ℕ)
      → v.Stopped w p
      → StillThere v p w (k.malloc live size w).1
  pub waitpid :
      (w : k.World) (p q : ℕ)
      → (q == p) ≡ false
      → v.Stopped w p
      → StillThere v p w (k.waitpid (only q) w).1
  pub syscall :
      (w : k.World) (p q : ℕ)
      → (q == p) ≡ false
      → v.Stopped w p
      → StillThere v p w (k.syscall q w).1

pub StillThere-trans :
    {W : Type 0} {v : View W} {p : ℕ} {w1 w2 w3 : W}
    → StillThere v p w1 w2
    → StillThere v p w2 w3
    → StillThere v p w1 w3
StillThere-trans a b = record { stopped = b.stopped; regs = b.regs ∙ a.regs }
