-- ===== src/Syscalls/Safe.antt =====
-- A system call is served without a use of NULL or of a freed struct.
use reproduce.Prelude.{ℕ, ◌≡◌, refl, some, arith, ◌∙◌}
use reproduce.Prelude.Assoc
use reproduce.Kernel.{Kernel, Regs}
use reproduce.Kernel.Stays.{StaysThere}
use reproduce.Putils.Text.Safe.{read_string-then}
use reproduce.Uthash.{Uthash}
use reproduce.Tracer.{ChildProcess, State, Cmd, load, ◌>>=◌}
use reproduce.Tracer.Keeps.{IsOwn, Safe, Keeps-bind}
use reproduce.Tracer.Macros.{in_world}
use reproduce.HashTable.View.{IsTable}
use reproduce.HashTable.Changes.{IsTable-IsOwn}
use reproduce.HashTable.Keeps.{timed-IsTable}
use reproduce.Putils.Registers.{r_arg2}
use reproduce.Putils.Child.Keeps.{child_cancel_syscall-Keeps}
use reproduce.Syscalls.{
  tick, advance_clock, redirect_path, redirect_dev_random, hook_getrandom, handle_syscall,
}
use reproduce.Syscalls.Keeps.{some_path-Keeps, filled-Keeps, handle_syscall-KeepsOr}

module _ ⦃k : Kernel⦄ ⦃u : Uthash⦄ (child : ℕ) where
  -- The table is well formed, and the address is one of a struct.
  pub record HasStruct (s : State) : Type 0 where
    pub table : IsTable s
    pub c : ChildProcess
    pub struct : Assoc.lookup child s.heap ≡ some c

  HasStruct-IsOwn : IsOwn HasStruct
  HasStruct-IsOwn = record {
    move = λ s w h. record { table = IsTable-IsOwn.move s w h.table; c = h.c; struct = h.struct };
  }

  load-Safe :
      (f : ChildProcess → Cmd (Unit {0}))
      → ((c : ChildProcess) → Safe HasStruct (f c))
      → Safe HasStruct (load child >>= f)
  load-Safe f kf = record { at = λ s h. rw h.struct ((kf h.c).at s h) }

  advance-Safe : Safe HasStruct (advance_clock child)
  unfolding advance_clock
  advance-Safe = record {
    at = λ s h. rw h.struct (record {
      table = timed-IsTable child _ s h.c h.table h.struct;
      c = record h.c { gettime_data = tick h.c.gettime_data };
      struct = Assoc.lookup-write child child _ s.heap ∙ ground arith;
    });
  }

module _ ⦃k : Kernel⦄ ⦃u : Uthash⦄ (stays : StaysThere k) where
  module _ {P : State → Type 0} (own : IsOwn P) where
    redirect-Safe : (pid : ℕ) (regs : Regs) → Safe P (redirect_dev_random pid regs)
    unfolding redirect_dev_random
    redirect-Safe pid regs =
        read_string-then stays own (r_arg2 regs) pid (redirect_path pid regs)
          (some_path-Keeps own pid regs)

    getrandom-Safe : (pid : ℕ) (regs : Regs) → Safe P (hook_getrandom pid regs)
    unfolding hook_getrandom
    getrandom-Safe pid regs = Keeps-bind _ _ (child_cancel_syscall-Keeps own pid regs) (λ regs'.
        record {
          at = λ s h.
              let given = stays.malloc (Assoc.addresses s.heap) (r_arg2 regs) s.world in
              (filled-Keeps own pid regs' _ (r_arg2 regs) _ (rw given refl)).at
                (in_world s (k.malloc (Assoc.addresses s.heap) (r_arg2 regs) s.world).1)
                (own.move s _ h);
        })

  pub handle_syscall-Safe :
      (child : ℕ) (regs : Regs) → Safe (HasStruct child) (handle_syscall child regs)
  handle_syscall-Safe child =
      handle_syscall-KeepsOr (HasStruct-IsOwn child) child (load-Safe child) (advance-Safe child)
        (getrandom-Safe (HasStruct-IsOwn child)) (redirect-Safe (HasStruct-IsOwn child))
