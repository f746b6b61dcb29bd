-- ===== src/Events/Stops/Passes.antt =====
-- A stop at a system call that the tracer does not answer.
use reproduce.Prelude.{ℕ, ◌≡◌, refl, false, some}
use reproduce.Prelude.Assoc
use reproduce.Kernel.{Kernel}
use reproduce.Kernel.Laws.{View, Ptrace, SameMemory}
use reproduce.Uthash.{Uthash}
use reproduce.Tracer.{ChildProcess, State}
use reproduce.Tracer.Outcome.{Returns, returns, SameTables}
use reproduce.Tracer.Macros.{in_world}
use reproduce.Putils.Registers.{r_syscall}
use reproduce.ProcInit.Stack.{Resumed}
use reproduce.Syscalls.Steps.{is_hooked, handle_syscall-unhooked}
use reproduce.Events.{serve}
use reproduce.Events.Stops.{StopStatus, serve-plain, hook-Resumed}

module _ ⦃k : Kernel⦄ ⦃u : Uthash⦄ {v : View k.World} (laws : Ptrace v) (fuel p child : ℕ)
    (c : ChildProcess) (status : ℕ) (s : State) where
  -- The process is as it was when it stopped, and so are the variables of the tracer.
  pub record Untouched (s1 : State) : Type 0 where
    pub same : SameTables s s1
    pub kept : SameMemory v p s.world s1.world
    pub regs : v.regs s1.world p ≡ v.regs s.world p

  -- A traced process that stops, with no event, at any other system call than the hooked ones: the
  -- round returns, and has resumed the process with its memory and registers as they were, and the
  -- variables of the tracer as they were.
  pub serve-unhooked :
      u.find s.process_table p ≡ some child
      → Assoc.lookup child s.heap ≡ some c
      → StopStatus 0 status
      → v.Stopped s.world p
      → is_hooked (r_syscall (v.regs s.world p)) ≡ false
      → Returns (λ _ s'. Resumed p Untouched s') (serve fuel p status s)
  serve-unhooked e here st stopped other =
      let kept = laws.getregs-memory s.world p stopped in
      let read : State = in_world s (k.getregs p s.world).1 in
      rw (serve-plain fuel p status s st) (
        hook-Resumed laws fuel p s stopped child Untouched e
          (rw (handle_syscall-unhooked child (v.regs s.world p) read c here other) (
            returns (record {
              same = record { table = refl; count = refl; heap = refl };
              kept = kept;
              regs = laws.getregs-regs s.world p stopped;
            })))
          (λ s1 untouched. untouched.kept.stopped))
