-- ===== src/Events/Histories.antt =====
-- What a program sees while the event loop of reproduce/src/events.c serves it among other processes.
pub mod Execs
pub mod Forks
pub mod Played
pub mod Steps
use reproduce.Prelude.{ℕ, zero, suc, ◌≡◌, false, ◌==◌, Option, none, some}
use reproduce.Kernel.{Kernel, Regs}
use reproduce.Kernel.Laws.{View}
use reproduce.Uthash.{Uthash}
use reproduce.Tracer.{ChildProcess, Timespec, State, ok}
use reproduce.Tracer.Macros.{in_world}
use reproduce.Putils.Registers.{r_syscall}
use reproduce.Syscalls.{handle_syscall}
use reproduce.Syscalls.Reproducible.{AnsweredCall, call_number, Seen, CanAnswer}
use reproduce.Syscalls.Steps.{is_hooked}
use reproduce.Syscalls.Programs.{Program}
use reproduce.Events.{serve, register_new_child}
use reproduce.Events.Isolation.{HasProcess}

abbrev pub struct_of : (pid : ℕ) → Timespec → ChildProcess
struct_of pid t = record { pid = pid; gettime_data = t }

module _ ⦃k : Kernel⦄ ⦃u : Uthash⦄ (j : ℕ) where
  -- the state in which its registers have been read
  abbrev pub registers_read : State → State
  registers_read s = in_world s (k.getregs j s.world).1

  -- The process is traced, and it will next stop as `o` says, with the clock of `o`.
  pub record Plays (o : Seen) (r : Regs) (m : ℕ → ℕ) (s : State) : Type 0 where
    pub regs : r ≡ o.regs
    pub memory : m ≡ o.memory
    pub has : HasProcess j (struct_of j o.time) s

-- The number of a call that the tracer looks at, or, without one, of a call that it does not look at.
abbrev pub IsNumber : Option AnsweredCall → ℕ → Type 0
IsNumber none n = is_hooked n ≡ false
IsNumber (some call) n = n ≡ call_number call

-- The tracer can serve the call (`CanAnswer`).
abbrev pub CanServe :
    ⦃k : Kernel⦄ ⦃u : Uthash⦄ → View k.World → ℕ → State → Option AnsweredCall → Regs → Type 0
CanServe v j s none r = Unit
CanServe v j s (some call) r = CanAnswer v s j call r

module _ ⦃k : Kernel⦄ ⦃u : Uthash⦄ (v : View k.World) (j : ℕ) where
  -- The machine reports a stop of the process at a call that the tracer looks at, and can serve, or at
  -- one that it does not look at.
  pub record StandsAt (call : Option AnsweredCall) (r : Regs) (m : ℕ → ℕ) (s : State) : Type 0 where
    pub stopped : v.Stopped s.world j
    pub regs : v.regs s.world j ≡ r
    pub memory : (a : ℕ) → v.byte s.world j a ≡ m a
    pub called : IsNumber call (r_syscall (v.regs s.world j))
    pub can_answer : CanServe v j s call (v.regs s.world j)

module _ ⦃k : Kernel⦄ ⦃u : Uthash⦄ (v : View k.World) (fuel j : ℕ) (program : Program) where
  -- A run of the event loop from `s0` on, in which the process has stopped at some calls, and will
  -- next stop with these registers and this memory, if it goes on as the program, which is also what
  -- becomes of the calls that the tracer passes on. Before each report the machine may do anything, and
  -- rounds for other processes stand in between. A round for a child of the process itself adopts the
  -- child first; what follows is as for another stop.
  pub data History (o : Seen) (s0 : State) : (stops : ℕ) → Regs → (ℕ → ℕ) → State → Type 0 where
    begins : History o s0 zero o.regs o.memory s0
    other :
        {n : ℕ} {r : Regs} {m : ℕ → ℕ} {s s' : State} (pid status : ℕ) (w : k.World)
        → (pid == j) ≡ false
        → History o s0 n r m s
        → serve fuel pid status (in_world s w) ≡ ok tt s'
        → History o s0 n r m s'
    adopts :
        {n : ℕ} {r : Regs} {m : ℕ → ℕ} {s s' : State} (w : k.World)
        → History o s0 n r m s
        → register_new_child j (in_world s w) ≡ ok tt s'
        → History o s0 n r m s'
    own :
        {n : ℕ} {r : Regs} {m : ℕ → ℕ} {s answered : State} (child : ℕ) (w : k.World)
        (call : Option AnsweredCall)
        → History o s0 n r m s
        → u.find s.process_table j ≡ some child
        → StandsAt v j call r m (in_world s w)
        → handle_syscall child (v.regs w j) (registers_read j (in_world s w)) ≡ ok tt answered
        → History o s0
            (suc n)
            (program (v.regs answered.world j) (v.byte answered.world j)).0
            (program (v.regs answered.world j) (v.byte answered.world j)).1
            (in_world answered (k.syscall j answered.world).1)
