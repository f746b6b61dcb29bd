-- ===== src/Events/Histories/Execs.antt =====
-- How a process comes to the program that it executes, under the event loop of reproduce/src/events.c.
use reproduce.Prelude.{
  ℕ, ◌%◌, ◌^◌, ◌+◌, ◌≤◌, ◌≡◌, false, ◌==◌, List, ◌∷◌, length, some, ◌∙◌, ap, ap₂, sym, subst,
  fun_ext,
}
use reproduce.Prelude.Assoc
use reproduce.Kernel.{Kernel, Regs, minus_one}
use reproduce.Kernel.Laws.{View, Ptrace}
use reproduce.Uthash.{Uthash}
use reproduce.Tracer.{ChildProcess, State, Timespec, ok}
use reproduce.Tracer.Outcome.{Leaves, Returns, SameTables}
use reproduce.Tracer.Macros.{in_world}
use reproduce.Putils.Registers.{r_syscall}
use reproduce.HashTable.View.{behind}
use reproduce.Vdso.Stack.{StackAt, hide, auxv_start}
use reproduce.ProcInit.Stack.{Resumed, Hidden}
use reproduce.Syscalls.Steps.{is_hooked}
use reproduce.Syscalls.Reproducible.{Seen}
use reproduce.Tracer.Outcome.{at_ok}
use reproduce.Events.{serve, event_exec}
use reproduce.Events.Isolation.{HasProcess, HasProcess-IsOwn, traced, serve-HasProcess}
use reproduce.Events.Stops.{StopStatus, serve-exec}
use reproduce.Events.Stops.Passes.{Untouched, serve-unhooked}

-- A program in memory, with its stack, and what it comes to from there: the registers and the memory
-- with which it stops at its first call.
pub record Image : Type 0 where
  pub stack_pointer : ℕ
  pub memory : ℕ → ℕ
  pub args : List ℕ
  pub env : List ℕ
  pub type : ℕ
  pub value : ℕ
  pub aux : List (ℕ × ℕ)
  pub enter : (ℕ → ℕ) → Regs × (ℕ → ℕ)

-- The memory of the program without the entry for the vDSO.
abbrev pub loaded : Image → ℕ → ℕ
loaded i = hide (auxv_start (i.stack_pointer + 8) i.args i.env) ((i.type, i.value) ∷ i.aux) i.memory

-- The first stop of the program, when it was started without that entry.
abbrev pub first_stop : Image → Timespec → Seen
first_stop i t = record { regs = (i.enter (loaded i)).0; memory = (i.enter (loaded i)).1; time = t }

module _ ⦃k : Kernel⦄ ⦃u : Uthash⦄ (v : View k.World) (j : ℕ) where
  -- The program has its memory without the entry.
  pub record IsLoaded (i : Image) (s1 : State) : Type 0 where
    pub stopped : v.Stopped s1.world j
    pub memory : (a : ℕ) → v.byte s1.world j a ≡ loaded i a

module _ ⦃k : Kernel⦄ ⦃u : Uthash⦄ (v : View k.World) (fuel j : ℕ) where
  -- The machine reports that the process executes the program, with a stack that can be read, and the
  -- fuel is enough for it.
  pub record ExecsAt (i : Image) (status : ℕ) (s : State) : Type 0 where
    pub event : StopStatus event_exec status
    pub stopped : v.Stopped s.world j
    pub stack_pointer : (v.regs s.world j).rsp ≡ i.stack_pointer
    pub memory : (a : ℕ) → v.byte s.world j a ≡ i.memory a
    pub clear : (i.stack_pointer == minus_one) ≡ false
    pub stack : StackAt v s.world j (i.stack_pointer + 8) i.args i.env ((i.type, i.value) ∷ i.aux)
    pub enough : length i.args + length i.env + length i.aux + 4 ≤ fuel

  pub ExecsAt-Resumed :
      (laws : Ptrace v) (i : Image) (status : ℕ) (s : State)
      → ExecsAt i status s
      → Returns
          (λ _ s'. Resumed j (Hidden laws j s i.args i.env ((i.type, i.value) ∷ i.aux)) s')
          (serve fuel j status s)
  ExecsAt-Resumed laws i status s at =
      serve-exec laws fuel j s at.stopped status i.type i.value i.args i.env i.aux at.event
        (rw at.stack_pointer at.clear) (rw at.stack_pointer at.stack) at.enough

  -- Rounds of the event loop in which the process, while it is not yet the program, has stopped only
  -- at calls that the tracer does not look at; rounds for other processes stand in between.
  pub data Waits (s0 : State) : State → Type 0 where
    waits : Waits s0 s0
    other :
        {s s' : State} (pid status : ℕ) (w : k.World)
        → (pid == j) ≡ false
        → Waits s0 s
        → serve fuel pid status (in_world s w) ≡ ok tt s'
        → Waits s0 s'
    passes :
        {s s' : State} (status : ℕ) (w : k.World)
        → StopStatus 0 status
        → v.Stopped w j
        → is_hooked (r_syscall (v.regs w j)) ≡ false
        → Waits s0 s
        → serve fuel j status (in_world s w) ≡ ok tt s'
        → Waits s0 s'

  -- Such rounds, and the round in which the process executes the program.
  pub data Enters (i : Image) (s0 : State) : State → Type 0 where
    enters :
        {s s' : State} (status : ℕ) (w : k.World)
        → Waits s0 s
        → ExecsAt i status (in_world s w)
        → serve fuel j status (in_world s w) ≡ ok tt s'
        → Enters i s0 s'

  module _ (laws : Ptrace v) (c : ChildProcess) where
    pub SameTables-HasProcess :
        (s s1 : State) → HasProcess j c s → SameTables s s1 → HasProcess j c s1
    SameTables-HasProcess s s1 h same = record {
      table = record {
        valid = subst u.Valid (sym same.table) h.table.valid;
        found = λ pid p e.
            rw same.heap (h.table.found pid p (ap (λ t. u.find t pid) (sym same.table) ∙ e));
        counted =
            same.count ∙ h.table.counted ∙ ap (λ t. length (u.iter t) % 2 ^ 32) (sym same.table);
      };
      struct = rw (same.heap, same.table) h.struct;
    }

    -- A round that has resumed the process with the variables of the tracer as they were.
    Resumed-HasProcess :
        (s s' : State) (P : State → Type 0)
        → HasProcess j c s
        → ((s1 : State) → P s1 → SameTables s s1)
        → Resumed j P s'
        → HasProcess j c s'
    Resumed-HasProcess s s' P h same q = subst (HasProcess j c) (sym q.resumed) (
        (HasProcess-IsOwn j c).move q.before _
          (SameTables-HasProcess s q.before h (same q.before q.holds)))

    Waits-HasProcess : {s0 s : State} → HasProcess j c s0 → Waits s0 s → HasProcess j c s
    Waits-HasProcess h waits = h
    Waits-HasProcess h (other {s = s} pid status w apart before run) =
        subst (Leaves (HasProcess j c)) run (
          serve-HasProcess j c fuel pid status (in_world s w)
            ((HasProcess-IsOwn j c).move s w (Waits-HasProcess h before)) apart)
    Waits-HasProcess h (passes {s = s} {s' = s'} status w st stopped unhooked before run) =
        let p = (HasProcess-IsOwn j c).move s w (Waits-HasProcess h before) in
        let (child, e) = traced j c (in_world s w) p in
        let here : Assoc.lookup child s.heap ≡ some c = sym (ap (behind s.heap) e) ∙ p.struct in
        Resumed-HasProcess (in_world s w) s' (Untouched laws fuel j child c status (in_world s w)) p
          (λ s1 q. q.same)
          (at_ok
            (serve-unhooked laws fuel j child c status (in_world s w) e here st stopped unhooked)
            run)

    -- Behind the round, the process is still traced, and it has been resumed as the program, without
    -- the entry.
    pub Enters-IsLoaded :
        (i : Image) {s0 s' : State}
        → HasProcess j c s0
        → Enters i s0 s'
        → Resumed j (IsLoaded v j i) s' × HasProcess j c s'
    Enters-IsLoaded i h (enters {s = s} {s' = s'} status w before at run) =
        let p = (HasProcess-IsOwn j c).move s w (Waits-HasProcess h before) in
        let q = at_ok (ExecsAt-Resumed laws i status (in_world s w) at) run in
        (
          record {
            before = q.before;
            holds = record {
              stopped = q.holds.held.stopped;
              memory = λ a.
                  q.holds.held.byte a
                  ∙ ap₂
                      (λ x (m : ℕ → ℕ).
                        hide (auxv_start (x + 8) i.args i.env) ((i.type, i.value) ∷ i.aux) m a)
                      at.stack_pointer (fun_ext at.memory);
            };
            resumed = q.resumed;
          },
          Resumed-HasProcess (in_world s w) s'
              (Hidden laws j (in_world s w) i.args i.env ((i.type, i.value) ∷ i.aux)) p
              (λ s1 hidden. hidden.same) q,
        )
