-- ===== src/Events/Histories/Steps.antt =====
-- One stop of a program in a history: `handle_syscall` of reproduce/src/syscalls.c, and the round for it.
use reproduce.Prelude.{
  ℕ, ◌+◌, ◌*◌, ◌≡◌, refl, true, Option, none, some, ◌∙◌, ap, ap₂, sym, fun_ext, subst, arith,
}
use reproduce.Prelude.Assoc
use reproduce.Putils.Text.Readable.{Readable-SameMemory}
use reproduce.Syscalls.Open.Opened.{opens_device}
use reproduce.Kernel.{Kernel, Regs}
use reproduce.Kernel.Laws.{View, Ptrace, AtEntry, SameMemory, SameMemory-trans}
use reproduce.Uthash.{Uthash}
use reproduce.Tracer.{State, Run, ok}
use reproduce.Tracer.Outcome.{Leaves, Returns, returns}
use reproduce.Tracer.Macros.{in_world}
use reproduce.Putils.Registers.{r_syscall, r_arg1, r_arg2}
use reproduce.HashTable.View.{IsTable, behind}
use reproduce.HashTable.Changes.{IsTable-IsOwn}
use reproduce.Syscalls.{handle_syscall}
use reproduce.Syscalls.Steps.{handle_syscall-unhooked}
use reproduce.Syscalls.Keeps.{handle_syscall-Keeps}
use reproduce.Syscalls.Clock.{answer_address}
use reproduce.Syscalls.Reproducible.{
  AnsweredCall, random, clock, opening, Seen, answer, CanAnswer, Caught, Shows, Caught-Gives,
}
use reproduce.Tracer.Outcome.{at_ok, run_of}
use reproduce.Syscalls.Programs.{
  Program, call_of, call_of-unhooked, answered_as, go_on, next_stop, answered_by,
}
use reproduce.Events.{serve, hook}
use reproduce.Events.Loop.{IsTable-IsInvariant}
use reproduce.Events.Stops.{StopStatus, serve-plain, hook-Resumed}
use reproduce.ProcInit.Stack.{Resumed}
use reproduce.Events.Histories.{struct_of, registers_read, Plays, StandsAt}

-- A run that is known returns with exactly its state.
lands : {S : Type 0} {r : Run S (Unit {0})} {s : S} → r ≡ ok tt s → Returns (λ _ s1. s1 ≡ s) r
lands e = rw e (returns refl)

module _ ⦃k : Kernel⦄ ⦃u : Uthash⦄ (v : View k.World) (j : ℕ) where
  CanAnswer-moved :
      (call : AnsweredCall) (r : Regs) (s : State) (w w' : k.World)
      → SameMemory v j w w'
      → (AtEntry v j w → AtEntry v j w')
      → v.regs w' j ≡ v.regs w j
      → CanAnswer v (in_world s w) j call r
      → CanAnswer v (in_world s w') j call r
  CanAnswer-moved random r s w w' kept enters regs (entry, covers, room) =
      (enters entry, λ n lt. kept.mapped (r_arg1 r + 8 * n) ∙ covers n lt, room)
  CanAnswer-moved (clock call) r s w w' kept enters regs (entry, can) =
      (enters entry, λ given n lt. kept.mapped (answer_address call r + 8 * n) ∙ can given n lt)
  CanAnswer-moved (opening call) r s w w' kept enters regs (readable, runs) = (
    Readable-SameMemory v j w w' (r_arg2 r) kept readable,
    λ device.
        let (entry, run) = runs (subst (λ m. opens_device r m ≡ true) (fun_ext kept.byte) device) in
        (enters entry, λ w2 at kept2 same. run w2 at (SameMemory-trans kept kept2) (same ∙ regs)),
  )

  -- Behind a stop, with the process still stopped: what it and its clock are.
  pub record Left (child : ℕ) (o : Seen) (s s1 : State) : Type 0 where
    pub stopped : v.Stopped s1.world j
    pub regs : v.regs s1.world j ≡ o.regs
    pub memory : (a : ℕ) → v.byte s1.world j a ≡ o.memory a
    pub table : s1.process_table ≡ s.process_table
    pub time : Assoc.lookup child s1.heap ≡ some (struct_of j o.time)

module _ ⦃k : Kernel⦄ ⦃u : Uthash⦄ {v : View k.World} (laws : Ptrace v) (j : ℕ) (o : Seen)
    (r : Regs) (m : ℕ → ℕ) (s : State) (child : ℕ) (w : k.World) (p : Plays j o r m s)
    (e : u.find s.process_table j ≡ some child) where
  -- the registers of the stop, and the state in which they have been read
  abbrev r0 : Regs
  r0 = v.regs w j

  abbrev read : State
  read = registers_read j (in_world s w)

  here : Assoc.lookup child s.heap ≡ some (struct_of j o.time)
  here = sym (ap (behind s.heap) e) ∙ p.has.struct

  read_memory :
      v.Stopped w j → ((a : ℕ) → v.byte w j a ≡ m a) → (a : ℕ) → v.byte read.world j a ≡ o.memory a
  read_memory stopped memory a =
      (laws.getregs-memory w j stopped).byte a ∙ memory a ∙ ap (λ (x : ℕ → ℕ). x a) p.memory

  -- The call of the process, as one that `handle_syscall` is given.
  abbrev caught :
      (call : AnsweredCall)
      → StandsAt v j (some call) r m (in_world s w)
      → Caught call r0 o.memory o.time
  caught call at =
      let kept = laws.getregs-memory w j at.stopped in
      record {
        view = v;
        laws = laws;
        pid = j;
        child = child;
        state = read;
        stopped = kept.stopped;
        entered = laws.getregs-regs w j at.stopped;
        memory = read_memory at.stopped at.memory;
        here = here;
        called = at.called;
        can_answer =
            CanAnswer-moved v j call r0 s w (k.getregs j w).1 kept (laws.getregs-entry w j)
              (laws.getregs-regs w j at.stopped) at.can_answer;
      }

  -- The stop is handled.
  handles :
      (call : Option AnsweredCall)
      → StandsAt v j call r m (in_world s w)
      → (answered : State) × (handle_syscall child r0 read ≡ ok tt answered)
  handles none at =
      (read, handle_syscall-unhooked child r0 read (struct_of j o.time) here at.called)
  handles (some call) at = run_of (Caught-Gives call r0 o.memory o.time (caught call at))

  pub leaves :
      (call : Option AnsweredCall) (answered : State)
      → StandsAt v j call r m (in_world s w)
      → handle_syscall child r0 read ≡ ok tt answered
      → Left v j child (answered_as call (record o { regs = r0 })) s answered
  leaves none answered at run =
      let done : ok tt read ≡ ok tt answered =
        sym (handle_syscall-unhooked child r0 read (struct_of j o.time) here at.called) ∙ run in
      let same : read ≡ answered = ground arith in
      subst (Left v j child (record o { regs = r0 }) s) same (record {
        stopped = (laws.getregs-memory w j at.stopped).stopped;
        regs = laws.getregs-regs w j at.stopped;
        memory = read_memory at.stopped at.memory;
        table = refl;
        time = here;
      })
  leaves (some call) answered at run =
      let shown : Shows (caught call at) (answer call r0 o.memory o.time) answered =
        at_ok (Caught-Gives call r0 o.memory o.time (caught call at)) run in
      record {
        stopped = shown.stopped;
        regs = shown.regs;
        memory = shown.memory;
        table = shown.table;
        time = shown.time;
      }

  -- The answer is the one of the program played on its own.
  answered_alike :
      (call : Option AnsweredCall)
      → StandsAt v j call r m (in_world s w)
      → answered_as (call_of (r_syscall o.regs)) o ≡ answered_as call (record o { regs = r0 })
  answered_alike none at =
      let same : r0 ≡ o.regs = at.regs ∙ p.regs in
      let number : call_of (r_syscall o.regs) ≡ none =
        ap (λ (x : Regs). call_of (r_syscall x)) (sym same)
        ∙ call_of-unhooked (r_syscall r0) at.called in
      ap (λ x. answered_as x o) number ∙ ap (λ (x : Regs). record o { regs = x }) (sym same)
  answered_alike (some call) at = answered_by call o r0 (at.regs ∙ p.regs) at.called

  module _ (call : Option AnsweredCall) (at : StandsAt v j call r m (in_world s w)) where
    module _ (program : Program) (answered : State)
        (run : handle_syscall child r0 read ≡ ok tt answered) where
      abbrev on : Regs × (ℕ → ℕ)
      on = program (v.regs answered.world j) (v.byte answered.world j)

      abbrev after : State
      after = in_world answered (k.syscall j answered.world).1

      answered-IsTable : IsTable answered
      answered-IsTable = subst (Leaves IsTable) run (
          (handle_syscall-Keeps IsTable-IsOwn child (IsTable-IsInvariant.advance child) r0).at _
            (IsTable-IsOwn.move s _ p.has.table))

      -- One stop of the process, served.
      pub Plays-answered : Plays j (next_stop program o) on.0 on.1 after
      Plays-answered =
          let left = leaves call answered at run in
          subst (λ x. Plays j (go_on program x) on.0 on.1 after) (sym (answered_alike call at))
            (record {
              regs = ap₂ (λ q b. (program q b).0) left.regs (fun_ext left.memory);
              memory = ap₂ (λ q b. (program q b).1) left.regs (fun_ext left.memory);
              has = record {
                table = IsTable-IsOwn.move answered _ answered-IsTable;
                struct =
                    ap (behind answered.heap) (ap (λ t. u.find t j) left.table ∙ e) ∙ left.time;
              };
            })

    -- The part of the round under "Hook system calls" returns.
    pub hooks :
        (fuel : ℕ)
        → (answered : State) × (handle_syscall child r0 read ≡ ok tt answered)
          × (hook fuel j (in_world s w) ≡ ok tt (in_world answered (k.syscall j answered.world).1))
    hooks fuel =
        let (answered, run) = handles call at in
        let resumed =
          hook-Resumed laws fuel j (in_world s w) at.stopped child (λ s1. s1 ≡ answered) e
            (lands run)
            (λ s1 same.
              subst (λ (x : State). v.Stopped x.world j) (sym same)
                (leaves call answered at run).stopped) in
        let (s', served) = run_of resumed in
        let q : Resumed j (λ s1. s1 ≡ answered) s' = at_ok resumed served in
        (
          answered,
          run,
          served
              ∙ ap (ok tt)
                  (q.resumed ∙ ap (λ (x : State). in_world x (k.syscall j x.world).1) q.holds),
        )

    -- The round of the event loop for the stop returns.
    pub answers :
        (fuel status : ℕ)
        → StopStatus 0 status
        → (answered : State) × (handle_syscall child r0 read ≡ ok tt answered)
          × (serve fuel j status (in_world s w)
              ≡ ok tt (in_world answered (k.syscall j answered.world).1))
    answers fuel status st =
        let (answered, run, hooked) = hooks fuel in
        (answered, run, serve-plain fuel j status (in_world s w) st ∙ hooked)
