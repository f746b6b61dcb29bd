-- ===== src/Syscalls/Sessions.antt =====
-- A program that runs from call to call, each answered by the tracer.
use reproduce.Prelude.{ℕ, zero, suc, ◌≡◌, refl, some, ◌∙◌, ap₂, sym, fun_ext, subst}
use reproduce.Prelude.Assoc
use reproduce.Kernel.{Kernel, Regs}
use reproduce.Kernel.Laws.{View, Ptrace}
use reproduce.Uthash.{Uthash}
use reproduce.Tracer.{State, Cmd, ok, pure, ◌>>=◌}
use reproduce.Tracer.Outcome.{Returns, returns}
use reproduce.Putils.Registers.{r_syscall}
use reproduce.Syscalls.{handle_syscall}
use reproduce.Syscalls.Reproducible.{
  AnsweredCall, call_number, Seen, answer, CanAnswer, Caught, Shows, Caught-Gives,
}
use reproduce.Syscalls.Programs.{Program, go_on, next_stop, play, answered_by}
use reproduce.Tracer.Outcome.{at_ok, run_of}

module _ ⦃k : Kernel⦄ ⦃u : Uthash⦄ (v : View k.World) (pid child : ℕ) where
  -- What the program and its clock are, where it has stopped.
  pub record Sees (o : Seen) (s : State) : Type 0 where
    pub stopped : v.Stopped s.world pid
    pub regs : v.regs s.world pid ≡ o.regs
    pub memory : (a : ℕ) → v.byte s.world pid a ≡ o.memory a
    pub time : Assoc.lookup child s.heap ≡ some (record { pid = pid; gettime_data = o.time })

  -- From the answer to the next stop, the program runs, and its struct stays as it is. Everything
  -- else may change.
  pub record Continues (program : Program) (s s' : State) : Type 0 where
    pub stopped : v.Stopped s'.world pid
    pub regs : v.regs s'.world pid ≡ (program (v.regs s.world pid) (v.byte s.world pid)).0
    pub memory :
        (a : ℕ) → v.byte s'.world pid a ≡ (program (v.regs s.world pid) (v.byte s.world pid)).1 a
    pub time : Assoc.lookup child s'.heap ≡ Assoc.lookup child s.heap

  -- The tracer serves a number of calls of the process; `between` is what happens from the answer to
  -- the next stop.
  pub serve_calls : (between : State → State) → (calls : ℕ) → Cmd (Unit {0})
  serve_calls between zero = pure tt
  serve_calls between (suc calls) = λ s.
      (handle_syscall child (v.regs s.world pid) >>= λ _ s1. serve_calls between calls (between s1))
        s

  -- The program stands at a call that the tracer looks at, and can serve; and when it is resumed, it
  -- runs on to the next one.
  pub data Session (program : Program) (between : State → State)
      : (calls : ℕ) → State → Type 0 where
    at_stop : {s : State} → Session program between zero s
    at_call :
        {n : ℕ} {s : State} (call : AnsweredCall)
        → r_syscall (v.regs s.world pid) ≡ call_number call
        → CanAnswer v s pid call (v.regs s.world pid)
        → ((s1 : State)
            → handle_syscall child (v.regs s.world pid) s ≡ ok tt s1
            → Continues program s1 (between s1))
        → ((s1 : State)
            → handle_syscall child (v.regs s.world pid) s ≡ ok tt s1
            → Session program between n (between s1))
        → Session program between (suc n) s

  module _ (laws : Ptrace v) (program : Program) where
    abbrev pub caught_at :
        (call : AnsweredCall) (o : Seen) (s : State)
        → Sees o s
        → r_syscall (v.regs s.world pid) ≡ call_number call
        → CanAnswer v s pid call (v.regs s.world pid)
        → Caught call (v.regs s.world pid) o.memory o.time
    caught_at call o s h called can = record {
      view = v;
      laws = laws;
      pid = pid;
      child = child;
      state = s;
      stopped = h.stopped;
      entered = refl;
      memory = h.memory;
      here = h.time;
      called = called;
      can_answer = can;
    }

    pub Sees-served :
        (call : AnsweredCall) (o : Seen) (s s1 s2 : State)
        → Sees o s
        → r_syscall (v.regs s.world pid) ≡ call_number call
        → CanAnswer v s pid call (v.regs s.world pid)
        → handle_syscall child (v.regs s.world pid) s ≡ ok tt s1
        → Continues program s1 s2
        → Sees (next_stop program o) s2
    Sees-served call o s s1 s2 h called can run next =
        let r : Regs = v.regs s.world pid in
        let a : Seen = answer call r o.memory o.time in
        let caught = caught_at call o s h called can in
        let shown : Shows caught a s1 = at_ok (Caught-Gives call r o.memory o.time caught) run in
        subst (λ x. Sees (go_on program x) s2) (sym (answered_by call o r h.regs called))
          (record {
            stopped = next.stopped;
            regs = next.regs ∙ ap₂ (λ q m. (program q m).0) shown.regs (fun_ext shown.memory);
            memory = λ b.
                next.memory b ∙ ap₂ (λ q m. (program q m).1 b) shown.regs (fun_ext shown.memory);
            time = next.time ∙ shown.time;
          })

    Session-play :
        (between : State → State) (n : ℕ) (o : Seen) (s : State)
        → Sees o s
        → Session program between n s
        → Returns (λ _ s'. Sees (play program n o) s') (serve_calls between n s)
    unfolding play serve_calls
    Session-play between zero o s h at_stop = returns h
    Session-play between (suc n) o s h (at_call call called can goes more) =
        let r : Regs = v.regs s.world pid in
        let (s1, run) =
          run_of (Caught-Gives call r o.memory o.time (caught_at call o s h called can)) in
        rw run (
          Session-play between n (next_stop program o) (between s1)
            (Sees-served call o s s1 (between s1) h called can run (goes s1 run)) (more s1 run))

-- A program that stands at a call, on two machines and in two tracers, with the same registers,
-- memory and clock, and whose next calls, as many on both, are hooked ones that the tracer can serve
-- (those that it answers stand at their entry, and the program is not disturbed before the exit, that
-- is killed, or its memory written to by others; the memory that they write to is mapped, and there is
-- room for the random bytes; a path to open can be read, and a call that opens a random device stands
-- at its entry, undisturbed, and the kernel runs it without a write to the program's memory): on both the tracer serves all of them and returns, and leaves the program with the same
-- registers, memory and clock, which are those that the program played on its own has. The machines,
-- the process ids, the tables and what happens to anything else between the calls may differ.
pub Session-reproducible :
    (k k' : Kernel) (u u' : Uthash) (v : View k.World) (v' : View k'.World)
    → Ptrace ⦃k = k⦄ v
    → Ptrace ⦃k = k'⦄ v'
    → (pid child pid' child' : ℕ) (program : Program) (n : ℕ) (o : Seen)
      (between : State ⦃k = k⦄ ⦃u = u⦄ → State ⦃k = k⦄ ⦃u = u⦄)
      (between' : State ⦃k = k'⦄ ⦃u = u'⦄ → State ⦃k = k'⦄ ⦃u = u'⦄) (s : State ⦃k = k⦄ ⦃u = u⦄)
      (s' : State ⦃k = k'⦄ ⦃u = u'⦄)
    → Sees ⦃k = k⦄ ⦃u = u⦄ v pid child o s
    → Sees ⦃k = k'⦄ ⦃u = u'⦄ v' pid' child' o s'
    → Session ⦃k = k⦄ ⦃u = u⦄ v pid child program between n s
    → Session ⦃k = k'⦄ ⦃u = u'⦄ v' pid' child' program between' n s'
    → Returns
        (λ _ t. Sees ⦃k = k⦄ ⦃u = u⦄ v pid child (play program n o) t)
        (serve_calls ⦃k = k⦄ ⦃u = u⦄ v pid child between n s)
      × Returns
          (λ _ t. Sees ⦃k = k'⦄ ⦃u = u'⦄ v' pid' child' (play program n o) t)
          (serve_calls ⦃k = k'⦄ ⦃u = u'⦄ v' pid' child' between' n s')
Session-reproducible k k' u u' v v' laws laws' pid child pid' child' program n o between between' s
      s' h h' run run' =
    (
      Session-play ⦃k = k⦄ ⦃u = u⦄ v pid child laws program between n o s h run,
      Session-play ⦃k = k'⦄ ⦃u = u'⦄ v' pid' child' laws' program between' n o s' h' run',
    )
