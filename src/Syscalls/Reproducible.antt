-- ===== src/Syscalls/Reproducible.antt =====
-- The answers of `handle_syscall` on different machines, as functions of the call, the tracee's
-- registers and memory, and the clock that the tracer keeps for it.
use reproduce.Prelude.{ℕ, ◌≡◌, ◌≢◌, refl, true, some, ◌∙◌, ap, ap₂, if◌then◌else◌, fun_ext, arith}
use reproduce.Prelude.Assoc
use reproduce.Kernel.{Kernel, Regs, minus_one}
use reproduce.Kernel.Laws.{View, Ptrace, AtEntry, Covers, SameMemory}
use reproduce.Uthash.{Uthash}
use reproduce.Tracer.{Timespec, ChildProcess, State}
use reproduce.Tracer.Outcome
use reproduce.Tracer.Outcome.{Returns}
use reproduce.Putils.Registers.{r_syscall, r_arg1, r_arg2, w_return, w_syscall}
use reproduce.Putils.Child.Calls.{RunsCall}
use reproduce.Putils.Text.Readable.{Readable}
use reproduce.Syscalls.{nr_getrandom, stdin_fileno, tick, handle_syscall}
use reproduce.Syscalls.Open.{OpenCall, open_number}
use reproduce.Syscalls.Open.Opened.{opens_device, handle_syscall-Opened}
use reproduce.Syscalls.Clock.{
  ClockCall, number, answer_address, answers, answered, reported, result, ticked_struct,
  handle_syscall-clock,
}
use reproduce.Syscalls.Random.{filled, handle_syscall-getrandom}

-- The calls that the tracer looks at: it answers them itself, or redirects those that open a device.
pub data AnsweredCall : Type 0 where
  random : AnsweredCall
  clock : ClockCall → AnsweredCall
  opening : OpenCall → AnsweredCall

abbrev pub call_number : AnsweredCall → ℕ
call_number random = nr_getrandom
call_number (clock call) = number call
call_number (opening call) = open_number call

-- What there is after the answer: the tracee's registers and memory, and its clock.
pub record Seen : Type 0 where
  pub regs : Regs
  pub memory : ℕ → ℕ
  pub time : Timespec

abbrev pub answer : AnsweredCall → Regs → (ℕ → ℕ) → Timespec → Seen
answer random r m t = record {
  regs = w_return (w_syscall r minus_one) (r_arg2 r);
  memory = filled 0x22 m (r_arg1 r) (r_arg2 r);
  time = t;
}
answer (clock call) r m t = record {
  regs = w_return (w_syscall r minus_one) (result call t);
  memory =
      answered (answers call (answer_address call r)) m (answer_address call r) (reported call t);
  time = tick t;
}
answer (opening call) r m t = record {
  regs = if opens_device r m then w_return r stdin_fileno else r;
  memory = m;
  time = t;
}

module _ ⦃k : Kernel⦄ ⦃u : Uthash⦄ where
  -- A call that is answered stands at its entry, and is not disturbed before its exit; the memory that
  -- it writes to is mapped, and the tracer has room for the random bytes. A path to open can be read;
  -- a call that opens a random device stands at its entry, and the kernel runs it, without a write to
  -- memory.
  abbrev pub CanAnswer : View k.World → State → (p : ℕ) → AnsweredCall → Regs → Type 0
  CanAnswer v s p random r =
      AtEntry v p s.world
      × Covers v s.world p (r_arg1 r) (r_arg2 r)
      × ((w : k.World) → (k.malloc (Assoc.addresses s.heap) (r_arg2 r) w).0 ≢ 0)
  CanAnswer v s p (clock call) r =
      AtEntry v p s.world
      × (answers call (answer_address call r) ≡ true
          → Covers v s.world p (answer_address call r) 16)
  CanAnswer v s p (opening call) r =
      Readable v s.world p (r_arg2 r)
      × (opens_device r (v.byte s.world p) ≡ true
          → AtEntry v p s.world
            × ((w : k.World)
                → AtEntry v p w
                → SameMemory v p s.world w
                → v.regs w p ≡ v.regs s.world p
                → RunsCall v p w))

  -- A machine and a state of the tracer in which a tracee with these registers and this memory, and
  -- with this clock, has stopped at the call.
  pub record Caught (call : AnsweredCall) (r : Regs) (m : ℕ → ℕ) (t : Timespec) : Type 1 where
    pub view : View k.World
    pub laws : Ptrace view
    pub pid : ℕ
    pub child : ℕ
    pub state : State
    pub stopped : view.Stopped state.world pid
    pub entered : view.regs state.world pid ≡ r
    pub memory : (a : ℕ) → view.byte state.world pid a ≡ m a
    pub here : Assoc.lookup child state.heap ≡ some (record { pid = pid; gettime_data = t })
    pub called : r_syscall r ≡ call_number call
    pub can_answer : CanAnswer view state pid call r

  module _ {call : AnsweredCall} {r : Regs} {m : ℕ → ℕ} {t : Timespec} (c : Caught call r m t) where
    pub record Shows (o : Seen) (s' : State) : Type 0 where
      pub regs : c.view.regs s'.world c.pid ≡ o.regs
      pub memory : (a : ℕ) → c.view.byte s'.world c.pid a ≡ o.memory a
      pub stopped : c.view.Stopped s'.world c.pid
      pub table : s'.process_table ≡ c.state.process_table
      pub time : Assoc.lookup c.child s'.heap ≡ some (record { pid = c.pid; gettime_data = o.time })

    -- The call is handled, and leaves what `o` says.
    abbrev pub Gives : Seen → Type 0
    Gives o = Returns (λ _ s'. Shows o s') (handle_syscall c.child r c.state)

  pub Caught-Gives :
      (call : AnsweredCall) (r : Regs) (m : ℕ → ℕ) (t : Timespec) (c : Caught call r m t)
      → Gives c (answer call r m t)
  Caught-Gives random r m t c =
      Outcome.mono
        (handle_syscall-getrandom c.laws c.pid c.child (record { pid = c.pid; gettime_data = t }) r
          c.state c.here refl c.called c.can_answer.0 c.can_answer.1 c.can_answer.2)
        (λ _ s' served. record {
          regs = served.regs;
          memory = λ a.
              served.at.held.byte a
              ∙ ap (λ (b : ℕ → ℕ). filled 0x22 b (r_arg1 r) (r_arg2 r) a) (fun_ext c.memory);
          stopped = served.at.held.stopped;
          table = served.at.table;
          time = ap (Assoc.lookup c.child) served.at.heap ∙ c.here;
        })
  Caught-Gives (clock call) r m t c =
      let own : ChildProcess = record { pid = c.pid; gettime_data = t } in
      Outcome.mono
        (handle_syscall-clock c.laws c.pid c.child own r c.state c.can_answer.0 c.here call refl
          c.called c.can_answer.1)
        (λ _ s' served. record {
          regs = served.regs;
          memory = λ a.
              served.at.held.byte a
              ∙ ap
                  (λ (b : ℕ → ℕ).
                    answered (answers call (answer_address call r)) b (answer_address call r)
                      (reported call t) a)
                  (fun_ext c.memory);
          stopped = served.at.held.stopped;
          table = served.at.table;
          time =
              ap (Assoc.lookup c.child) served.at.heap
              ∙ Assoc.lookup-write c.child c.child (ticked_struct own) c.state.heap
              ∙ ground arith;
        })
  Caught-Gives (opening call) r m t c =
      Outcome.mono
        (handle_syscall-Opened c.laws c.pid c.child (record { pid = c.pid; gettime_data = t }) r
          c.state c.here refl c.stopped call c.called c.can_answer.0 c.can_answer.1)
        (λ _ s' opened. record {
          regs =
              opened.registers
              ∙ ap₂ (λ b x. if opens_device r b then w_return r stdin_fileno else x)
                  (fun_ext c.memory) c.entered;
          memory = λ a. opened.kept.byte a ∙ c.memory a;
          stopped = opened.kept.stopped;
          table = opened.same.table;
          time = ap (Assoc.lookup c.child) opened.same.heap ∙ c.here;
        })

-- On two machines, whatever their kernels and tables are, a tracee that has stopped at the same
-- hooked call, with the same registers and memory, and with the same clock, is left with the same
-- registers, memory and clock, if on both the tracer can serve the call (`CanAnswer`).
handle_syscall-reproducible :
    (k k' : Kernel) (u u' : Uthash) (call : AnsweredCall) (r : Regs) (m : ℕ → ℕ) (t : Timespec)
    (c : Caught ⦃k = k⦄ ⦃u = u⦄ call r m t) (c' : Caught ⦃k = k'⦄ ⦃u = u'⦄ call r m t)
    → (o : Seen) × Gives ⦃k = k⦄ ⦃u = u⦄ c o × Gives ⦃k = k'⦄ ⦃u = u'⦄ c' o
handle_syscall-reproducible k k' u u' call r m t c c' = (
  answer call r m t,
  Caught-Gives ⦃k = k⦄ ⦃u = u⦄ call r m t c,
  Caught-Gives ⦃k = k'⦄ ⦃u = u'⦄ call r m t c',
)
