-- ===== src/Events/Stops/Answers.antt =====
-- A stop at a system call that the tracer answers itself: the registers are read, the call is
-- answered, and the process is resumed.
use reproduce.Prelude.{ℕ, ◌+◌, ◌*◌, fun_ext, ◌≡◌, ◌≢◌, true, some, ◌∙◌, subst}
use reproduce.Prelude.Assoc
use reproduce.Kernel.{Kernel, Regs, minus_one}
use reproduce.Kernel.Laws.{View, Ptrace, AtEntry, Covers}
use reproduce.Uthash.{Uthash}
use reproduce.Tracer.{ChildProcess, Heap, State}
use reproduce.Tracer.Outcome
use reproduce.Tracer.Outcome.{Returns}
use reproduce.Tracer.Macros.{in_world}
use reproduce.Putils.Registers.{r_syscall, r_arg1, r_arg2, w_return, w_syscall}
use reproduce.ProcInit.Stack.{Resumed}
use reproduce.Syscalls.{nr_getrandom}
use reproduce.Syscalls.Clock.{
  ClockCall, number, answer_address, answers, answered, reported, result, ticked_struct, Served,
  handle_syscall-clock,
}
use reproduce.Syscalls.Random.{filled, handle_syscall-getrandom}
use reproduce.Events.{serve}
use reproduce.Events.Stops.{StopStatus, serve-plain, hook-Resumed}

module _ ⦃k : Kernel⦄ ⦃u : Uthash⦄ {v : View k.World} (laws : Ptrace v) (fuel p child : ℕ)
    (c : ChildProcess) (status : ℕ) (s : State) where
  abbrev regs : Regs
  regs = v.regs s.world p

  abbrev read : State
  read = in_world s (k.getregs p s.world).1

  -- What was shown from the state behind the reading of the registers holds from the one before.
  Served-before :
      {h : Heap} {r : Regs} (m : (ℕ → ℕ) → ℕ → ℕ) (s' : State)
      → v.Stopped s.world p
      → Served v p read h (m (v.byte read.world p)) r s'
      → Served v p s h (m (v.byte s.world p)) r s'
  Served-before {h} {r} m s' stopped served =
      let kept = laws.getregs-memory s.world p stopped in
      subst (λ (b : ℕ → ℕ). Served v p s h (m b) r s') (fun_ext kept.byte)
        (record {
          at = record {
            table = served.at.table;
            count = served.at.count;
            heap = served.at.heap;
            held = record {
              stopped = served.at.held.stopped;
              mapped = λ a. served.at.held.mapped a ∙ kept.mapped a;
              byte = served.at.held.byte;
            };
          };
          regs = served.regs;
        })

  Covers-after :
      (dest len : ℕ)
      → v.Stopped s.world p
      → Covers v s.world p dest len
      → Covers v read.world p dest len
  Covers-after dest len stopped covers n lt =
      (laws.getregs-memory s.world p stopped).mapped (dest + 8 * n) ∙ covers n lt

  -- A traced process that stops, with no event, at the entry of `getrandom`, is not killed, with memory
  -- that nothing else writes to, before the exit, and whose buffer is mapped and fits
  -- in `malloc`: the round returns, and has resumed the process when its buffer was filled with
  -- 0x22 and every other byte as before, its registers held the length of the buffer as the result
  -- and -1 as the number, and the variables of the tracer were as before.
  pub serve-getrandom :
      u.find s.process_table p ≡ some child
      → Assoc.lookup child s.heap ≡ some c
      → c.pid ≡ p
      → StopStatus 0 status
      → AtEntry v p s.world
      → r_syscall (v.regs s.world p) ≡ nr_getrandom
      → Covers v s.world p (r_arg1 (v.regs s.world p)) (r_arg2 (v.regs s.world p))
      → ((w : k.World) → (k.malloc (Assoc.addresses s.heap) (r_arg2 (v.regs s.world p)) w).0 ≢ 0)
      → Returns
          (λ _ s'.
            Resumed p
              (λ s1.
                Served v p s s.heap
                  (filled 0x22
                    (v.byte s.world p)
                    (r_arg1 (v.regs s.world p))
                    (r_arg2 (v.regs s.world p)))
                  (w_return (w_syscall (v.regs s.world p) minus_one) (r_arg2 (v.regs s.world p)))
                  s1)
              s')
          (serve fuel p status s)
  serve-getrandom e here own st entry n covers room = rw (serve-plain fuel p status s st) (
      hook-Resumed laws fuel p s entry.stopped child _ e
        (Outcome.mono
          (handle_syscall-getrandom laws p child c regs read here own n
            (laws.getregs-entry s.world p entry)
            (Covers-after (r_arg1 regs) (r_arg2 regs) entry.stopped covers) room)
          (λ _ s1 served.
            Served-before (λ b. filled 0x22 b (r_arg1 regs) (r_arg2 regs)) s1 entry.stopped served))
        (λ s1 served. served.at.held.stopped))

  -- A traced process that stops, with no event, at the entry of `gettimeofday`, `time` or
  -- `clock_gettime`, is not killed, with memory that nothing else writes to, before the exit, with a
  -- mapped address for the answer (for `time` it may be NULL): the round returns, and has resumed
  -- the process when the answer of its clock was in its memory and every other byte as before, its
  -- registers held the result of the call and -1 as the number, its clock was one tick further, and
  -- the other variables of the tracer were as before.
  pub serve-clock :
      (call : ClockCall)
      → u.find s.process_table p ≡ some child
      → Assoc.lookup child s.heap ≡ some c
      → c.pid ≡ p
      → StopStatus 0 status
      → AtEntry v p s.world
      → r_syscall (v.regs s.world p) ≡ number call
      → (answers call (answer_address call (v.regs s.world p)) ≡ true
          → Covers v s.world p (answer_address call (v.regs s.world p)) 16)
      → Returns
          (λ _ s'.
            Resumed p
              (λ s1.
                Served v p s
                  (Assoc.write child (ticked_struct c) s.heap)
                  (answered
                    (answers call (answer_address call (v.regs s.world p)))
                    (v.byte s.world p)
                    (answer_address call (v.regs s.world p))
                    (reported call c.gettime_data))
                  (w_return (w_syscall (v.regs s.world p) minus_one) (result call c.gettime_data))
                  s1)
              s')
          (serve fuel p status s)
  serve-clock call e here own st entry n covers = rw (serve-plain fuel p status s st) (
      hook-Resumed laws fuel p s entry.stopped child _ e
        (Outcome.mono
          (handle_syscall-clock laws p child c regs read (laws.getregs-entry s.world p entry) here
            call own n
            (λ given. Covers-after (answer_address call regs) 16 entry.stopped (covers given)))
          (λ _ s1 served.
            Served-before
              (λ b.
                answered (answers call (answer_address call regs)) b (answer_address call regs)
                  (reported call c.gettime_data))
              s1 entry.stopped served))
        (λ s1 served. served.at.held.stopped))
