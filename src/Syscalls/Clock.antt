-- ===== src/Syscalls/Clock.antt =====
-- The three clocks: `gettimeofday`, `time` and `clock_gettime` all read and advance the one clock
-- that the tracer keeps for a process.
pub mod Times
pub mod Micros
use reproduce.Prelude.{
  ℕ, ◌+◌, ◌*◌, ◌≡◌, ◌≢◌, Bool, true, false, refl, List, ◌∙◌, ap, sym, subst, some, ◌==◌,
  if◌then◌else◌, arith, Bool-cases, inl, inr,
}
use reproduce.Prelude.Assoc
use reproduce.Kernel.{Kernel, Regs, minus_one}
use reproduce.Kernel.Laws.{View, Ptrace, AtEntry, Covers, overlay}
use reproduce.Uthash.{Uthash}
use reproduce.Tracer.{Timespec, ChildProcess, Heap, State, ok, ◌>>=◌}
use reproduce.Tracer.Outcome
use reproduce.Tracer.Outcome.{Returns, returns}
use reproduce.Putils.Registers.{w_syscall, w_return, r_syscall, r_arg1, r_arg2}
use reproduce.Putils.Child.{child_returns}
use reproduce.Syscalls.{
  nr_gettimeofday, nr_time, nr_clock_gettime, tick, timespec_bytes, hook_gettimeofday, hook_time,
  hook_clock_gettime, write_if, dispatch, handle_syscall,
}
use reproduce.Syscalls.Steps.{
  handle_syscall-dispatch, At, start, cancelled, returned, ticked, clock_written, loaded,
}

pub data ClockCall : Type 0 where
  gettimeofday time clock_gettime : ClockCall

abbrev pub number : ClockCall → ℕ
number gettimeofday = nr_gettimeofday
number time = nr_time
number clock_gettime = nr_clock_gettime

-- the argument with the address for the answer
abbrev pub answer_address : ClockCall → Regs → ℕ
answer_address gettimeofday regs = r_arg1 regs
answer_address time regs = r_arg1 regs
answer_address clock_gettime regs = r_arg2 regs

-- the time that a call reports when the clock shows `t`; each call leaves the clock at `tick t`
abbrev pub reported : ClockCall → Timespec → Timespec
reported gettimeofday t = t
reported time t = tick t
reported clock_gettime t = t

abbrev pub result : ClockCall → Timespec → ℕ
result gettimeofday t = 0
result time t = (tick t).tv_sec
result clock_gettime t = 0

-- A null pointer is left alone by `time` only.
abbrev pub answers : ClockCall → ℕ → Bool
answers gettimeofday a = true
answers time a = if a == 0 then false else true
answers clock_gettime a = true

abbrev pub answered : Bool → (ℕ → ℕ) → ℕ → Timespec → ℕ → ℕ
answered false m addr t = m
answered true m addr t = overlay m addr (timespec_bytes t)

abbrev pub ticked_struct : ChildProcess → ChildProcess
ticked_struct c = record c { gettime_data = tick c.gettime_data }

module _ ⦃k : Kernel⦄ ⦃u : Uthash⦄ (v : View k.World) (p : ℕ) (s : State) where
  -- How a system call that the tracer answers itself ends: the structs, the memory and the
  -- registers of the tracee.
  pub record Served (h : Heap) (m : ℕ → ℕ) (r : Regs) (s' : State) : Type 0 where
    pub at : At v p s h m s'
    pub regs : v.regs s'.world p ≡ r

module _ ⦃k : Kernel⦄ ⦃u : Uthash⦄ {v : View k.World} (laws : Ptrace v) (p child : ℕ)
    (c : ChildProcess) (regs : Regs) (s : State) (entry : AtEntry v p s.world)
    (here : Assoc.lookup child s.heap ≡ some c) where
  abbrev clock : Timespec
  clock = c.gettime_data

  abbrev heap_after : Heap
  heap_after = Assoc.write child (ticked_struct c) s.heap

  here_after : Assoc.lookup child heap_after ≡ some (ticked_struct c)
  here_after = Assoc.lookup-write child child (ticked_struct c) s.heap ∙ ground arith

  abbrev Answer : ClockCall → State → Type 0
  Answer call s' =
      Served v p s heap_after
        (answered (answers call (answer_address call regs)) (v.byte s.world p)
          (answer_address call regs) (reported call clock))
        (w_return (w_syscall regs minus_one) (result call clock)) s'

  finish :
      {m : ℕ → ℕ} {s1 : State} (x : ℕ)
      → At v p s heap_after m s1
      → (r : Regs) → r ≡ w_syscall regs minus_one
      → Returns
          (λ _ s'. Served v p s heap_after m (w_return (w_syscall regs minus_one) x) s')
          (child_returns p r x s1)
  finish x at r e =
      Outcome.mono (returned laws p s at r x)
        (λ _ s2 (at', q). record { at = at'; regs = q ∙ ap (λ (y : Regs). w_return y x) e })

  gettimeofday-Answer :
      Covers v s.world p (r_arg1 regs) 16
      → Returns (λ _ s'. Answer gettimeofday s') (hook_gettimeofday child p regs s)
  unfolding hook_gettimeofday
  gettimeofday-Answer covers = Outcome.bind (cancelled laws p s regs entry) λ r s1 (e, a1).
      Outcome.bind (clock_written laws p s a1 child (r_arg1 regs) c here covers)
        λ _ s2 a2. Outcome.bind (ticked laws p s a2 child c here) λ _ s3 a3. finish 0 a3 r e

  clock_gettime-Answer :
      Covers v s.world p (r_arg2 regs) 16
      → Returns (λ _ s'. Answer clock_gettime s') (hook_clock_gettime child p regs s)
  unfolding hook_clock_gettime
  clock_gettime-Answer covers = Outcome.bind (cancelled laws p s regs entry) λ r s1 (e, a1).
      Outcome.bind (clock_written laws p s a1 child (r_arg2 regs) c here covers)
        λ _ s2 a2. Outcome.bind (ticked laws p s a2 child c here) λ _ s3 a3. finish 0 a3 r e

  write_if-At :
      {m : ℕ → ℕ} {s1 : State} (a : ℕ)
      → At v p s heap_after m s1
      → (answers time a ≡ true → Covers v s.world p a 16)
      → Returns
          (λ _ s'. At v p s heap_after (answered (answers time a) m a (tick clock)) s')
          (write_if child p a s1)
  unfolding write_if
  write_if-At a at covers = elim (Bool-cases (a == 0)) [
    | inl z ↦ rw z (returns at)
    | inr nz ↦
        rw nz (clock_written laws p s at child a (ticked_struct c) here_after (covers (rw nz)))
  ]

  time-Answer :
      (answers time (r_arg1 regs) ≡ true → Covers v s.world p (r_arg1 regs) 16)
      → Returns (λ _ s'. Answer time s') (hook_time child p regs s)
  unfolding hook_time
  time-Answer covers = Outcome.bind (cancelled laws p s regs entry) λ r s1 (e, a1).
      Outcome.bind (ticked laws p s a1 child c here) λ _ s2 a2.
        Outcome.bind (write_if-At (r_arg1 regs) a2 covers) λ _ s3 a3.
          loaded laws p s a3 child (ticked_struct c) _ here_after
            (finish (tick clock).tv_sec a3 r e)

  hook-Answer :
      (call : ClockCall)
      → (answers call (answer_address call regs) ≡ true
          → Covers v s.world p (answer_address call regs) 16)
      → Returns (λ _ s'. Answer call s') (dispatch (number call) child p regs s)
  unfolding dispatch
  hook-Answer gettimeofday covers = gettimeofday-Answer (covers refl)
  hook-Answer time covers = time-Answer covers
  hook-Answer clock_gettime covers = clock_gettime-Answer (covers refl)

  -- For a tracee that is stopped at the entry of `gettimeofday`, `time` or `clock_gettime`, and not
  -- killed, with memory that nothing else writes to, before the exit, whose struct `child` points
  -- to, `handle_syscall` returns. It has advanced the clock in the struct by one tick, and left
  -- the rest of the tracer's variables. The address for the answer, which must be mapped, holds
  -- the time from before the tick, and for `time` the one after it, but nothing is written for
  -- `time` with NULL; every other byte is as it was. The registers are those of the stop with the
  -- number -1 and the result: 0, or for `time` the seconds after the tick.
  pub handle_syscall-clock :
      (call : ClockCall)
      → c.pid ≡ p
      → r_syscall regs ≡ number call
      → (answers call (answer_address call regs) ≡ true
          → Covers v s.world p (answer_address call regs) 16)
      → Returns (λ _ s'. Answer call s') (handle_syscall child regs s)
  handle_syscall-clock call own n covers =
      subst (Returns (λ _ s'. Answer call s'))
        (sym (handle_syscall-dispatch child regs s c p (number call) here own n))
        (hook-Answer call covers)
