-- ===== src/Events/Stops.antt =====
-- One round of the event loop for a process that has stopped.
pub mod Answers
pub mod Passes
pub mod Unexpected
pub mod Forked
use reproduce.Prelude.{
  ℕ, ◌+◌, ◌%◌, ◌/◌, ◌^◌, ◌≤◌, ◌≡◌, refl, Bool, true, false, ◌&&◌, ◌||◌, not, ◌==◌, if◌then◌else◌,
  Option, none, some, List, ◌∷◌, length, arith, ◌∙◌, ap, subst, sym,
}
use reproduce.Kernel.{Kernel, Regs, minus_one, wifexited, wifsignaled, wifstopped}
use reproduce.Kernel.Laws.{View, Ptrace, SameMemory, reply}
use reproduce.Uthash.{Uthash}
use reproduce.Tracer.{State, Run, ok, pure, and_then, ◌>>◌}
use reproduce.Tracer.Outcome
use reproduce.Tracer.Outcome.{Returns, returns}
use reproduce.Tracer.Macros.{in_world}
use reproduce.HashTable.Keeps.{find_process_lem}
use reproduce.ProcInit.{proc_init}
use reproduce.ProcInit.Stack.{Resumed, Hidden, proc_init-Hidden}
use reproduce.Vdso.Stack.{StackAt}
use reproduce.Syscalls.{handle_syscall}
use reproduce.Events.{
  event_of, event_exec, event_fork, event_vfork, event_clone, ptrace_delete, ptrace_delete_getregs,
  hook_found, hook, serve, register_new_child,
}

-- The status of a stop with an event, or of one with none, at the entry or exit of a system call.
pub record StopStatus (number status : ℕ) : Type 0 where
  pub stopped : status % 256 ≡ 127
  pub event : event_of status ≡ number

module _ ⦃k : Kernel⦄ ⦃u : Uthash⦄ (fuel p : ℕ) (status : ℕ) (s : State) where
  pub serve-plain : StopStatus 0 status → serve fuel p status s ≡ hook fuel p s
  unfolding serve
  serve-plain st =
      let e = st.stopped in
      let alive : (wifexited status || wifsignaled status) ≡ false = ground arith in
      rw (alive, st.stopped, st.event)

  serve-at_exec : StopStatus event_exec status → serve fuel p status s ≡ proc_init fuel p s
  unfolding serve
  serve-at_exec st =
      let e = st.stopped in
      let alive : (wifexited status || wifsignaled status) ≡ false = ground arith in
      rw (alive, st.stopped, st.event)

  -- the status of a stop at the event of a new child
  pub serve-at_fork :
      status % 256 ≡ 127
      → ((event_of status == event_fork || event_of status == event_vfork)
          || event_of status == event_clone)
        ≡ true
      → serve fuel p status s ≡ (register_new_child p >> hook fuel p) s
  unfolding serve
  serve-at_fork st e =
      let alive : (wifexited status || wifsignaled status) ≡ false = ground arith in
      let no_exec : (event_of status == event_exec) ≡ false = ground arith in
      rw (alive, st, no_exec, e)

module _ ⦃k : Kernel⦄ ⦃u : Uthash⦄ {v : View k.World} (laws : Ptrace v) (fuel p : ℕ) (s : State)
    (stopped : v.Stopped s.world p) where
  -- the state after the registers were read
  abbrev pub registers_read : State
  registers_read = in_world s (k.getregs p s.world).1

  -- A traced process has its system call handled with the registers of the stop, and is resumed.
  pub hook-Resumed :
      (child : ℕ) (P : State → Type 0)
      → u.find s.process_table p ≡ some child
      → Returns (λ _ s1. P s1) (handle_syscall child (v.regs s.world p) registers_read)
      → ((s1 : State) → P s1 → v.Stopped s1.world p)
      → Returns (λ _ s'. Resumed p P s') (hook fuel p s)
  unfolding hook hook_found ptrace_delete_getregs ptrace_delete
  hook-Resumed child P e handled still =
      rw (find_process_lem, e, laws.getregs s.world p stopped)
        (Outcome.bind handled λ _ s1 h.
          rw (laws.resume s1.world p (still s1 h))
            (returns (record { before = s1; holds = h; resumed = refl })))

  -- A process that stops at `execve` with a readable stack, none of whose words read is -1, with
  -- enough fuel: the round returns, and has resumed the process when its memory had lost the first
  -- entry for the vDSO of the auxiliary vector, if it had one before the end, and every other byte
  -- and the variables of the tracer were as before.
  pub serve-exec :
      (status type value : ℕ) (args env : List ℕ) (aux : List (ℕ × ℕ))
      → StopStatus event_exec status
      → ((v.regs s.world p).rsp == minus_one) ≡ false
      → StackAt v s.world p ((v.regs s.world p).rsp + 8) args env ((type, value) ∷ aux)
      → length args + length env + length aux + 4 ≤ fuel
      → Returns
          (λ _ s'. Resumed p (λ s1. Hidden laws p s args env ((type, value) ∷ aux) s1) s')
          (serve fuel p status s)
  serve-exec status type value args env aux st clear at enough =
      rw (serve-at_exec fuel p status s st)
        (proc_init-Hidden laws p s fuel type value args env aux stopped clear at enough)
