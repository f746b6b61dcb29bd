-- ===== src/Events.antt =====
-- reproduce/src/events.c: the loop that waits for the traced processes and serves their stops.
pub mod Keeps
pub mod Loop
pub mod Safe
pub mod Children
pub mod Ends
pub mod Forks
pub mod Stops
pub mod Isolation
pub mod Runs
pub mod Histories
use reproduce.Prelude.{
  ℕ, zero, suc, ◌%◌, ◌/◌, ◌^◌, Bool, true, false, ◌||◌, Option, none, some, ◌==◌, if◌then◌else◌,
}
use reproduce.Kernel.{
  Kernel, Regs, Reply, Wait, changed, failed, any, only, echild, exit_failure, wifexited,
  wifsignaled, wifstopped,
}
use reproduce.Uthash.{Uthash}
use reproduce.Tracer.{
  Cmd, pure, stop, out_of_fuel, ◌>>=◌, ◌>>◌, request, check_reply, ptrace_return, ptrace_return_out,
}
use reproduce.HashTable.{find_process, insert_process, delete_process, is_hash_table_empty}
use reproduce.ProcInit.{proc_init}
use reproduce.Syscalls.{handle_syscall}

-- The events of <sys/ptrace.h>.
abbrev pub event_fork : ℕ
event_fork = 1

abbrev pub event_vfork : ℕ
event_vfork = 2

abbrev pub event_clone : ℕ
event_clone = 3

abbrev pub event_exec : ℕ
event_exec = 4

-- `(status >> 16) & 0xffff`
abbrev pub event_of : ℕ → ℕ
event_of status = status / 2 ^ 16 % 2 ^ 16

-- the conversion of an unsigned long to a pid_t, as a 32-bit pattern
abbrev pub to_pid : ℕ → ℕ
to_pid n = n % 2 ^ 32

module _ ⦃k : Kernel⦄ ⦃u : Uthash⦄ where
  -- PTRACE_DELETE. Its `continue` belongs to the `do … while (0)` of the macro itself, so that the
  -- code behind the macro runs on.
  pub ptrace_delete : (k.World → Reply × k.World) → (pid : ℕ) → Cmd (Unit {0})
  unfolding check_reply
  ptrace_delete call pid = do reply ← request call; check_reply reply (delete_process pid) (pure tt)

  -- The same for PTRACE_GETREGS, with what is in the struct afterwards.
  pub ptrace_delete_getregs : (pid : ℕ) → Cmd Regs
  unfolding check_reply
  ptrace_delete_getregs pid = do
    (reply, regs) ← request (k.getregs pid)
    check_reply reply (delete_process pid) (pure tt)
    pure regs

  -- A `waitpid` for one process whose status is not looked at.
  pub wait_checked : Wait → Cmd (Unit {0})
  wait_checked (failed e) = stop exit_failure
  wait_checked (changed pid status) = pure tt

  pub track_child : (new_child : ℕ) → (inserted : Bool) → Cmd (Unit {0})
  unfolding wait_checked ptrace_return
  track_child new_child false = pure tt
  track_child new_child true = do
    status ← request (k.waitpid (only (to_pid new_child)))
    wait_checked status
    ptrace_return (k.syscall (to_pid new_child)) tt (pure tt)

  pub register_new_child : (pid : ℕ) → Cmd (Unit {0})
  register_new_child pid =
      ptrace_return_out (k.geteventmsg pid) tt (λ new_child. do
        inserted ← insert_process (to_pid new_child)
        track_child new_child inserted)

  -- The part of the loop under "Hook system calls", and the request that resumes the process.
  pub hook_found : (fuel pid : ℕ) → Option ℕ → Cmd (Unit {0})
  hook_found fuel pid none = do proc_init fuel pid; _ ← insert_process pid; pure tt
  hook_found fuel pid (some child) = do
    regs ← ptrace_delete_getregs pid
    handle_syscall child regs
    ptrace_delete (k.syscall pid) pid

  pub hook : (fuel pid : ℕ) → Cmd (Unit {0})
  hook fuel pid = do child ← find_process pid; hook_found fuel pid child

  -- The round of the loop for a process that has changed its state.
  pub serve : (fuel pid status : ℕ) → Cmd (Unit {0})
  serve fuel pid status =
      if wifexited status || wifsignaled status
      then delete_process pid
      else if wifstopped status
      then (if event_of status == event_exec
          then proc_init fuel pid
          else if (event_of status == event_fork || event_of status == event_vfork)
              || event_of status == event_clone
          then (register_new_child pid >> hook fuel pid)
          else hook fuel pid)
      else hook fuel pid

  -- One round; `false` is the `break`.
  pub round : (fuel : ℕ) → Wait → Cmd Bool
  round fuel (failed e) = if e == echild then pure false else stop exit_failure
  round fuel (changed pid status) = serve fuel pid status >> pure true

  -- `rounds` bounds the loop, and `fuel` the walks over the stacks of new programs.
  pub handle_event : (rounds fuel : ℕ) → Cmd (Unit {0})
  handle_event zero fuel = λ _. out_of_fuel
  handle_event (suc rounds) fuel = do
    empty ← is_hash_table_empty
    if empty then pure tt else do
      status ← request (k.waitpid any)
      go_on ← round fuel status
      if go_on then handle_event rounds fuel else pure tt
