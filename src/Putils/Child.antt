-- ===== src/Putils/Child.antt =====
-- Running, cancelling and finishing a system call of a tracee (reproduce/src/putils.c).
pub mod Calls
pub mod Arguments
pub mod Keeps
use reproduce.Prelude.{ℕ, ◌||◌, List, get_or, if◌then◌else◌, ltb}
use reproduce.Kernel.{
  Kernel, Regs, Wait, changed, failed, only, minus_one, exit_failure, wifexited, wifsignaled,
}
use reproduce.Uthash.{Uthash}
use reproduce.Tracer.{Cmd, pure, stop, ◌>>=◌, ◌>>◌, request, ptrace_return, ptrace_return_out}
use reproduce.Putils.Registers.{
  w_syscall, w_arg1, w_arg2, w_arg3, w_arg4, w_arg5, w_arg6, r_return, w_return,
}

-- `va_arg`: the next of the arguments behind `num_args`.
abbrev va_arg : List ℕ → ℕ → ℕ
va_arg args i = get_or args i 0

pub set_args : Regs → (num_args : ℕ) → (args : List ℕ) → Regs
set_args regs num_args args =
    let regs1 = if ltb 0 num_args then w_arg1 regs (va_arg args 0) else regs in
    let regs2 = if ltb 1 num_args then w_arg2 regs1 (va_arg args 1) else regs1 in
    let regs3 = if ltb 2 num_args then w_arg3 regs2 (va_arg args 2) else regs2 in
    let regs4 = if ltb 3 num_args then w_arg4 regs3 (va_arg args 3) else regs3 in
    let regs5 = if ltb 4 num_args then w_arg5 regs4 (va_arg args 4) else regs4 in
    if ltb 5 num_args then w_arg6 regs5 (va_arg args 5) else regs5

module _ ⦃k : Kernel⦄ ⦃u : Uthash⦄ where
  -- The check behind each `waitpid` for one process: a tracee that is gone ends the tracer.
  pub still_there : Wait → Cmd (Unit {0})
  still_there (failed e) = stop exit_failure
  still_there (changed pid status) =
      if wifexited status || wifsignaled status then stop exit_failure else pure tt

  pub wait_for : (pid : ℕ) → Cmd (Unit {0})
  unfolding still_there
  wait_for pid = do status ← request (k.waitpid (only pid)); still_there status

  pub child_exec_syscall : (child_pid : ℕ) → Regs → Cmd Regs
  unfolding ptrace_return ptrace_return_out wait_for
  child_exec_syscall child_pid regs = ptrace_return (k.setregs child_pid regs) regs (
      ptrace_return (k.syscall child_pid) regs
        (do wait_for child_pid; ptrace_return_out (k.getregs child_pid) regs (λ regs'. pure regs')))

  -- `child_syscall(child_pid, regs, syscall_number, num_args, ...)`: the result and the struct.
  pub child_syscall :
      (child_pid : ℕ) → Regs → (syscall_number num_args : ℕ) → (args : List ℕ) → Cmd (ℕ × Regs)
  unfolding set_args child_exec_syscall
  child_syscall child_pid regs syscall_number num_args args = do
    regs' ← child_exec_syscall child_pid (set_args (w_syscall regs syscall_number) num_args args)
    pure (r_return regs', regs')

  pub child_returns : (child_pid : ℕ) → Regs → (ret_val : ℕ) → Cmd (Unit {0})
  unfolding ptrace_return
  child_returns child_pid regs ret_val =
      ptrace_return (k.setregs child_pid (w_return regs ret_val)) tt (pure tt)

  -- Gives back the struct of the caller, which the function changes.
  pub child_cancel_syscall : (pid : ℕ) → Regs → Cmd Regs
  unfolding ptrace_return wait_for
  child_cancel_syscall pid regs =
      let regs' = w_syscall regs minus_one in
      ptrace_return (k.setregs pid regs') regs'
        (ptrace_return (k.syscall pid) regs' (do wait_for pid; pure regs'))

  pub child_continue_syscall : (pid : ℕ) → Regs → Cmd (Unit {0})
  unfolding ptrace_return wait_for
  child_continue_syscall pid regs = ptrace_return (k.syscall pid) tt (wait_for pid)
