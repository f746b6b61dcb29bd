-- ===== src/Putils/Child/Keeps.antt =====
-- What the functions of reproduce/src/putils.c that run system calls keep.
use reproduce.Prelude.{ℕ}
use reproduce.Kernel.{Kernel, Regs, Wait, changed, failed, only}
use reproduce.Uthash.{Uthash}
use reproduce.Tracer.{State, request}
use reproduce.Tracer.Keeps.{KeepsOr, IsOwn, Keeps-bind, Keeps-request, keeps_rules}
use reproduce.Putils.Child.{
  still_there, wait_for, child_returns, child_cancel_syscall, child_continue_syscall,
}

module _ ⦃k : Kernel⦄ ⦃u : Uthash⦄ {F : Type 0} {P : State → Type 0} (own : IsOwn P) where
  still_there-Keeps : (w : Wait) → KeepsOr F P (still_there w)
  unfolding still_there
  still_there-Keeps (failed e) = search keeps_rules
  still_there-Keeps (changed pid status) = search keeps_rules

  pub wait_for-Keeps : (pid : ℕ) → KeepsOr F P (wait_for pid)
  unfolding wait_for
  wait_for-Keeps pid =
      Keeps-bind (request (k.waitpid (only pid))) _ (Keeps-request (k.waitpid (only pid)) own)
        (λ w. still_there-Keeps w)

  pub child_returns-Keeps : (pid : ℕ) (regs : Regs) (x : ℕ) → KeepsOr F P (child_returns pid regs x)
  unfolding child_returns
  child_returns-Keeps pid regs x = search keeps_rules

  pub child_cancel_syscall-Keeps :
      (pid : ℕ) (regs : Regs) → KeepsOr F P (child_cancel_syscall pid regs)
  unfolding child_cancel_syscall
  child_cancel_syscall-Keeps pid regs = search (keeps_rules, wait_for-Keeps)

  pub child_continue_syscall-Keeps :
      (pid : ℕ) (regs : Regs) → KeepsOr F P (child_continue_syscall pid regs)
  unfolding child_continue_syscall
  child_continue_syscall-Keeps pid regs = search (keeps_rules, wait_for-Keeps)
