-- ===== src/ProcInit.antt =====
-- reproduce/src/proc_init.c: preparing a process for tracing.
pub mod Stack
use reproduce.Prelude.{ℕ}
use reproduce.Kernel.{Kernel}
use reproduce.Uthash.{Uthash}
use reproduce.Tracer.{Cmd, pure, ◌>>◌, ptrace_return}
use reproduce.Vdso.{remove_vdso}

module _ ⦃k : Kernel⦄ ⦃u : Uthash⦄ where
  unfoldable pub proc_init : (fuel child_pid : ℕ) → Cmd (Unit {0})
  unfolding ptrace_return
  proc_init fuel child_pid =
      remove_vdso fuel child_pid >> ptrace_return (k.syscall child_pid) tt (pure tt)
