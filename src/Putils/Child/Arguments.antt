-- ===== src/Putils/Child/Arguments.antt =====
-- Running a system call in the tracee: what its arguments are for the kernel, and what comes back.
use reproduce.Prelude.{
  ℕ, zero, suc, ◌<◌, ◌≡◌, refl, not, ◌&&◌, ◌==◌, ltb, if◌then◌else◌, List, get_or, arith, ap,
}
use reproduce.Kernel.{Kernel, Regs, only}
use reproduce.Kernel.Laws.{View, Ptrace}
use reproduce.Uthash.{Uthash}
use reproduce.Tracer.{State}
use reproduce.Tracer.Outcome
use reproduce.Tracer.Outcome.{Returns, returns, SameTables}
use reproduce.Putils.Registers.{w_syscall, r_syscall, r_return}
use reproduce.Putils.Child.{set_args, child_exec_syscall, child_syscall}
use reproduce.Putils.Child.Calls.{ResumesFrom}

-- Where the kernel looks for the arguments of a system call on x86-64, see syscall(2).
abbrev pub kernel_argument : ℕ → Regs → ℕ
kernel_argument zero r = r.rdi
kernel_argument (suc zero) r = r.rsi
kernel_argument (suc (suc zero)) r = r.rdx
kernel_argument (suc (suc (suc zero))) r = r.r10
kernel_argument (suc (suc (suc (suc zero)))) r = r.r8
kernel_argument (suc (suc (suc (suc (suc zero))))) r = r.r9
kernel_argument (suc (suc (suc (suc (suc (suc i)))))) r = 0

-- Of the six arguments that the kernel looks at, `child_syscall` sets those that it is given but for
-- the fourth, which stays as it was, and leaves those that it is not given; the number is set.
pub set_args-kernel_argument :
    (regs : Regs) (number num_args i : ℕ) (args : List ℕ)
    → i < 6
    → (kernel_argument i (set_args (w_syscall regs number) num_args args)
        ≡ (if ltb i num_args && not (i == 3) then get_or args i 0 else kernel_argument i regs))
      × (r_syscall (set_args (w_syscall regs number) num_args args) ≡ number)
unfolding set_args
set_args-kernel_argument regs number num_args zero args h = ground arith
set_args-kernel_argument regs number num_args (suc zero) args h = ground arith
set_args-kernel_argument regs number num_args (suc (suc zero)) args h = ground arith
set_args-kernel_argument regs number num_args (suc (suc (suc zero))) args h = ground arith
set_args-kernel_argument regs number num_args (suc (suc (suc (suc zero)))) args h = ground arith
set_args-kernel_argument regs number num_args (suc (suc (suc (suc (suc zero))))) args h =
    ground arith
set_args-kernel_argument regs number num_args (suc (suc (suc (suc (suc (suc i)))))) args h =
    absurd (omega arith)

module _ ⦃k : Kernel⦄ ⦃u : Uthash⦄ {v : View k.World} (laws : Ptrace v) (p : ℕ) (s : State)
    (stopped : v.Stopped s.world p) where
  -- the world in which the tracee is resumed, and the one in which it has stopped again
  abbrev started : Regs → k.World
  started r = (k.setregs p r s.world).1

  abbrev ended : Regs → k.World
  ended r = (k.waitpid (only p) (k.syscall p (started r)).1).1

  child_exec_syscall-regs :
      (r : Regs)
      → ResumesFrom v p (k.setregs p r s.world).1
      → Returns
          (λ r' s'. (r' ≡ v.regs (ended r) p) × SameTables s s' × (v.regs (started r) p ≡ r))
          (child_exec_syscall p r s)
  unfolding child_exec_syscall
  child_exec_syscall-regs r (go, (st, e, there), stopped') =
      rw (laws.setregs s.world p r stopped, go, e, there, laws.getregs (ended r) p stopped')
        (returns (
          refl,
          record { table = refl; count = refl; heap = refl },
          laws.setregs-regs s.world p r stopped,
        ))

  -- On a stopped tracee that, resumed with the registers of the call, runs it and stops again,
  -- `child_syscall` returns the result register of that stop and all its registers; the tracee was
  -- resumed with exactly the registers that the arguments were put in, and the variables of the
  -- tracer are as they were.
  child_syscall-regs :
      (regs : Regs) (number num_args : ℕ) (args : List ℕ)
      → ResumesFrom v p (k.setregs p (set_args (w_syscall regs number) num_args args) s.world).1
      → Returns
          (λ out s'.
            (out.0 ≡ r_return (v.regs (ended (set_args (w_syscall regs number) num_args args)) p))
            × (out.1 ≡ v.regs (ended (set_args (w_syscall regs number) num_args args)) p)
            × (v.regs (started (set_args (w_syscall regs number) num_args args)) p
                ≡ set_args (w_syscall regs number) num_args args)
            × SameTables s s')
          (child_syscall p regs number num_args args s)
  unfolding child_syscall
  child_syscall-regs regs number num_args args resumes =
      Outcome.bind
        (child_exec_syscall-regs (set_args (w_syscall regs number) num_args args) resumes)
        λ r' s' (e, same, put). returns (ap (λ (x : Regs). r_return x) e, e, put, same)
