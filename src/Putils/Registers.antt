-- ===== src/Putils/Registers.antt =====
-- The accessors of `struct user_regs_struct`. The writers give back the new struct.
use reproduce.Prelude.{ℕ}
use reproduce.Kernel.{Regs}

abbrev pub r_syscall : Regs → ℕ
r_syscall regs = regs.orig_rax

abbrev pub r_arg1 : Regs → ℕ
r_arg1 regs = regs.rdi

abbrev pub r_arg2 : Regs → ℕ
r_arg2 regs = regs.rsi

abbrev pub r_arg3 : Regs → ℕ
r_arg3 regs = regs.rdx

abbrev pub r_arg4 : Regs → ℕ
r_arg4 regs = regs.rcx

abbrev pub r_arg5 : Regs → ℕ
r_arg5 regs = regs.r8

abbrev pub r_arg6 : Regs → ℕ
r_arg6 regs = regs.r9

abbrev pub r_return : Regs → ℕ
r_return regs = regs.rax

abbrev pub w_syscall : Regs → ℕ → Regs
w_syscall regs x = record regs { orig_rax = x }

abbrev pub w_arg1 : Regs → ℕ → Regs
w_arg1 regs x = record regs { rdi = x }

abbrev pub w_arg2 : Regs → ℕ → Regs
w_arg2 regs x = record regs { rsi = x }

abbrev pub w_arg3 : Regs → ℕ → Regs
w_arg3 regs x = record regs { rdx = x }

abbrev pub w_arg4 : Regs → ℕ → Regs
w_arg4 regs x = record regs { rcx = x }

abbrev pub w_arg5 : Regs → ℕ → Regs
w_arg5 regs x = record regs { r8 = x }

abbrev pub w_arg6 : Regs → ℕ → Regs
w_arg6 regs x = record regs { r9 = x }

abbrev pub w_return : Regs → ℕ → Regs
w_return regs x = record regs { rax = x }
