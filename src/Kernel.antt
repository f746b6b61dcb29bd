-- ===== src/Kernel.antt =====
-- The operating system as reproduce sees it: the requests that it makes with `ptrace`, `waitpid`
-- and `fork`, and the memory allocator, as the operations of an interface. They take the state of
-- the machine (all processes but the tracer) and give back a reply and the next state.
-- The constants are those of the Linux headers for x86-64.
pub mod Laws
pub mod Stays
pub mod Words
pub mod Frames
use reproduce.Prelude.{ℕ, ◌≡◌, ◌≢◌, false, contains, Bool, ◌&&◌, not, ◌%◌, ◌==◌, List}

-- The fields of `struct user_regs_struct` that the program names, and r10 and rsp: the
-- fourth argument of a system call, and the stack pointer.
pub record Regs : Type 0 where
  pub orig_rax : ℕ
  pub rax : ℕ
  pub rdi : ℕ
  pub rsi : ℕ
  pub rdx : ℕ
  pub rcx : ℕ
  pub r8 : ℕ
  pub r9 : ℕ
  pub r10 : ℕ
  pub rsp : ℕ

-- What `ptrace` returns, as a 64-bit pattern, and `errno` after the call, which the program sets
-- to 0 before it.
pub record Reply : Type 0 where
  pub ret : ℕ
  pub errno : ℕ

-- What `waitpid` returns: -1 with `errno`, or a process and its status.
pub data Wait : Type 0 where
  changed : (pid : ℕ) → (status : ℕ) → Wait
  failed : (errno : ℕ) → Wait

-- Which process `waitpid` is asked for: -1 with __WALL, or one process with no option.
pub data Target : Type 0 where
  any : Target
  only : ℕ → Target

pub record Kernel : Type 1 where
  pub World : Type 0
  pub setregs : (pid : ℕ) → Regs → World → Reply × World
  pub getregs : (pid : ℕ) → World → (Reply × Regs) × World
  pub syscall : (pid : ℕ) → World → Reply × World
  pub peekdata : (pid addr : ℕ) → World → Reply × World
  pub pokedata : (pid addr word : ℕ) → World → Reply × World
  pub peekuser : (pid offset : ℕ) → World → Reply × World
  pub geteventmsg : (pid : ℕ) → World → (Reply × ℕ) × World
  pub setoptions : (pid options : ℕ) → World → Reply × World
  pub traceme : World → Reply × World
  pub waitpid : Target → World → Wait × World
  -- the value that `fork` returns, as a 32-bit pattern
  pub fork : World → ℕ × World
  pub stop_self : World → World
  -- `execvp` as the tracer's child calls it; it comes back only if it fails
  pub execvp : (path : List ℕ) → (argv : List (List ℕ)) → World → Bool × World
  -- `srandom` of the C library, whose generator counts as a part of the machine
  pub srandom : (seed : ℕ) → World → World
  -- the address that `malloc` gives for a size, 0 for NULL; `live` are the addresses in use
  pub malloc : (live : List ℕ) → (size : ℕ) → World → ℕ × World
  pub malloc-fresh :
      (live : List ℕ) (size : ℕ) (w : World)
      → (malloc live size w).0 ≢ 0
      → contains live (malloc live size w).0 ≡ false

-- -1 as an unsigned long
abbrev pub minus_one : ℕ
minus_one = 0xffff_ffff_ffff_ffff

abbrev pub esrch : ℕ
esrch = 3

abbrev pub eio : ℕ
eio = 5

abbrev pub echild : ℕ
echild = 10

abbrev pub exit_failure : ℕ
exit_failure = 1

-- WIFEXITED, WIFSIGNALED and WIFSTOPPED of <sys/wait.h>.
abbrev pub wifexited : ℕ → Bool
wifexited status = status % 128 == 0

abbrev pub wifstopped : ℕ → Bool
wifstopped status = status % 256 == 127

abbrev pub wifsignaled : ℕ → Bool
wifsignaled status = not (status % 128 == 0) && not (status % 128 == 127)
