-- ===== src/Syscalls.antt =====
-- reproduce/src/syscalls.c: the system calls that the tracer answers in place of the kernel.
pub mod Steps
pub mod Clock
pub mod Random
pub mod Open
pub mod Reproducible
pub mod Programs
pub mod Sessions
pub mod Keeps
pub mod Safe
use reproduce.Prelude.{
  ℕ, ◌+◌, ◌%◌, ◌^◌, Bool, ◌||◌, Option, none, some, List, ◌++◌, ◌==◌, not, ◌&&◌, if◌then◌else◌,
  replicate,
}
use reproduce.Prelude.Bytes.{to_le, codes, str_eq}
use reproduce.Kernel.{Kernel, Regs}
use reproduce.Uthash.{Uthash}
use reproduce.Tracer.{Timespec, ChildProcess, Cmd, pure, crash, ◌>>=◌, ◌>>◌, malloc, load, store}
use reproduce.Putils.Registers.{r_syscall, r_arg1, r_arg2}
use reproduce.Putils.Child.{child_returns, child_cancel_syscall, child_continue_syscall}
use reproduce.Putils.Buffer.{replace_buf}
use reproduce.Putils.Text.{read_child_c_string}

-- The numbers of <asm/unistd_64.h>.
abbrev pub nr_open : ℕ
nr_open = 2

abbrev pub nr_gettimeofday : ℕ
nr_gettimeofday = 96

abbrev pub nr_time : ℕ
nr_time = 201

abbrev pub nr_clock_gettime : ℕ
nr_clock_gettime = 228

abbrev pub nr_openat : ℕ
nr_openat = 257

abbrev pub nr_getrandom : ℕ
nr_getrandom = 318

abbrev pub nr_openat2 : ℕ
nr_openat2 = 437

-- stdin->_fileno
abbrev pub stdin_fileno : ℕ
stdin_fileno = 0

-- The test on the path.
abbrev pub is_random_device : List ℕ → Bool
is_random_device path = str_eq path (codes "/dev/random") || str_eq path (codes "/dev/urandom")

-- The memory of a struct timespec.
abbrev pub timespec_bytes : Timespec → List ℕ
timespec_bytes t = to_le 8 t.tv_sec ++ to_le 8 t.tv_nsec

-- `tv_sec += 1; tv_nsec += 1`
abbrev pub tick : Timespec → Timespec
tick t = record { tv_sec = (t.tv_sec + 1) % 2 ^ 64; tv_nsec = (t.tv_nsec + 1) % 2 ^ 64 }

module _ ⦃k : Kernel⦄ ⦃u : Uthash⦄ where
  -- `strcmp` of NULL is undefined.
  pub redirect_path : (child_pid : ℕ) → Regs → Option (List ℕ) → Cmd (Unit {0})
  redirect_path child_pid regs none = crash
  redirect_path child_pid regs (some path) =
      if is_random_device path
      then (child_continue_syscall child_pid regs >> child_returns child_pid regs stdin_fileno)
      else pure tt

  pub redirect_dev_random : (child_pid : ℕ) → Regs → Cmd (Unit {0})
  redirect_dev_random child_pid regs = do
    path ← read_child_c_string (r_arg2 regs) child_pid
    redirect_path child_pid regs path

  unfoldable pub advance_clock : (child : ℕ) → Cmd (Unit {0})
  advance_clock child = do
    c ← load child
    store child (record c { gettime_data = tick c.gettime_data })

  -- `replace_buf(child_pid, &child->gettime_data, addr, sizeof(child->gettime_data))`
  pub write_clock : (child child_pid addr : ℕ) → Cmd (Unit {0})
  write_clock child child_pid addr = do
    c ← load child
    replace_buf child_pid (timespec_bytes c.gettime_data) addr

  -- from `memset` on; `regs` is what the cancellation has left in the struct
  pub fill_buffer : (child_pid : ℕ) → Regs → (buf_addr buf_len testdata : ℕ) → Cmd (Unit {0})
  fill_buffer child_pid regs buf_addr buf_len testdata =
      if (testdata == 0) && not (buf_len == 0) then crash else do
        replace_buf child_pid (replicate buf_len 0x22) buf_addr
        child_returns child_pid regs buf_len

  pub hook_getrandom : (child_pid : ℕ) → Regs → Cmd (Unit {0})
  hook_getrandom child_pid regs = do
    let buf_addr = r_arg1 regs
    let buf_len = r_arg2 regs
    regs' ← child_cancel_syscall child_pid regs
    testdata ← malloc buf_len
    fill_buffer child_pid regs' buf_addr buf_len testdata

  pub hook_gettimeofday : (child child_pid : ℕ) → Regs → Cmd (Unit {0})
  hook_gettimeofday child child_pid regs = do
    let timeval_addr = r_arg1 regs
    regs' ← child_cancel_syscall child_pid regs
    write_clock child child_pid timeval_addr
    advance_clock child
    child_returns child_pid regs' 0

  -- `if (time_arg != 0)`
  pub write_if : (child child_pid time_arg : ℕ) → Cmd (Unit {0})
  write_if child child_pid time_arg =
      if time_arg == 0 then pure tt else write_clock child child_pid time_arg

  pub hook_time : (child child_pid : ℕ) → Regs → Cmd (Unit {0})
  hook_time child child_pid regs = do
    let time_arg = r_arg1 regs
    regs' ← child_cancel_syscall child_pid regs
    advance_clock child
    write_if child child_pid time_arg
    c ← load child
    child_returns child_pid regs' c.gettime_data.tv_sec

  pub hook_clock_gettime : (child child_pid : ℕ) → Regs → Cmd (Unit {0})
  hook_clock_gettime child child_pid regs = do
    let clock_gettime_arg = r_arg2 regs
    regs' ← child_cancel_syscall child_pid regs
    write_clock child child_pid clock_gettime_arg
    advance_clock child
    child_returns child_pid regs' 0

  -- The `switch` on the number of the system call.
  pub dispatch : (number child child_pid : ℕ) → Regs → Cmd (Unit {0})
  dispatch number child child_pid regs =
      if number == nr_getrandom
      then hook_getrandom child_pid regs
      else if number == nr_gettimeofday
      then hook_gettimeofday child child_pid regs
      else if number == nr_time
      then hook_time child child_pid regs
      else if number == nr_clock_gettime
      then hook_clock_gettime child child_pid regs
      else if number == nr_openat
      then redirect_dev_random child_pid regs
      else if number == nr_open
      then redirect_dev_random child_pid regs
      else if number == nr_openat2
      then redirect_dev_random child_pid regs
      else pure tt

  -- `child` is the pointer that `find_process` gave.
  pub handle_syscall : (child : ℕ) → Regs → Cmd (Unit {0})
  handle_syscall child regs = do c ← load child; dispatch (r_syscall regs) child c.pid regs
