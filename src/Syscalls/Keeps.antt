-- ===== src/Syscalls/Keeps.antt =====
-- What serving a system call keeps, whatever the kernel replies: a property of the tracer's variables
-- that is kept when the clock of the process is advanced.
use reproduce.Prelude.{
  ◌≡◌, false, Bool-cases, inl, inr, ℕ, ◌==◌, ◌&&◌, not, List, Option, none, some,
}
use reproduce.Kernel.{Kernel, Regs}
use reproduce.Uthash.{Uthash}
use reproduce.Tracer.{ChildProcess, State, Cmd, load, ◌>>=◌, malloc}
use reproduce.Tracer.Keeps.{
  IsOwn, Keeps, KeepsOr, Keeps-if, Keeps-pure, Keeps-crash, Keeps-malloc, keeps_rules,
}
use reproduce.HashTable.Keeps.{load-Keeps}
use reproduce.Putils.Registers.{r_syscall}
use reproduce.Putils.Child.Keeps.{
  child_returns-Keeps, child_cancel_syscall-Keeps, child_continue_syscall-Keeps,
}
use reproduce.Putils.Buffer.Keeps.{replace_buf-Keeps}
use reproduce.Putils.Text.Keeps.{read_child_c_string-Keeps}
use reproduce.Syscalls.{
  nr_open, nr_openat, nr_openat2, nr_time, nr_gettimeofday, nr_clock_gettime, nr_getrandom,
  timespec_bytes, redirect_path, redirect_dev_random, advance_clock, write_clock, fill_buffer,
  hook_getrandom, hook_gettimeofday, write_if, hook_time, hook_clock_gettime, dispatch,
  handle_syscall,
}

module _ ⦃k : Kernel⦄ ⦃u : Uthash⦄ {F : Type 0} {P : State → Type 0} (own : IsOwn P) where
  own_returns :
      (pid : ℕ) (regs : Regs) (x : ℕ)
      → KeepsOr F P (reproduce.Putils.Child.child_returns pid regs x)
  own_returns = child_returns-Keeps own

  own_cancel :
      (pid : ℕ) (regs : Regs) → KeepsOr F P (reproduce.Putils.Child.child_cancel_syscall pid regs)
  own_cancel = child_cancel_syscall-Keeps own

  own_continue :
      (pid : ℕ) (regs : Regs) → KeepsOr F P (reproduce.Putils.Child.child_continue_syscall pid regs)
  own_continue = child_continue_syscall-Keeps own

  own_replace :
      (pid : ℕ) (src : List ℕ) (dest : ℕ)
      → KeepsOr F P (reproduce.Putils.Buffer.replace_buf pid src dest)
  own_replace = replace_buf-Keeps own

  own_read : (raddr pid : ℕ) → KeepsOr F P (reproduce.Putils.Text.read_child_c_string raddr pid)
  own_read = read_child_c_string-Keeps own

  own_malloc : (size : ℕ) → KeepsOr F P (malloc size)
  own_malloc size = Keeps-malloc size own

  pub some_path-Keeps :
      (pid : ℕ) (regs : Regs) (path : List ℕ) → KeepsOr F P (redirect_path pid regs (some path))
  unfolding redirect_path
  some_path-Keeps pid regs path = search (keeps_rules, own_continue, own_returns)

  pub filled-Keeps :
      (pid : ℕ) (regs : Regs) (addr len x : ℕ)
      → ((x == 0) && not (len == 0)) ≡ false
      → KeepsOr F P (fill_buffer pid regs addr len x)
  unfolding fill_buffer
  filled-Keeps pid regs addr len x e = rw e (search (keeps_rules, own_replace, own_returns))

  module _ (child : ℕ)
      (loads : (f : ChildProcess → Cmd (Unit {0}))
        → ((c : ChildProcess) → KeepsOr F P (f c))
        → KeepsOr F P (load child >>= f))
      (advance : KeepsOr F P (advance_clock child)) where
    write_clock-Keeps : (pid addr : ℕ) → KeepsOr F P (write_clock child pid addr)
    unfolding write_clock
    write_clock-Keeps pid addr = loads _ (λ c. own_replace pid (timespec_bytes c.gettime_data) addr)

    write_if-Keeps : (pid addr : ℕ) → KeepsOr F P (write_if child pid addr)
    unfolding write_if
    write_if-Keeps pid addr = search (keeps_rules, write_clock-Keeps)

    ruleset clock_rules = (keeps_rules, own_returns, own_cancel, write_clock-Keeps, write_if-Keeps)

    hook_gettimeofday-Keeps :
        (pid : ℕ) (regs : Regs) → KeepsOr F P (hook_gettimeofday child pid regs)
    unfolding hook_gettimeofday
    hook_gettimeofday-Keeps pid regs = search clock_rules

    hook_time-Keeps : (pid : ℕ) (regs : Regs) → KeepsOr F P (hook_time child pid regs)
    unfolding hook_time
    hook_time-Keeps pid regs = search (clock_rules, loads)

    hook_clock_gettime-Keeps :
        (pid : ℕ) (regs : Regs) → KeepsOr F P (hook_clock_gettime child pid regs)
    unfolding hook_clock_gettime
    hook_clock_gettime-Keeps pid regs = search clock_rules

    module _ (getrandom : (pid : ℕ) (regs : Regs) → KeepsOr F P (hook_getrandom pid regs))
        (redirect : (pid : ℕ) (regs : Regs) → KeepsOr F P (redirect_dev_random pid regs)) where
      dispatch-Keeps : (number pid : ℕ) (regs : Regs) → KeepsOr F P (dispatch number child pid regs)
      unfolding dispatch
      dispatch-Keeps number pid regs = Keeps-if (number == nr_getrandom) _ _ (getrandom pid regs) (
          Keeps-if (number == nr_gettimeofday) _ _ (hook_gettimeofday-Keeps pid regs) (
            Keeps-if (number == nr_time) _ _ (hook_time-Keeps pid regs) (
              Keeps-if (number == nr_clock_gettime) _ _ (hook_clock_gettime-Keeps pid regs) (
                Keeps-if (number == nr_openat) _ _ (redirect pid regs) (
                  Keeps-if (number == nr_open) _ _ (redirect pid regs)
                    (Keeps-if (number == nr_openat2) _ _ (redirect pid regs) (Keeps-pure tt)))))))

      pub handle_syscall-KeepsOr : (regs : Regs) → KeepsOr F P (handle_syscall child regs)
      unfolding handle_syscall
      handle_syscall-KeepsOr regs = loads _ (λ c. dispatch-Keeps (r_syscall regs) c.pid regs)

module _ ⦃k : Kernel⦄ ⦃u : Uthash⦄ {P : State → Type 0} (own : IsOwn P) where
  redirect_path-Keeps :
      (pid : ℕ) (regs : Regs) (path : Option (List ℕ)) → Keeps P (redirect_path pid regs path)
  unfolding redirect_path
  redirect_path-Keeps pid regs none = Keeps-crash Unit
  redirect_path-Keeps pid regs (some path) = some_path-Keeps own pid regs path

  redirect_dev_random-Keeps : (pid : ℕ) (regs : Regs) → Keeps P (redirect_dev_random pid regs)
  unfolding redirect_dev_random
  redirect_dev_random-Keeps pid regs = search (keeps_rules, (own_read own), redirect_path-Keeps)

  fill_buffer-Keeps :
      (pid : ℕ) (regs : Regs) (addr len x : ℕ) → Keeps P (fill_buffer pid regs addr len x)
  unfolding fill_buffer
  fill_buffer-Keeps pid regs addr len x = elim (Bool-cases ((x == 0) && not (len == 0))) [
    | inl e ↦ rw e (Keeps-crash Unit)
    | inr e ↦ filled-Keeps own pid regs addr len x e
  ]

  hook_getrandom-Keeps : (pid : ℕ) (regs : Regs) → Keeps P (hook_getrandom pid regs)
  unfolding hook_getrandom
  hook_getrandom-Keeps pid regs =
      search (keeps_rules, own_cancel own, own_malloc own, fill_buffer-Keeps)

  pub handle_syscall-Keeps :
      (child : ℕ)
      → Keeps P (advance_clock child)
      → (regs : Regs) → Keeps P (handle_syscall child regs)
  handle_syscall-Keeps child advance =
      handle_syscall-KeepsOr own child (load-Keeps child) advance hook_getrandom-Keeps
        redirect_dev_random-Keeps
