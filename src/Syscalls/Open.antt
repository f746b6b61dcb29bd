-- ===== src/Syscalls/Open.antt =====
-- Opening the random devices.
pub mod Opened
use reproduce.Prelude.{
  ℕ, ◌≡◌, true, false, refl, List, ◌∙◌, some, if◌then◌else◌, inl, inr, Bool-cases,
}
use reproduce.Prelude.Assoc
use reproduce.Kernel.{Kernel, Regs, minus_one, esrch, eio, exit_failure}
use reproduce.Kernel.Laws.{View, Ptrace, AtEntry, SameMemory, reply}
use reproduce.Uthash.{Uthash}
use reproduce.Tracer.{ChildProcess, State, exit, fault}
use reproduce.Tracer.Outcome
use reproduce.Tracer.Outcome.{Returns, returns, SameTables}
use reproduce.Tracer.Macros.{in_world}
use reproduce.Putils.Registers.{w_return, r_syscall, r_arg2}
use reproduce.Putils.Child.Calls.{child_returns-regs, child_continue_syscall-resumed, ResumesFrom}
use reproduce.Putils.Text.Strings.{string_at}
use reproduce.Putils.Text.Reads.{Unchanged, read_child_c_string-string_at}
use reproduce.Putils.Text.Readable.{Readable}
use reproduce.Putils.Text.Failures.{read_child_c_string-gone, read_child_c_string-minus_one}
use reproduce.Syscalls.{
  nr_open, nr_openat, nr_openat2, stdin_fileno, is_random_device, redirect_path,
  redirect_dev_random, dispatch, handle_syscall,
}
use reproduce.Syscalls.Steps.{handle_syscall-dispatch}

-- The numbers of the system calls that go to `redirect_dev_random`.
pub data OpenCall : Type 0 where
  open_call openat openat2 : OpenCall

abbrev pub open_number : OpenCall → ℕ
open_number open_call = nr_open
open_number openat = nr_openat
open_number openat2 = nr_openat2

module _ ⦃k : Kernel⦄ ⦃u : Uthash⦄ (p child : ℕ) (c : ChildProcess) (regs : Regs) (s : State)
    (here : Assoc.lookup child s.heap ≡ some c) (own : c.pid ≡ p) where
  pub handle_open :
      (call : OpenCall)
      → r_syscall regs ≡ open_number call
      → handle_syscall child regs s ≡ redirect_dev_random p regs s
  unfolding dispatch
  handle_open open_call n = handle_syscall-dispatch child regs s c p nr_open here own n
  handle_open openat n = handle_syscall-dispatch child regs s c p nr_openat here own n
  handle_open openat2 n = handle_syscall-dispatch child regs s c p nr_openat2 here own n

  -- If the kernel says ESRCH when the path of `open`, `openat` or `openat2` is read,
  -- `handle_syscall` faults: NULL is compared with a string.
  pub handle_syscall-open_gone :
      (call : OpenCall)
      → r_syscall regs ≡ open_number call
      → (k.peekdata p (r_arg2 regs) s.world).0 ≡ reply minus_one esrch
      → handle_syscall child regs s ≡ fault
  unfolding redirect_dev_random redirect_path
  handle_syscall-open_gone call n gone =
      handle_open call n ∙ rw (read_child_c_string-gone (r_arg2 regs) p s gone)

  module _ {v : View k.World} (laws : Ptrace v) (stopped : v.Stopped s.world p) where
    -- For a stopped tracee at `open`, whose second argument, the flags, is no mapped address,
    -- `handle_syscall` exits with EXIT_FAILURE, after the one request that reads a path at that
    -- address.
    pub handle_syscall-open_flags :
        r_syscall regs ≡ nr_open
        → v.mapped s.world p (r_arg2 regs) ≡ false
        → handle_syscall child regs s
          ≡ exit exit_failure (in_world s (k.peekdata p (r_arg2 regs) s.world).1)
    unfolding redirect_dev_random
    handle_syscall-open_flags n unmapped =
        handle_open open_call n
        ∙ rw (
            read_child_c_string-minus_one (r_arg2 regs) p s eio refl
              (laws.peek_unmapped s.world p (r_arg2 regs) stopped unmapped))

    abbrev path : List ℕ
    path = string_at (v.byte s.world p) (r_arg2 regs) 1023

    -- A tracee that opens a device is at the entry of its call, and runs it and stops again when it
    -- is resumed there with the same memory and registers.
    abbrev ResumesDevice : Type 0
    ResumesDevice =
        is_random_device path ≡ true
        → AtEntry v p s.world
          × ((w : k.World)
              → AtEntry v p w
              → SameMemory v p s.world w
              → v.regs w p ≡ v.regs s.world p
              → ResumesFrom v p w)

    redirect_path-Returns :
        (s1 : State)
        → ResumesDevice
        → Unchanged laws p (r_arg2 regs) s s1
        → Returns
            (λ _ s'.
              SameTables s s'
              × (if is_random_device path
                  then v.regs s'.world p ≡ w_return regs stdin_fileno
                  else (SameMemory v p s.world s'.world × (v.regs s'.world p ≡ v.regs s.world p))))
            (redirect_path p regs (some path) s1)
    unfolding redirect_path
    redirect_path-Returns s1 resumes u = elim (Bool-cases (is_random_device path)) [
      | inr other ↦ rw other (returns (u.same, (u.kept, u.regs)))
      | inl device ↦ rw device (
          Outcome.bind
            (child_continue_syscall-resumed laws p regs s1 u.kept.stopped
              ((resumes device).1 s1.world (u.entry (resumes device).0) u.kept u.regs))
            λ _ s2 (same2, stopped2).
              Outcome.mono (child_returns-regs laws p regs s2 stopped2 stdin_fileno)
                (λ _ s3 (same3, kept3, e). (
                  record {
                    table = same3.table ∙ same2.table ∙ u.same.table;
                    count = same3.count ∙ same2.count ∙ u.same.count;
                    heap = same3.heap ∙ same2.heap ∙ u.same.heap;
                  },
                  e,
                )))
    ]

    -- For a stopped tracee at one of the numbers of `open`, `openat` and `openat2`, with a readable
    -- path at its second argument, and which, if the path is that of a random device, is at the
    -- entry of the call, and runs it and stops again when it is resumed with its memory and
    -- registers as they are: `handle_syscall` returns and leaves the tracer's variables as they
    -- were. If the path is that of a random device, the registers are those that it is given with
    -- the standard input as the result; on any other path the tracee is still stopped, and its
    -- memory and its registers are unchanged.
    pub handle_syscall-openat :
        (call : OpenCall)
        → r_syscall regs ≡ open_number call
        → Readable v s.world p (r_arg2 regs)
        → ResumesDevice
        → Returns
            (λ _ s'.
              SameTables s s'
              × (if is_random_device path
                  then v.regs s'.world p ≡ w_return regs stdin_fileno
                  else (SameMemory v p s.world s'.world × (v.regs s'.world p ≡ v.regs s.world p))))
            (handle_syscall child regs s)
    unfolding redirect_dev_random
    handle_syscall-openat call n readable resumes = rw (handle_open call n) (
        Outcome.bind (read_child_c_string-string_at laws p (r_arg2 regs) s stopped readable)
          λ r s1 (e, u). rw e (redirect_path-Returns s1 resumes u))
