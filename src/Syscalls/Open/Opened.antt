-- ===== src/Syscalls/Open/Opened.antt =====
-- What a tracee sees of a call that opens a file.
use reproduce.Prelude.{ℕ, Bool, ◌≡◌, true, ◌∙◌, some, if◌then◌else◌, inl, inr, Bool-cases}
use reproduce.Prelude.Assoc
use reproduce.Kernel.{Kernel, Regs}
use reproduce.Kernel.Laws.{View, Ptrace, AtEntry, SameMemory}
use reproduce.Uthash.{Uthash}
use reproduce.Tracer.{ChildProcess, State}
use reproduce.Tracer.Outcome
use reproduce.Tracer.Outcome.{Returns, returns, SameTables}
use reproduce.Putils.Registers.{w_return, r_syscall, r_arg2}
use reproduce.Putils.Child.Calls.{child_returns-regs, child_continue_syscall-RunsCall, RunsCall}
use reproduce.Putils.Text.Strings.{string_at}
use reproduce.Putils.Text.Reads.{Unchanged, read_child_c_string-string_at}
use reproduce.Putils.Text.Readable.{Readable}
use reproduce.Syscalls.{
  stdin_fileno, is_random_device, redirect_path, redirect_dev_random, handle_syscall,
}
use reproduce.Syscalls.Open.{OpenCall, open_number, handle_open}

-- Whether the call with these registers and this memory opens a random device.
abbrev pub opens_device : Regs → (ℕ → ℕ) → Bool
opens_device r m = is_random_device (string_at m (r_arg2 r) 1023)

module _ ⦃k : Kernel⦄ ⦃u : Uthash⦄ {v : View k.World} (laws : Ptrace v) (p child : ℕ)
    (c : ChildProcess) (regs : Regs) (s : State) (here : Assoc.lookup child s.heap ≡ some c)
    (own : c.pid ≡ p) (stopped : v.Stopped s.world p) where
  -- A random device has been redirected to the standard input, and another file left to the kernel;
  -- all else is as it was.
  pub record Opened (s' : State) : Type 0 where
    pub same : SameTables s s'
    pub kept : SameMemory v p s.world s'.world
    pub registers : v.regs s'.world p ≡ (
        if opens_device regs (v.byte s.world p)
        then w_return regs stdin_fileno
        else v.regs s.world p)

  -- what the kernel does when a device is opened
  abbrev pub RunsDevice : Type 0
  RunsDevice =
      opens_device regs (v.byte s.world p) ≡ true
      → AtEntry v p s.world
        × ((w : k.World)
            → AtEntry v p w
            → SameMemory v p s.world w
            → v.regs w p ≡ v.regs s.world p
            → RunsCall v p w)

  redirect_path-Opened :
      RunsDevice
      → (s1 : State) → Unchanged laws p (r_arg2 regs) s s1
      → Returns
          (λ _ s'. Opened s')
          (redirect_path p regs (some (string_at (v.byte s.world p) (r_arg2 regs) 1023)) s1)
  unfolding redirect_path
  redirect_path-Opened runs s1 u = elim (Bool-cases (opens_device regs (v.byte s.world p))) [
    | inr other ↦
        rw other (returns (record { same = u.same; kept = u.kept; registers = rw other u.regs }))
    | inl device ↦ rw device (
        Outcome.bind
          (child_continue_syscall-RunsCall laws p regs s1 u.kept.stopped
            ((runs device).1 s1.world (u.entry (runs device).0) u.kept u.regs))
          λ _ s2 (same2, kept2).
            Outcome.mono (child_returns-regs laws p regs s2 kept2.stopped stdin_fileno)
              (λ _ s3 (same3, kept3, e). record {
                same = record {
                  table = same3.table ∙ same2.table ∙ u.same.table;
                  count = same3.count ∙ same2.count ∙ u.same.count;
                  heap = same3.heap ∙ same2.heap ∙ u.same.heap;
                };
                kept = record {
                  stopped = kept3.stopped;
                  mapped = λ a. kept3.mapped a ∙ kept2.mapped a ∙ u.kept.mapped a;
                  byte = λ a. kept3.byte a ∙ kept2.byte a ∙ u.kept.byte a;
                };
                registers = rw device e;
              }))
  ]

  pub handle_syscall-Opened :
      (call : OpenCall)
      → r_syscall regs ≡ open_number call
      → Readable v s.world p (r_arg2 regs)
      → RunsDevice
      → Returns (λ _ s'. Opened s') (handle_syscall child regs s)
  unfolding redirect_dev_random
  handle_syscall-Opened call n readable runs = rw (handle_open p child c regs s here own call n) (
      Outcome.bind (read_child_c_string-string_at laws p (r_arg2 regs) s stopped readable)
        λ r s1 (e, u). rw e (redirect_path-Opened runs s1 u))
