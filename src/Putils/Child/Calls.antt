-- ===== src/Putils/Child/Calls.antt =====
-- What the functions that run a system call of a tracee do to it.
use reproduce.Prelude.{ℕ, ◌≡◌, false, refl, ◌||◌, ◌∙◌, ap}
use reproduce.Kernel.{Kernel, Regs, only, changed, minus_one, wifexited, wifsignaled}
use reproduce.Kernel.Laws.{View, Ptrace, AtEntry, SameMemory, reply}
use reproduce.Uthash.{Uthash}
use reproduce.Tracer.{State}
use reproduce.Tracer.Outcome.{Returns, returns, SameTables}
use reproduce.Putils.Registers.{w_syscall, w_return}
use reproduce.Putils.Child.{child_cancel_syscall, child_continue_syscall, child_returns}

-- From here the tracee runs its system call and stops again.
abbrev pub ResumesFrom : ⦃k : Kernel⦄ → View k.World → ℕ → k.World → Type 0
ResumesFrom ⦃k⦄ v p w =
    ((k.syscall p w).0 ≡ reply 0 0)
    × ((st : ℕ) × ((k.waitpid (only p) (k.syscall p w).1).0 ≡ changed p st)
        × ((wifexited st || wifsignaled st) ≡ false))
    × v.Stopped (k.waitpid (only p) (k.syscall p w).1).1 p

-- And the system call writes nothing to the memory of the tracee.
abbrev pub RunsCall : ⦃k : Kernel⦄ → View k.World → ℕ → k.World → Type 0
RunsCall ⦃k⦄ v p w = ResumesFrom v p w × SameMemory v p w (k.waitpid (only p) (k.syscall p w).1).1

module _ ⦃k : Kernel⦄ ⦃u : Uthash⦄ {v : View k.World} (laws : Ptrace v) (p : ℕ) (regs : Regs)
    (s : State) (entry : AtEntry v p s.world) where
  -- On a tracee at the entry of a system call `child_cancel_syscall` returns with the number -1 in the struct of
  -- registers; the tracee is stopped with its memory as it was, and so are the variables of the
  -- tracer.
  pub child_cancel_syscall-memory :
      Returns
        (λ r s'. (r ≡ w_syscall regs minus_one) × SameTables s s' × SameMemory v p s.world s'.world)
        (child_cancel_syscall p regs s)
  unfolding child_cancel_syscall
  child_cancel_syscall-memory =
      let r : Regs = w_syscall regs minus_one in
      let w1 : k.World = (k.setregs p r s.world).1 in
      let kept = laws.setregs-memory s.world p r entry.stopped in
      let put = laws.setregs-entry s.world p r entry in
      let noop : (v.regs w1 p).orig_rax ≡ minus_one =
        ap (λ (x : Regs). x.orig_rax) (laws.setregs-regs s.world p r entry.stopped) in
      let (st, e, there) = laws.cancel_wait w1 p put noop in
      let kept' = laws.cancel-memory w1 p put noop in
      rw (laws.setregs s.world p r entry.stopped, laws.resume w1 p kept.stopped, e, there)
        (returns (
          refl,
          record { table = refl; count = refl; heap = refl },
          record {
            stopped = kept'.stopped;
            mapped = λ a. kept'.mapped a ∙ kept.mapped a;
            byte = λ a. kept'.byte a ∙ kept.byte a;
          },
        ))

module _ ⦃k : Kernel⦄ ⦃u : Uthash⦄ {v : View k.World} (laws : Ptrace v) (p : ℕ) (regs : Regs)
    (s : State) (stopped : v.Stopped s.world p) where
  pub child_continue_syscall-resumed :
      ResumesFrom v p s.world
      → Returns (λ _ s'. SameTables s s' × v.Stopped s'.world p) (child_continue_syscall p regs s)
  unfolding child_continue_syscall
  child_continue_syscall-resumed (go, (st, e, there), stopped') =
      rw (go, e, there) (returns (record { table = refl; count = refl; heap = refl }, stopped'))

  pub child_continue_syscall-RunsCall :
      RunsCall v p s.world
      → Returns
          (λ _ s'. SameTables s s' × SameMemory v p s.world s'.world)
          (child_continue_syscall p regs s)
  unfolding child_continue_syscall
  child_continue_syscall-RunsCall ((go, (st, e, there), stopped'), kept) =
      rw (go, e, there) (returns (record { table = refl; count = refl; heap = refl }, kept))

  -- `child_returns` sets the result, and the other registers from the struct.
  pub child_returns-regs :
      (x : ℕ)
      → Returns
          (λ _ s'.
            SameTables s s'
            × SameMemory v p s.world s'.world
            × (v.regs s'.world p ≡ w_return regs x))
          (child_returns p regs x s)
  unfolding child_returns
  child_returns-regs x = rw (laws.setregs s.world p (w_return regs x) stopped) (
      returns (
        record { table = refl; count = refl; heap = refl },
        laws.setregs-memory s.world p (w_return regs x) stopped,
        laws.setregs-regs s.world p (w_return regs x) stopped,
      ))
