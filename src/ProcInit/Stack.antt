-- ===== src/ProcInit/Stack.antt =====
-- What `proc_init` does to a stopped process before it resumes it.
use reproduce.Prelude.{ℕ, ◌+◌, ◌≤◌, ◌≡◌, refl, false, ◌==◌, List, ◌∷◌, length}
use reproduce.Kernel.{Kernel, minus_one}
use reproduce.Kernel.Laws.{View, Ptrace, Holds}
use reproduce.Uthash.{Uthash}
use reproduce.Tracer.{State, pure}
use reproduce.Tracer.Outcome
use reproduce.Tracer.Outcome.{Returns, returns, SameTables}
use reproduce.Tracer.Macros.{in_world, ptrace_return-ok}
use reproduce.Vdso.Stack.{StackAt, hide, auxv_start}
use reproduce.Vdso.Stack.Walk.{remove_vdso-hide}
use reproduce.ProcInit.{proc_init}

module _ ⦃k : Kernel⦄ ⦃u : Uthash⦄ where
  -- The process is resumed from a state with the property.
  pub record Resumed (p : ℕ) (P : State → Type 0) (s' : State) : Type 0 where
    pub before : State
    pub holds : P before
    pub resumed : s' ≡ in_world before (k.syscall p before.world).1

  module _ {v : View k.World} (laws : Ptrace v) (p : ℕ) (s : State) where
    abbrev sp : ℕ
    sp = (v.regs s.world p).rsp

    -- The memory of the process has lost the entry for the vDSO, and nothing else has changed.
    pub record Hidden (args env : List ℕ) (aux : List (ℕ × ℕ)) (s1 : State) : Type 0 where
      pub same : SameTables s s1
      pub held :
          Holds v p s.world
            (hide (auxv_start ((v.regs s.world p).rsp + 8) args env) aux (v.byte s.world p))
            s1.world

    pub proc_init-Hidden :
        (fuel type value : ℕ) (args env : List ℕ) (aux : List (ℕ × ℕ))
        → v.Stopped s.world p
        → (sp == minus_one) ≡ false
        → StackAt v s.world p (sp + 8) args env ((type, value) ∷ aux)
        → length args + length env + length aux + 4 ≤ fuel
        → Returns
            (λ _ s'. Resumed p (λ s1. Hidden args env ((type, value) ∷ aux) s1) s')
            (proc_init fuel p s)
    unfolding proc_init
    proc_init-Hidden fuel type value args env aux stopped clear at enough =
        Outcome.bind
          (remove_vdso-hide laws p s fuel type value args env aux stopped clear at enough)
          λ _ s1 (same, held).
            rw
              (ptrace_return-ok (k.syscall p) tt (pure tt) s1 (laws.resume s1.world p held.stopped))
              (returns (record {
                before = s1;
                holds = record { same = same; held = held };
                resumed = refl;
              }))
