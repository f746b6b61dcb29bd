-- ===== src/Events/Stops/Unexpected.antt =====
-- A stop of a process that is not in the table, and the two orders in which the kernel can report a
-- fork: the child stops before the event of its parent is reported, or after.
use reproduce.Prelude.{
  ℕ, ◌+◌, ◌≤◌, ◌≡◌, refl, true, false, ◌&&◌, not, ◌==◌, if◌then◌else◌, none, some, List, ◌∷◌,
  length, ◌∙◌, subst, sym, Bool, Bool-cases, inl, inr, arith,
}
use reproduce.Kernel.{Kernel, minus_one, exit_failure}
use reproduce.Kernel.Laws.{View, Ptrace}
use reproduce.Uthash.{Uthash}
use reproduce.Tracer.{State, pure, ◌>>=◌}
use reproduce.Tracer.Outcome
use reproduce.Tracer.Outcome.{Ends, Ends-bind, Ends-mono, Ends-of_Returns, SameTables}
use reproduce.Tracer.Macros.{in_world}
use reproduce.HashTable.{insert_process}
use reproduce.HashTable.View.{IsTable, view, is_some}
use reproduce.HashTable.Changes.{IsTable-IsOwn, new_process, insert_process-view}
use reproduce.HashTable.Keeps.{find_process_lem}
use reproduce.ProcInit.{proc_init}
use reproduce.ProcInit.Stack.{Resumed, proc_init-Hidden}
use reproduce.Vdso.Stack.{StackAt}
use reproduce.Events.{to_pid, hook_found, hook, serve, register_new_child}
use reproduce.Events.Forks.{or_new, register_new_child-view}
use reproduce.Events.Stops.{StopStatus, serve-plain}

module _ ⦃k : Kernel⦄ ⦃u : Uthash⦄ where
  -- With the same variables the table is as well formed, and stands for the same map.
  pub moved : {s s' : State} → SameTables s s' → s' ≡ in_world s s'.world
  moved {s} {s'} same i = record {
    world = s'.world;
    process_table = same.table i;
    entry_count = same.count i;
    heap = same.heap i;
  }

  pub Resumed-SameTables :
      {p : ℕ} {s s' : State} {P : State → Type 0}
      → ((s1 : State) → P s1 → SameTables s s1)
      → Resumed p P s'
      → SameTables s s'
  Resumed-SameTables {p} {s} {s'} same r =
      let b = same r.before r.holds in
      subst (SameTables s) (sym r.resumed)
        (record { table = b.table; count = b.count; heap = b.heap })

  -- A table in which the process is traced as a new one, and every other as before.
  abbrev pub Adopted : ℕ → State → State → Type 0
  Adopted p s s' =
      IsTable s' × ((j : ℕ) → view s' j ≡ (if p == j then some (new_process p) else view s j))

  abbrev pub Failed : ℕ → State → Type 0
  Failed code s' = IsTable s' × (code ≡ exit_failure)

  abbrev Inserted : ℕ → State → Bool → State → Type 0
  Inserted p s added s' =
      IsTable s'
      × (added ≡ not (is_some (view s p)))
      × ((j : ℕ) → view s' j ≡ (if (p == j) && added then some (new_process p) else view s j))

  abbrev NoMemory : ℕ → State → ℕ → State → Type 0
  NoMemory p s code s' =
      IsTable s' × (code ≡ exit_failure) × (view s p ≡ none) × ((j : ℕ) → view s' j ≡ view s j)

  Moved-Inserted :
      (p : ℕ) (s s1 : State)
      → IsTable s
      → view s p ≡ none
      → SameTables s s1
      → Ends (λ (added : Bool) s'. Adopted p s s') Failed (insert_process p s1)
  Moved-Inserted p s s1 t absent same =
      subst
        (λ (s2 : State). Ends (λ (added : Bool) s'. Adopted p s s') Failed (insert_process p s2))
        (sym (moved same))
        (Ends-mono (Inserted p (in_world s s1.world)) (λ added s'. Adopted p s s')
          (NoMemory p (in_world s s1.world)) Failed (insert_process p (in_world s s1.world))
          (insert_process-view (IsTable-IsOwn.move s s1.world t) p)
          (λ added s' (t', e, w).
            let new : added ≡ true = e ∙ rw absent refl in (t', λ j. w j ∙ rw new (ground arith)))
          (λ code s' h. (h.0, h.1)))

  module _ {v : View k.World} (laws : Ptrace v) (fuel p : ℕ) (s : State) where
    -- A process that stops with no event and is not traced, on a stack that reads as that of a new
    -- program, none of whose words read is -1, with enough fuel: if the table is well formed, the
    -- round returns or exits with EXIT_FAILURE and leaves it well formed; if it returns, the process
    -- is traced, with the first time, and every other process is as before.
    pub serve-unexpected :
        (status type value : ℕ) (args env : List ℕ) (aux : List (ℕ × ℕ))
        → IsTable s
        → u.find s.process_table p ≡ none
        → StopStatus 0 status
        → v.Stopped s.world p
        → ((v.regs s.world p).rsp == minus_one) ≡ false
        → StackAt v s.world p ((v.regs s.world p).rsp + 8) args env ((type, value) ∷ aux)
        → length args + length env + length aux + 4 ≤ fuel
        → Ends
            (λ _ s'.
              IsTable s'
              × ((j : ℕ) → view s' j ≡ (if p == j then some (new_process p) else view s j)))
            (λ code s'. IsTable s' × (code ≡ exit_failure))
            (serve fuel p status s)
    unfolding hook hook_found
    serve-unexpected status type value args env aux t absent st stopped clear at enough =
        rw (serve-plain fuel p status s st, find_process_lem, absent)
          (Ends-bind (λ _ s1. SameTables s s1) (λ _ s'. Adopted p s s') Failed Failed
            (proc_init fuel p s) (λ _. insert_process p >>= λ _. pure tt)
            (Ends-of_Returns Failed (
              Outcome.mono
                (proc_init-Hidden laws p s fuel type value args env aux stopped clear at enough)
                (λ _ s1 r. Resumed-SameTables (λ s2 h. h.same) r)))
            (λ _ s1 same.
              Ends-bind (λ added s'. Adopted p s s') (λ _ s'. Adopted p s s') Failed Failed
                (insert_process p s1) (λ _. pure tt) (Moved-Inserted p s s1 t (rw absent refl) same)
                (λ added s' h. h) (λ code s' h. h))
            (λ code s' h. h))

  -- What the event of a fork does, seen from a state in which the child was traced or not.
  named-Adopted :
      (parent c : ℕ) (s s1 : State)
      → IsTable s1
      → (((k.geteventmsg parent s1.world).0.0.ret == minus_one) ≡ false)
        × (to_pid (k.geteventmsg parent s1.world).0.1 ≡ c)
      → or_new (view s1 c) c ≡ new_process c
      → ((j : ℕ) → (c == j) ≡ false → view s1 j ≡ view s j)
      → Ends (λ _ s'. Adopted c s s') Failed (register_new_child parent s1)
  named-Adopted parent c s s1 t (known, name) new others =
      Ends-mono _ (λ _ s'. Adopted c s s') Failed Failed (register_new_child parent s1)
        (register_new_child-view t parent known)
        (λ _ s' (t', w). (
          t',
          λ j.
              w j
              ∙ rw name (elim (Bool-cases (c == j)) [
                | inl same ↦ rw (same, new) refl
                | inr other ↦ rw other (others j other)
              ]),
        ))
        (λ code s' h. h)
