-- ===== src/Events/Children.antt =====
-- Rounds of the event loop for processes that have ended or gone.
use reproduce.Prelude.{
  ℕ, ◌≡◌, true, ◌||◌, none, some, ◌==◌, if◌then◌else◌, ==-refl, ◌∙◌, ap, ◌+◌, ◌-◌, ◌%◌, ◌^◌,
}
use reproduce.Prelude.Assoc
use reproduce.Kernel.{Kernel, minus_one, esrch, wifexited, wifsignaled}
use reproduce.Kernel.Laws.{reply}
use reproduce.Uthash.{Uthash}
use reproduce.Tracer.{State, Run, fault, and_then}
use reproduce.Tracer.Outcome.{Ends}
use reproduce.Tracer.Macros.{in_world}
use reproduce.HashTable.{delete_process}
use reproduce.HashTable.View.{view, IsTable}
use reproduce.HashTable.Changes.{delete_process-view, delete_process-found}
use reproduce.HashTable.Keeps.{find_process_lem}
use reproduce.Syscalls.Steps.{handle_syscall-dangling}
use reproduce.Events.{ptrace_delete, ptrace_delete_getregs, hook_found, hook, serve}

-- The round for a process that has ended is its deletion.
pub serve-at_exit :
    ⦃k : Kernel⦄ ⦃u : Uthash⦄ (fuel pid status : ℕ) (s : State)
    → (wifexited status || wifsignaled status) ≡ true
    → serve fuel pid status s ≡ delete_process pid s
unfolding serve
serve-at_exit fuel pid status s gone = rw gone

module _ ⦃k : Kernel⦄ ⦃u : Uthash⦄ {s : State} (t : IsTable s) (fuel pid : ℕ) where
  -- On a well-formed table the round for a process that has exited or was killed returns and
  -- leaves a well-formed table, in which that process is not traced and every other is as before.
  serve-exited :
      (status : ℕ)
      → (wifexited status || wifsignaled status) ≡ true
      → Ends
          (λ _ s'. IsTable s' × ((j : ℕ) → view s' j ≡ (if pid == j then none else view s j)))
          (λ code s'. ⊥)
          (serve fuel pid status s)
  serve-exited status gone = rw (serve-at_exit fuel pid status s gone) (delete_process-view t pid)

module _ ⦃k : Kernel⦄ ⦃u : Uthash⦄ (s : State) (fuel pid : ℕ) where
  abbrev left_by_delete : ℕ → State
  left_by_delete child = record {
    world = (k.getregs pid s.world).1;
    process_table = u.del s.process_table child;
    entry_count = (s.entry_count + 2 ^ 32 - 1) % 2 ^ 32;
    heap = Assoc.remove child s.heap;
  }

  -- If the kernel says ESRCH when the registers of a traced process are read, the round goes on
  -- after PTRACE_DELETE has deleted the process, and faults: the struct that was just freed is
  -- used.
  pub hook-use_after_free :
      (child : ℕ)
      → u.find s.process_table pid ≡ some child
      → (k.getregs pid s.world).0.0 ≡ reply minus_one esrch
      → hook fuel pid s ≡ fault
  unfolding hook hook_found ptrace_delete_getregs
  hook-use_after_free child e gone =
      let freed : Assoc.lookup child (Assoc.remove child s.heap) ≡ none =
        Assoc.lookup-remove child child s.heap ∙ rw (==-refl child) in
      rw
        (
          find_process_lem,
          e,
          gone,
          delete_process-found (in_world s (k.getregs pid s.world).1) pid child e,
        )
        (ap (λ (r : Run State (Unit {0})). and_then r (λ _. ptrace_delete (k.syscall pid) pid))
          (handle_syscall-dangling child (k.getregs pid s.world).0.1 (left_by_delete child) freed))
