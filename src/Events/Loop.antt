-- ===== src/Events/Loop.antt =====
-- What the event loop keeps, whatever the kernel reports and replies.
use reproduce.Prelude.{ℕ, zero, suc, ◌≡◌, refl, true, Option, none, some}
use reproduce.Prelude.Assoc
use reproduce.Kernel.{Kernel, Wait, changed, failed, any}
use reproduce.Uthash.{Uthash}
use reproduce.Tracer.{ChildProcess, State, request}
use reproduce.Tracer.Outcome.{Leaves}
use reproduce.Tracer.Keeps.{
  IsOwn, Keeps, KeepsOr, Keeps-if, Keeps-bind, Keeps-pure, Keeps-fuel, Keeps-request, keeps_rules,
}
use reproduce.HashTable.{is_hash_table_empty, insert_process, delete_process}
use reproduce.HashTable.View.{IsTable}
use reproduce.HashTable.Changes.{IsTable-IsOwn}
use reproduce.HashTable.Keeps.{
  find_process-Keeps, insert_process-Keeps, delete_process-Keeps, empty-Keeps, timed-IsTable,
}
use reproduce.Syscalls.{advance_clock}
use reproduce.Syscalls.Keeps.{handle_syscall-Keeps}
use reproduce.Events.Keeps.{hook_found-Keeps, hook_new-Keeps, serve-Keeps}
use reproduce.Events.{hook_found, hook, serve, round, handle_event}

module _ ⦃k : Kernel⦄ ⦃u : Uthash⦄ where
  -- The properties of the tracer's variables that each of the ways to change them keeps.
  pub record IsInvariant (P : State → Type 0) : Type 0 where
    pub own : IsOwn P
    pub insert : (pid : ℕ) → Keeps P (insert_process pid)
    pub delete : (pid : ℕ) → Keeps P (delete_process pid)
    pub advance : (child : ℕ) → Keeps P (advance_clock child)

  -- What the loop keeps: what the changes of the table and the part under "Hook system calls" do.
  pub record IsKept (F : Type 0) (P : State → Type 0) : Type 0 where
    pub own : IsOwn P
    pub insert : (pid : ℕ) → KeepsOr F P (insert_process pid)
    pub delete : (pid : ℕ) → KeepsOr F P (delete_process pid)
    pub hooked : (fuel pid : ℕ) → KeepsOr F P (hook fuel pid)

  module _ {P : State → Type 0} (i : IsInvariant P) where
    found-Keeps : (fuel pid : ℕ) (c : Option ℕ) → Keeps P (hook_found fuel pid c)
    found-Keeps fuel pid none = hook_new-Keeps i.own i.insert fuel pid
    found-Keeps fuel pid (some child) =
        hook_found-Keeps i.own pid (i.delete pid) fuel child
          (handle_syscall-Keeps i.own child (i.advance child))

    hook-Keeps : (fuel pid : ℕ) → Keeps P (hook fuel pid)
    unfolding hook
    hook-Keeps fuel pid = Keeps-bind _ _ (find_process-Keeps pid) (λ c. found-Keeps fuel pid c)

    pub IsInvariant-IsKept : IsKept Unit P
    IsInvariant-IsKept = record {
      own = i.own;
      insert = i.insert;
      delete = i.delete;
      hooked = hook-Keeps;
    }

  module _ {F : Type 0} {P : State → Type 0} (i : IsKept F P) where
    served-Keeps : (fuel pid status : ℕ) → KeepsOr F P (serve fuel pid status)
    served-Keeps fuel pid status =
        serve-Keeps i.own i.insert fuel pid status (i.delete pid) (i.hooked fuel pid)

    round-Keeps : (fuel : ℕ) (w : Wait) → KeepsOr F P (round fuel w)
    unfolding round
    round-Keeps fuel (failed e) = search keeps_rules
    round-Keeps fuel (changed pid status) =
        Keeps-bind (serve fuel pid status) _ (served-Keeps fuel pid status) (λ _. Keeps-pure true)

    pub handle_event-Keeps : (rounds fuel : ℕ) → KeepsOr F P (handle_event rounds fuel)
    unfolding handle_event
    handle_event-Keeps zero fuel = Keeps-fuel Unit
    handle_event-Keeps (suc rounds) fuel = Keeps-bind is_hash_table_empty _ empty-Keeps (λ e.
        Keeps-if e _ _ (Keeps-pure tt) (
          Keeps-bind (request (k.waitpid any)) _ (Keeps-request (k.waitpid any) i.own) (λ w.
            Keeps-bind (round fuel w) _ (round-Keeps fuel w)
              (λ go_on. Keeps-if go_on _ _ (handle_event-Keeps rounds fuel) (Keeps-pure tt)))))

  advanced :
      (q : ℕ) (s : State)
      → IsTable s
      → (o : Option ChildProcess) → Assoc.lookup q s.heap ≡ o
      → Leaves IsTable (advance_clock q s)
  unfolding advance_clock
  advanced q s t none e = rw e tt
  advanced q s t (some c) e = rw e (timed-IsTable q _ s c t e)

  pub IsTable-IsInvariant : IsInvariant IsTable
  IsTable-IsInvariant = record {
    own = IsTable-IsOwn;
    insert = insert_process-Keeps;
    delete = delete_process-Keeps;
    advance = λ q. record { at = λ s t. advanced q s t (Assoc.lookup q s.heap) refl };
  }

  -- Started on a well-formed table, the event loop leaves a well-formed table, whether it returns or
  -- ends the tracer, whatever the kernel reports and replies.
  handle_event-IsTable :
      (rounds fuel : ℕ) (s : State) → IsTable s → Leaves IsTable (handle_event rounds fuel s)
  handle_event-IsTable rounds fuel s t =
      (handle_event-Keeps (IsInvariant-IsKept IsTable-IsInvariant) rounds fuel).at s t
