-- ===== src/Sample/Examples/Tables.antt =====
-- The table and the event loop, over the hash table of one bucket.
use reproduce.Prelude.{ℕ, ◌≡◌, refl, [], ◌∷◌, ◌==◌, not, ◌&&◌, none, some, if◌then◌else◌}
use reproduce.Kernel.{changed, exit_failure}
use reproduce.Tracer.{State}
use reproduce.Tracer.Outcome.{Ends}
use reproduce.HashTable.{insert_process, delete_process}
use reproduce.HashTable.View.{IsTable, view, is_some}
use reproduce.HashTable.Changes.{insert_process-view, delete_process-view, new_process}
use reproduce.Events.{register_new_child}
use reproduce.Events.Forks.{register_new_child-view}
use reproduce.Sample.Machine.{machine}
use reproduce.Sample.Table.{one_bucket}
use reproduce.Sample.Examples.{entry, tracing, mem_of, tracing-IsTable}

-- Process 7 is traced, and will exit.
abbrev one : State
one = tracing (mem_of []) (entry 0 0 0) (changed 7 0x057f ∷ changed 7 0 ∷ [])

one-IsTable : IsTable one
one-IsTable = tracing-IsTable (mem_of []) (entry 0 0 0) (changed 7 0x057f ∷ changed 7 0 ∷ [])

insert_process-view_example :
    Ends
      (λ added s'.
        IsTable s'
        × (added ≡ not (is_some (view one 9)))
        × ((j : ℕ) → view s' j ≡ (if (9 == j) && added then some (new_process 9) else view one j)))
      (λ code s'.
        IsTable s'
        × (code ≡ exit_failure)
        × (view one 9 ≡ none)
        × ((j : ℕ) → view s' j ≡ view one j))
      (insert_process 9 one)
insert_process-view_example = insert_process-view one-IsTable 9

delete_process-view_example :
    Ends
      (λ _ s'. IsTable s' × ((j : ℕ) → view s' j ≡ (if 7 == j then none else view one j)))
      (λ code s'. ⊥)
      (delete_process 7 one)
delete_process-view_example = delete_process-view one-IsTable 7

-- Process 7 forks; the machine names the new process 9.
register_new_child-view_example :
    Ends
      (λ _ s'.
        IsTable s' × ((j : ℕ) → view s' j ≡ (if 9 == j then some (new_process 9) else view one j)))
      (λ code s'. IsTable s' × (code ≡ exit_failure))
      (register_new_child 7 one)
register_new_child-view_example = register_new_child-view one-IsTable 7 refl
