-- ===== src/Sample/Examples/Invariants.antt =====
-- What holds of the whole tracer and of all its processes.
use reproduce.Prelude.{ℕ, ◌≡◌, refl, true, false, List, [], ◌%◌, length, contains}
use reproduce.Tracer.{State, ok}
use reproduce.Tracer.Outcome.{Leaves}
use reproduce.HashTable.Fresh.{with_new, with_new-IsTable}
use reproduce.HashTable.Changes.{new_process}
use reproduce.HashTable.View.{is_some}
use reproduce.HashTable.View as Map
use reproduce.Events.{serve}
use reproduce.Events.Isolation.{HasProcess, serve-HasProcess}
use reproduce.Diagnostics.{Build, print_hashtable}
use reproduce.Diagnostics.Listing.{listing, print_hashtable-lists}
use reproduce.Sample.Machine.{machine}
use reproduce.Sample.Table.{one_bucket}
use reproduce.Sample.Examples.{entry, tracing, tracing-IsTable, mem_of}

abbrev one : State
one = tracing (mem_of []) (entry 201 5000 0) []

-- Processes 7 and 9 are traced.
abbrev both : State
both = with_new one 9

both-HasProcess : HasProcess 9 (new_process 9) both
both-HasProcess =
    let (t, v) = with_new-IsTable one 9 refl refl (tracing-IsTable _ _ _) in
    record { table = t; struct = v 9 }

serve-HasProcess_example : Leaves (HasProcess 9 (new_process 9)) (serve 0 7 0x857f both)
serve-HasProcess_example = serve-HasProcess 9 (new_process 9) 0 7 0x857f both both-HasProcess refl

abbrev debugging : Build
debugging = record { debug_build = true; trace_build = false }

print_hashtable-lists_example :
    (pids : List ℕ) × (print_hashtable debugging one ≡ ok (listing pids) one)
    × ((j : ℕ) → contains pids j ≡ is_some (Map.view one j))
    × (◌≡◌ {A = ℕ} 1 (length pids % 4294967296))
print_hashtable-lists_example = print_hashtable-lists debugging one (tracing-IsTable _ _ _)
