-- ===== src/HashTable/Fresh.antt =====
-- The state that the insertion of a new process leaves.
use reproduce.Prelude.{ℕ, ◌+◌, ◌%◌, ◌^◌, ◌≡◌, true, false, none, ◌==◌, if◌then◌else◌, some, arith}
use reproduce.Prelude.Assoc
use reproduce.Kernel.{Kernel, exit_failure}
use reproduce.Uthash.{Uthash}
use reproduce.Tracer.{State, ok, exit}
use reproduce.Tracer.Macros.{in_world}
use reproduce.HashTable.{sizeof_child_process, insert_process, insert_found, find_process, hash_add}
use reproduce.HashTable.View.{IsTable, view}
use reproduce.HashTable.Changes.{new_process, inserted-IsTable, view-inserted}

module _ ⦃k : Kernel⦄ ⦃u : Uthash⦄ (s : State) (pid : ℕ) where
  abbrev pub address_of_new : ℕ
  address_of_new = (k.malloc (Assoc.addresses s.heap) sizeof_child_process s.world).0

  abbrev pub with_new : State
  with_new = record {
    world = (k.malloc (Assoc.addresses s.heap) sizeof_child_process s.world).1;
    process_table = u.add s.process_table pid address_of_new;
    entry_count = (s.entry_count + 1) % 2 ^ 32;
    heap = Assoc.write address_of_new (new_process pid) s.heap;
  }

  -- A process that is there is not added again.
  pub insert_process-present :
      (q : ℕ) → u.find s.process_table pid ≡ some q → insert_process pid s ≡ ok false s
  unfolding insert_process insert_found find_process
  insert_process-present q e = rw e

  -- Without memory for its struct the tracer exits.
  pub insert_process-full :
      u.find s.process_table pid ≡ none
      → (address_of_new == 0) ≡ true
      → insert_process pid s
        ≡ exit exit_failure
            (in_world s (k.malloc (Assoc.addresses s.heap) sizeof_child_process s.world).1)
  unfolding insert_process insert_found find_process
  insert_process-full absent full = rw (absent, full)

  module _ (absent : u.find s.process_table pid ≡ none) (room : (address_of_new == 0) ≡ false) where
    pub insert_process-absent : insert_process pid s ≡ ok true with_new
    unfolding insert_process insert_found find_process hash_add
    insert_process-absent = rw (absent, room)

    pub with_new-IsTable :
        IsTable s
        → IsTable with_new
          × ((j : ℕ) → view with_new j ≡ (if pid == j then some (new_process pid) else view s j))
    with_new-IsTable t =
        let fresh =
          Assoc.lookup-of_not_contains address_of_new s.heap
            (k.malloc-fresh (Assoc.addresses s.heap) sizeof_child_process s.world (ground arith)) in
        let w = (k.malloc (Assoc.addresses s.heap) sizeof_child_process s.world).1 in
        (
          inserted-IsTable t pid absent address_of_new fresh w,
          view-inserted t pid absent address_of_new fresh w,
        )
