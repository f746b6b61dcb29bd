-- ===== src/HashTable.antt =====
-- reproduce/src/hashtable.c: the table of traced processes and the count of its entries.
pub mod View
pub mod Changes
pub mod Keeps
pub mod Fresh
use reproduce.Prelude.{
  ℕ, ◌+◌, ◌-◌, ◌%◌, ◌^◌, Bool, true, false, Option, none, some, ◌==◌, if◌then◌else◌,
}
use reproduce.Kernel.{Kernel, exit_failure}
use reproduce.Uthash.{Uthash}
use reproduce.Tracer.{
  Timespec, ChildProcess, State, Cmd, ok, pure, stop, ◌>>=◌, ◌>>◌, malloc, store, free,
}

-- sizeof(struct child_process): the pid, the timespec and the handle of uthash
abbrev pub sizeof_child_process : ℕ
sizeof_child_process = 80

abbrev pub first_time : Timespec
first_time = record { tv_sec = 1718099106; tv_nsec = 516453925 }

module _ ⦃k : Kernel⦄ ⦃u : Uthash⦄ where
  pub find_process : (pid : ℕ) → Cmd (Option ℕ)
  find_process pid s = ok (u.find s.process_table pid) s

  -- HASH_ADD_INT(process_table, pid, proc); entry_count++;
  pub hash_add : (pid proc : ℕ) → Cmd (Unit {0})
  hash_add pid proc s = ok tt (record s {
    process_table = u.add s.process_table pid proc;
    entry_count = (s.entry_count + 1) % 2 ^ 32;
  })

  pub insert_found : (pid : ℕ) → Option ℕ → Cmd Bool
  unfolding hash_add
  insert_found pid (some old) = pure false
  insert_found pid none = do
    proc ← malloc sizeof_child_process
    if proc == 0 then stop exit_failure else do
      store proc (record { pid = pid; gettime_data = first_time })
      hash_add pid proc
      pure true

  pub insert_process : (pid : ℕ) → Cmd Bool
  unfolding find_process insert_found
  insert_process pid = do found ← find_process pid; insert_found pid found

  -- HASH_DEL(process_table, proc)
  pub hash_del : (proc : ℕ) → Cmd (Unit {0})
  hash_del proc s = ok tt (record s { process_table = u.del s.process_table proc })

  pub count_down : Cmd (Unit {0})
  count_down s = ok tt (record s { entry_count = (s.entry_count + 2 ^ 32 - 1) % 2 ^ 32 })

  pub delete_found : Option ℕ → Cmd (Unit {0})
  unfolding hash_del count_down
  delete_found none = pure tt
  delete_found (some proc) = do hash_del proc; free proc; count_down

  pub delete_process : (pid : ℕ) → Cmd (Unit {0})
  unfolding find_process delete_found
  delete_process pid = do found ← find_process pid; delete_found found

  unfoldable pub is_hash_table_empty : Cmd Bool
  is_hash_table_empty s = ok (s.entry_count == 0) s
