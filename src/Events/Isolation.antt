-- ===== src/Events/Isolation.antt =====
-- What a round of the event loop for one process does to the other processes in the table.
use reproduce.Prelude.{
  ℕ, ◌≡◌, Bool, true, false, refl, Option, none, some, ◌==◌, if◌then◌else◌, arith, Option-cases,
  Bool-cases, inl, inr, not, ◌&&◌, ap, ◌∙◌, sym,
}
use reproduce.Prelude.Assoc
use reproduce.Kernel.{Kernel}
use reproduce.Uthash.{Uthash, holds}
use reproduce.Tracer.{ChildProcess, State}
use reproduce.Tracer.Outcome.{Leaves, Leaves-mono, Leaves-both}
use reproduce.Tracer.Keeps.{IsOwn, Keeps}
use reproduce.HashTable.{insert_process, delete_process}
use reproduce.HashTable.View.{view, behind, is_some, behind-write, IsTable, found-injective}
use reproduce.HashTable.Changes.{
  IsTable-IsOwn, new_process, insert_process-view, delete_process-view, delete_process-found,
  delete_process-absent,
}
use reproduce.HashTable.Keeps.{Leaves-of_Ends, find_process_lem, timed-IsTable}
use reproduce.Syscalls.{tick, advance_clock}
use reproduce.Syscalls.Keeps.{handle_syscall-Keeps}
use reproduce.Events.{register_new_child, hook, hook_found, serve}
use reproduce.Events.Keeps.{hook_found-Keeps, hook_new-Keeps, register_new_child-Keeps, serve-Keeps}

holds-cleared :
    (b : Bool) (o : Option ℕ) (q : ℕ) → holds o q ≡ false → holds (if b then none else o) q ≡ false
holds-cleared false o q h = h
holds-cleared true o q h = refl

module _ ⦃k : Kernel⦄ ⦃u : Uthash⦄ (j : ℕ) (c : ChildProcess) where
  -- The table is well formed, and `c` is what it holds for the process `j`.
  pub record HasProcess (s : State) : Type 0 where
    pub table : IsTable s
    pub struct : view s j ≡ some c

  pub traced : (s : State) → HasProcess s → (child : ℕ) × (u.find s.process_table j ≡ some child)
  traced s h = elim (Option-cases (u.find s.process_table j)) [
    | inl e ↦ let none_there = sym (ap (behind s.heap) e) ∙ h.struct in absurd (ground arith)
    | inr found ↦ found
  ]

  -- The struct at `q` is not the one of the process `j`.
  record HasOther (q : ℕ) (s : State) : Type 0 where
    pub has : HasProcess s
    pub other : holds (u.find s.process_table j) q ≡ false

  pub HasProcess-IsOwn : IsOwn HasProcess
  HasProcess-IsOwn = record {
    move = λ s w h. record { table = IsTable-IsOwn.move s w h.table; struct = h.struct };
  }

  HasOther-IsOwn : (q : ℕ) → IsOwn (HasOther q)
  HasOther-IsOwn q = record {
    move = λ s w h. record { has = HasProcess-IsOwn.move s w h.has; other = h.other };
  }

  insert-HasProcess : (pid : ℕ) → Keeps HasProcess (insert_process pid)
  insert-HasProcess pid = record {
    at = λ s h.
        Leaves-of_Ends _ (insert_process pid s) (insert_process-view h.table pid)
          (λ added s' x. record { table = x.0; struct = x.2 j ∙ unchanged s h added x.1 })
          (λ code s' x. record { table = x.0; struct = x.3 j ∙ h.struct });
  }
    where
      unchanged :
          (s : State)
          → HasProcess s
          → (added : Bool) → added ≡ not (is_some (view s pid))
          → (if (pid == j) && added then some (new_process pid) else view s j) ≡ some c
      unchanged s h added e = elim (Bool-cases (pid == j)) [
        | inl same ↦
            let i : pid ≡ j = ground arith in
            let v : view s pid ≡ some c = ap (view s) i ∙ h.struct in
            let off : added ≡ false = e ∙ rw v refl in rw (off, same) h.struct
        | inr other ↦ rw other h.struct
      ]

  pub register_new_child-HasProcess : (pid : ℕ) → Keeps HasProcess (register_new_child pid)
  register_new_child-HasProcess = register_new_child-Keeps HasProcess-IsOwn insert-HasProcess

  module _ (pid : ℕ) (apart : (pid == j) ≡ false) where
    delete-HasProcess : Keeps HasProcess (delete_process pid)
    delete-HasProcess = record {
      at = λ s h.
          Leaves-of_Ends _ (delete_process pid s) (delete_process-view h.table pid)
            (λ _ s' x. record { table = x.0; struct = x.1 j ∙ kept s h }) (λ code s' x. absurd x);
    }
      where
        kept : (s : State) → HasProcess s → (if pid == j then none else view s j) ≡ some c
        kept s h = rw apart h.struct

    module _ (q : ℕ) (s : State) (h : HasOther q s) where
      deleted-other : (r : ℕ) → holds (u.find (u.del s.process_table r) j) q ≡ false
      deleted-other r =
          rw (u.find-del s.process_table r j h.has.table.valid) (holds-cleared _ _ q h.other)

      OthersStruct : State → Type 0
      OthersStruct s' = holds (u.find s'.process_table j) q ≡ false

      deleted_case :
          (o : Option ℕ)
          → u.find s.process_table pid ≡ o
          → Leaves OthersStruct (delete_process pid s)
      unfolding OthersStruct
      deleted_case none e = rw (delete_process-absent s pid e) h.other
      deleted_case (some r) e = rw (delete_process-found s pid r e) (deleted-other r)

    delete-HasOther : (q : ℕ) → Keeps (HasOther q) (delete_process pid)
    unfolding OthersStruct
    delete-HasOther q = record {
      at = λ s h.
          Leaves-both HasProcess (OthersStruct q s h) (HasOther q) (delete_process pid s)
            (delete-HasProcess.at s h.has) (deleted_case q s h (u.find s.process_table pid) refl)
            (λ s' x y. record { has = x; other = y });
    }

  advance_clock-HasOther : (q : ℕ) → Keeps (HasOther q) (advance_clock q)
  unfolding advance_clock
  advance_clock-HasOther q = record { at = λ s h. timed s h (Assoc.lookup q s.heap) refl }
    where
      timed :
          (s : State)
          → HasOther q s
          → (o : Option ChildProcess) → Assoc.lookup q s.heap ≡ o
          → Leaves (HasOther q) (advance_clock q s)
      timed s h none e = rw e tt
      timed s h (some d) e = rw e (record {
        has = record {
          table = timed-IsTable q (tick d.gettime_data) s d h.has.table e;
          struct = behind-write s.heap (u.find s.process_table j) q _ h.other ∙ h.has.struct;
        };
        other = h.other;
      })

  module _ (pid : ℕ) (apart : (pid == j) ≡ false) (fuel : ℕ) where
    known : (q : ℕ) (s : State) → HasProcess s → u.find s.process_table pid ≡ some q → HasOther q s
    known q s h e = record {
      has = h;
      other = elim (Option-cases (u.find s.process_table j)) [
        | inl f ↦ rw f refl
        | inr (r, f) ↦ elim (Bool-cases (r == q)) [
          | inr other ↦ rw f other
          | inl same ↦
              let i : pid ≡ j = found-injective h.table pid j q e (f ∙ ground arith) in
              absurd (ground arith)
        ]
      ];
    }

    hook_found-HasProcess :
        (s : State) (o : Option ℕ)
        → HasProcess s
        → u.find s.process_table pid ≡ o
        → Leaves HasProcess (hook_found fuel pid o s)
    hook_found-HasProcess s none h e =
        (hook_new-Keeps HasProcess-IsOwn insert-HasProcess fuel pid).at s h
    hook_found-HasProcess s (some q) h e =
        Leaves-mono (HasOther q) HasProcess (hook_found fuel pid (some q) s)
          ((hook_found-Keeps (HasOther-IsOwn q) pid (delete-HasOther pid apart q) fuel q
              (handle_syscall-Keeps (HasOther-IsOwn q) q (advance_clock-HasOther q))).at
            s (known q s h e))
          (λ s' h'. h'.has)

    hook-HasProcess : Keeps HasProcess (hook fuel pid)
    unfolding hook
    hook-HasProcess = record {
      at = λ s h.
          rw (find_process_lem pid s) (hook_found-HasProcess s (u.find s.process_table pid) h refl);
    }

  module _ (fuel pid status : ℕ) (s : State) where
    -- On a well-formed table, a round of the loop for one process leaves the table well formed, and
    -- what the table holds for any other process, its clock included, as it was: whatever the kernel
    -- replies, whatever the process has done, and whether the round returns or ends the tracer.
    pub serve-HasProcess :
        HasProcess s → (pid == j) ≡ false → Leaves HasProcess (serve fuel pid status s)
    serve-HasProcess h apart =
        (serve-Keeps HasProcess-IsOwn insert-HasProcess fuel pid status
            (delete-HasProcess pid apart) (hook-HasProcess pid apart fuel)).at
          s h
