-- ===== src/HashTable/Changes.antt =====
-- Inserting and deleting processes, seen through the map that the table stands for.
use reproduce.Prelude.{
  ℕ, ◌+◌, ◌-◌, ◌%◌, ◌^◌, ◌≡◌, false, not, ◌&&◌, refl, none, some, ◌==◌, if◌then◌else◌, arith,
  Option-cases, Bool-cases, inl, inr, ap, sym, ◌∙◌,
}
use reproduce.Prelude.Assoc
use reproduce.Kernel.{Kernel, exit_failure}
use reproduce.Uthash.{Uthash, holds}
use reproduce.Tracer.{ChildProcess, State, ok}
use reproduce.Tracer.Outcome.{Ends}
use reproduce.Tracer.Keeps.{IsOwn}
use reproduce.HashTable.{
  first_time, sizeof_child_process, insert_process, delete_process, insert_found, delete_found,
  find_process, hash_add, hash_del, count_down,
}
use reproduce.HashTable.View.{view, is_some, IsTable, found-injective}

abbrev pub new_process : ℕ → ChildProcess
new_process pid = record { pid = pid; gettime_data = first_time }

pub IsTable-IsOwn : ⦃k : Kernel⦄ ⦃u : Uthash⦄ → IsOwn IsTable
IsTable-IsOwn = record {
  move = λ s w t. record { valid = t.valid; found = t.found; counted = t.counted };
}

module _ ⦃k : Kernel⦄ ⦃u : Uthash⦄ {s : State} (t : IsTable s) (pid : ℕ) where
  module _ (absent : u.find s.process_table pid ≡ none) (p : ℕ)
      (fresh : Assoc.lookup p s.heap ≡ none) (w : k.World) where
    abbrev pub inserted : State
    inserted = record {
      world = w;
      process_table = u.add s.process_table pid p;
      entry_count = (s.entry_count + 1) % 2 ^ 32;
      heap = Assoc.write p (new_process pid) s.heap;
    }

    unused : (j : ℕ) → holds (u.find s.process_table j) p ≡ false
    unused j = elim (Option-cases (u.find s.process_table j)) [
      | inl e ↦ rw e
      | inr (q, e) ↦ let (c, ec, ej) = t.found j q e in rw e (ground arith)
    ]

    pub view-inserted :
        (j : ℕ) → view inserted j ≡ (if pid == j then some (new_process pid) else view s j)
    view-inserted j =
        rw (u.find-add s.process_table pid p j t.valid) (elim (Bool-cases (pid == j)) [
          | inl e ↦ rw (e, Assoc.lookup-write p p (new_process pid) s.heap) (ground arith)
          | inr ne ↦ rw ne (elim (Option-cases (u.find s.process_table j)) [
            | inl e ↦ rw e
            | inr (q, e) ↦
                let (c, ec, ej) = t.found j q e in
                rw (e, Assoc.lookup-write p q (new_process pid) s.heap) (ground arith)
          ])
        ])

    inserted-found :
        (j q : ℕ)
        → u.find (u.add s.process_table pid p) j ≡ some q
        → (c : ChildProcess) × (Assoc.lookup q (Assoc.write p (new_process pid) s.heap) ≡ some c)
          × (c.pid ≡ j)
    inserted-found j q e = elim (Bool-cases (pid == j)) [
      | inl same ↦ (
        new_process pid,
        rw (Assoc.lookup-write p q (new_process pid) s.heap)
            (ground (arith, u.find-add s.process_table pid p j t.valid)),
        ground arith,
      )
      | inr other ↦
          let old : u.find s.process_table j ≡ some q =
            ground (arith, u.find-add s.process_table pid p j t.valid) in
          let (c, ec, ej) = t.found j q old in
          (c, rw (Assoc.lookup-write p q (new_process pid) s.heap) (ground arith), ej)
    ]

    pub inserted-IsTable : IsTable inserted
    inserted-IsTable = record {
      valid = u.add-Valid s.process_table pid p t.valid absent unused;
      found = inserted-found;
      counted = omega (arith, t.counted, u.iter-add s.process_table pid p t.valid);
    }

  abbrev fresh_address : ℕ
  fresh_address = (k.malloc (Assoc.addresses s.heap) sizeof_child_process s.world).0

  abbrev world_after : k.World
  world_after = (k.malloc (Assoc.addresses s.heap) sizeof_child_process s.world).1

  -- On a well-formed table `insert_process` returns or exits with EXIT_FAILURE, and leaves a
  -- well-formed table. If it returns, it says whether the process was not traced before; in that
  -- case it has added the process with the first time, and else nothing has changed. If it exits,
  -- the process was not traced and the map is unchanged.
  pub insert_process-view :
      Ends
        (λ added s'.
          IsTable s'
          × (added ≡ not (is_some (view s pid)))
          × ((j : ℕ)
              → view s' j ≡ (if (pid == j) && added then some (new_process pid) else view s j)))
        (λ code s'.
          IsTable s'
          × (code ≡ exit_failure)
          × (view s pid ≡ none)
          × ((j : ℕ) → view s' j ≡ view s j))
        (insert_process pid s)
  unfolding insert_process insert_found find_process hash_add
  insert_process-view = elim (Option-cases (u.find s.process_table pid)) [
    | inr (q, e) ↦ let (c, ec, ej) = t.found pid q e in rw e (t, rw ec refl, λ j. ground arith)
    | inl e ↦ elim (Bool-cases (fresh_address == 0)) [
      | inl z ↦ rw (e, z) (IsTable-IsOwn.move s world_after t, refl, refl, λ j. refl)
      | inr nz ↦
          let unused_there =
            Assoc.lookup-of_not_contains fresh_address s.heap (
              k.malloc-fresh (Assoc.addresses s.heap) sizeof_child_process s.world
                (ground arith)) in
          rw (e, nz)
            (
              inserted-IsTable e fresh_address unused_there world_after,
              refl,
              λ j. view-inserted e fresh_address unused_there world_after j ∙ ground arith,
            )
    ]
  ]

  module _ (q : ℕ) (e : u.find s.process_table pid ≡ some q) where
    abbrev deleted : State
    deleted = record s {
      process_table = u.del s.process_table q;
      heap = Assoc.remove q s.heap;
      entry_count = (s.entry_count + 2 ^ 32 - 1) % 2 ^ 32;
    }

    not_same : (j r : ℕ) → u.find s.process_table j ≡ some r → (r == q) ≡ false → (pid == j) ≡ false
    not_same j r f other = elim (Bool-cases (pid == j)) [
      | inr ne ↦ ne
      | inl same ↦
          let i : pid ≡ j = ground arith in
          let g : some r ≡ some q = sym f ∙ ap (u.find s.process_table) (sym i) ∙ e in ground arith
    ]

    view-deleted : (j : ℕ) → view deleted j ≡ (if pid == j then none else view s j)
    view-deleted j =
        rw (u.find-del s.process_table q j t.valid)
          (elim (Option-cases (u.find s.process_table j)) [
            | inl f ↦ rw f (ground arith)
            | inr (r, f) ↦ elim (Bool-cases (r == q)) [
              | inl same ↦
                  let i : pid ≡ j = found-injective t pid j q e (f ∙ ground arith) in
                  rw (f, same) (ground arith)
              | inr other ↦
                  let i : (pid == j) ≡ false = not_same j r f other in
                  rw (f, other, i, Assoc.lookup-remove q r s.heap) (ground arith)
            ]
          ])

    old_find :
        (j r : ℕ) → u.find (u.del s.process_table q) j ≡ some r → u.find s.process_table j ≡ some r
    old_find j r f = ground (arith, u.find-del s.process_table q j t.valid)

    kept_find : (j r : ℕ) → u.find (u.del s.process_table q) j ≡ some r → (r == q) ≡ false
    kept_find j r f = ground (arith, u.find-del s.process_table q j t.valid, old_find j r f)

    deleted-found :
        (j r : ℕ)
        → u.find (u.del s.process_table q) j ≡ some r
        → (c : ChildProcess) × (Assoc.lookup r (Assoc.remove q s.heap) ≡ some c) × (c.pid ≡ j)
    deleted-found j r f =
        let old : u.find s.process_table j ≡ some r = old_find j r f in
        let (c, ec, ej) = t.found j r old in
        (c, rw (Assoc.lookup-remove q r s.heap) (ground (arith, kept_find j r f)), ej)

    deleted-IsTable : IsTable deleted
    deleted-IsTable = record {
      valid = u.del-Valid s.process_table q t.valid;
      found = deleted-found;
      counted = omega (arith, t.counted, u.iter-del s.process_table pid q t.valid e);
    }

  -- On a well-formed table `delete_process` returns and leaves a well-formed table, in which the
  -- process is not traced and every other is as before.
  pub delete_process-view :
      Ends
        (λ _ s'. IsTable s' × ((j : ℕ) → view s' j ≡ (if pid == j then none else view s j)))
        (λ code s'. ⊥)
        (delete_process pid s)
  unfolding delete_process delete_found find_process hash_del count_down
  delete_process-view = elim (Option-cases (u.find s.process_table pid)) [
    | inl e ↦ rw e (t, λ j. ground arith)
    | inr (q, e) ↦ rw e (deleted-IsTable q e, view-deleted q e)
  ]

-- On a traced process `delete_process` unlinks its struct, gives it back and counts down.
pub delete_process-found :
    ⦃k : Kernel⦄ ⦃u : Uthash⦄ (s : State) (pid q : ℕ)
    → u.find s.process_table pid ≡ some q
    → delete_process pid s
      ≡ ok tt (record s {
        process_table = u.del s.process_table q;
        heap = Assoc.remove q s.heap;
        entry_count = (s.entry_count + 2 ^ 32 - 1) % 2 ^ 32;
      })
unfolding delete_process delete_found find_process hash_del count_down
delete_process-found s pid q e = rw e

-- Nothing is done for a process that is not traced.
pub delete_process-absent :
    ⦃k : Kernel⦄ ⦃u : Uthash⦄ (s : State) (pid : ℕ)
    → u.find s.process_table pid ≡ none
    → delete_process pid s ≡ ok tt s
unfolding delete_process delete_found find_process
delete_process-absent s pid e = rw e
