-- ===== src/Main/Clocks.antt =====
-- The clocks that the tracer keeps for the traced processes.
use reproduce.Prelude.{
  ℕ, ◌+◌, ◌%◌, ◌^◌, ◌≡◌, refl, Bool, true, false, Option, none, some, List, ◌==◌, ◌&&◌,
  if◌then◌else◌, arith, Bool-cases, Option-cases, inl, inr, sym, ap, subst, ◌∙◌,
}
use reproduce.Prelude.Assoc
use reproduce.Kernel.{Kernel}
use reproduce.Uthash.{Uthash}
use reproduce.Tracer.{Timespec, ChildProcess, State}
use reproduce.Tracer.Outcome.{Leaves}
use reproduce.Tracer.Keeps.{Keeps}
use reproduce.HashTable.{insert_process, delete_process}
use reproduce.HashTable.View.{IsTable, view, behind}
use reproduce.HashTable.Changes.{
  IsTable-IsOwn, new_process, insert_process-view, delete_process-view,
}
use reproduce.HashTable.Keeps.{Leaves-of_Ends, timed-IsTable}
use reproduce.Syscalls.{tick, advance_clock}
use reproduce.Events.Loop.{IsInvariant, IsInvariant-IsKept}
use reproduce.Main.{main}
use reproduce.Main.Keeps.{main-Keeps}
use reproduce.Main.Start.{IsInitial, IsInitial-IsTable}

-- The clock of a process after `calls` calls that advance it.
abbrev pub clock_after : (calls : ℕ) → Timespec
clock_after calls = record {
  tv_sec = (1718099106 + calls) % 2 ^ 64;
  tv_nsec = (516453925 + calls) % 2 ^ 64;
}

-- A struct of the process `pid`, with a clock that only calls have advanced.
pub record IsClock (pid : ℕ) (c : ChildProcess) : Type 0 where
  pub own : c.pid ≡ pid
  pub calls : ℕ
  pub clock : c.gettime_data ≡ clock_after calls

first-IsClock : (pid : ℕ) → IsClock pid (new_process pid)
first-IsClock pid = record { own = refl; calls = 0; clock = refl }

tick-clock_after : (n : ℕ) → tick (clock_after n) ≡ clock_after (n + 1)
tick-clock_after n =
    let sec : ((1718099106 + n) % 2 ^ 64 + 1) % 2 ^ 64 ≡ (1718099106 + (n + 1)) % 2 ^ 64 =
      omega arith in
    let nsec : ((516453925 + n) % 2 ^ 64 + 1) % 2 ^ 64 ≡ (516453925 + (n + 1)) % 2 ^ 64 =
      omega arith in
    cc

tick-IsClock :
    (pid : ℕ) (c : ChildProcess)
    → IsClock pid c
    → IsClock pid (record c { gettime_data = tick c.gettime_data })
tick-IsClock pid c h = record {
  own = h.own;
  calls = h.calls + 1;
  clock = ap tick h.clock ∙ tick-clock_after h.calls;
}

-- A struct with a clock is replaced by a struct with a clock.
chosen-IsClock :
    (b : Bool) (o : Option ChildProcess) (j : ℕ) (d c : ChildProcess)
    → (b ≡ true → IsClock j d)
    → ((c' : ChildProcess) → o ≡ some c' → IsClock j c')
    → (if b then some d else o) ≡ some c
    → IsClock j c
chosen-IsClock true o j d c new old e =
    let same : d ≡ c = ground arith in subst (IsClock j) same (new refl)
chosen-IsClock false o j d c new old e = old c e

module _ ⦃k : Kernel⦄ ⦃u : Uthash⦄ where
  -- The table is well formed, and each of its structs has a clock of its own process.
  pub record Clocks (s : State) : Type 0 where
    pub table : IsTable s
    pub clocks : (j : ℕ) (c : ChildProcess) → view s j ≡ some c → IsClock j c

  insert-Clocks : (pid : ℕ) → Keeps Clocks (insert_process pid)
  insert-Clocks pid = record {
    at = λ s h.
        Leaves-of_Ends _ (insert_process pid s) (insert_process-view h.table pid)
          (λ added s' x. record {
            table = x.0;
            clocks = λ j c e. inserted s h added j c (sym (x.2 j) ∙ e);
          })
          (λ code s' x. record { table = x.0; clocks = λ j c e. h.clocks j c (sym (x.3 j) ∙ e) });
  }
    where
      inserted :
          (s : State)
          → Clocks s
          → (added : Bool) (j : ℕ) (c : ChildProcess)
          → (if (pid == j) && added then some (new_process pid) else view s j) ≡ some c
          → IsClock j c
      inserted s h added j c e =
          chosen-IsClock _ (view s j) j (new_process pid) c
            (λ here.
              let same : pid ≡ j = ground arith in
              subst (λ i. IsClock i (new_process pid)) same (first-IsClock pid))
            (h.clocks j) e

  delete-Clocks : (pid : ℕ) → Keeps Clocks (delete_process pid)
  delete-Clocks pid = record {
    at = λ s h.
        Leaves-of_Ends _ (delete_process pid s) (delete_process-view h.table pid)
          (λ _ s' x. record { table = x.0; clocks = λ j c e. deleted s h j c (sym (x.1 j) ∙ e) })
          (λ code s' x. absurd x);
  }
    where
      deleted :
          (s : State)
          → Clocks s
          → (j : ℕ) (c : ChildProcess) → (if pid == j then none else view s j) ≡ some c
          → IsClock j c
      deleted s h j c e = elim (Bool-cases (pid == j)) [
        | inl gone ↦ absurd (ground arith)
        | inr kept ↦ h.clocks j c (ground arith)
      ]

  advanced-IsClock :
      (q : ℕ) (s : State) (d : ChildProcess)
      → Clocks s
      → Assoc.lookup q s.heap ≡ some d
      → (j : ℕ) (c : ChildProcess)
      → behind
          (Assoc.write q (record d { gettime_data = tick d.gettime_data }) s.heap)
          (u.find s.process_table j)
        ≡ some c
      → IsClock j c
  advanced-IsClock q s d h e j c f = elim (Option-cases (u.find s.process_table j)) [
    | inl g ↦ absurd (ground arith)
    | inr (r, g) ↦
        let d' : ChildProcess = record d { gettime_data = tick d.gettime_data } in
        let f' : Assoc.lookup r (Assoc.write q d' s.heap) ≡ some c =
          ap (behind (Assoc.write q d' s.heap)) (sym g) ∙ f in
        chosen-IsClock (q == r) (Assoc.lookup r s.heap) j d' c
          (λ same. let i : r ≡ q = ground arith in tick-IsClock j d (h.clocks j d (rw (g, i) e)))
          (λ c' e'. h.clocks j c' (rw g e')) (sym (Assoc.lookup-write q r d' s.heap) ∙ f')
  ]

  advance-Clocks : (q : ℕ) → Keeps Clocks (advance_clock q)
  unfolding advance_clock
  advance-Clocks q = record { at = λ s h. advanced s h (Assoc.lookup q s.heap) refl }
    where
      advanced :
          (s : State)
          → Clocks s
          → (o : Option ChildProcess) → Assoc.lookup q s.heap ≡ o
          → Leaves Clocks (advance_clock q s)
      advanced s h none e = rw e tt
      advanced s h (some d) e =
          rw e (record {
            table = timed-IsTable q _ s d h.table e;
            clocks = advanced-IsClock q s d h e;
          })

  Clocks-IsInvariant : IsInvariant Clocks
  Clocks-IsInvariant = record {
    own = record {
      move = λ s w h. record { table = IsTable-IsOwn.move s w h.table; clocks = h.clocks };
    };
    insert = insert-Clocks;
    delete = delete-Clocks;
    advance = advance-Clocks;
  }

  -- Started with an empty table, `main` leaves, whenever it leaves a state, a well-formed table in
  -- which each process has a struct of its own, and in it a clock that stands at the first time
  -- advanced by some number of calls, in seconds and in nanoseconds: whatever the kernel reports and
  -- replies, nothing else enters a clock.
  pub main-Clocks :
      (rounds fuel : ℕ) (seed_str : Option (List ℕ)) (argv : List (List ℕ)) (s : State)
      → IsInitial s
      → Leaves Clocks (main rounds fuel seed_str argv s)
  main-Clocks rounds fuel seed_str argv s i =
      let (t, empty) = IsInitial-IsTable s i in
      (main-Keeps (IsInvariant-IsKept Clocks-IsInvariant) rounds fuel seed_str argv).at s
        (record { table = t; clocks = λ j c e. let no = empty j in absurd (ground arith) })
