-- ===== src/Events/Ends/Tracking.antt =====
-- Which processes the tracer traces while its event loop runs.
use reproduce.Prelude.{
  none, ℕ, suc, ◌==◌, if◌then◌else◌, Bool-cases, ◌^◌, ◌≡◌, refl, Bool, true, false, some, length,
  Option-cases, arith, ◌<◌, inl, inr, ap, sym, ◌∙◌,
}
use reproduce.Kernel.{Kernel}
use reproduce.Uthash.{Uthash}
use reproduce.Tracer.{Timespec, State}
use reproduce.HashTable.View.{IsTable, view, is_some, view-of_find}
use reproduce.HashTable.Changes.{IsTable-IsOwn, new_process}
use reproduce.Events.Isolation.{HasProcess}
use reproduce.Events.Runs.{reported}
use reproduce.Events.Histories.{struct_of}

module _ ⦃k : Kernel⦄ ⦃u : Uthash⦄ where
  -- The table is well formed, has fewer than 2^32 entries, and has exactly these processes.
  pub record IsTracking (tracked : ℕ → Bool) (s : State) : Type 0 where
    pub table : IsTable s
    pub small : length (u.iter s.process_table) < 2 ^ 32
    pub tracks : (j : ℕ) → is_some (view s j) ≡ tracked j

  is_some-view :
      {s : State} → IsTable s → (j : ℕ) → is_some (view s j) ≡ is_some (u.find s.process_table j)
  is_some-view {s} t j = elim (Option-cases (u.find s.process_table j)) [
    | inl e ↦ rw e refl
    | inr (q, e) ↦ let (c, ec, same) = t.found j q e in rw (e, ec) refl
  ]

  -- A round that keeps the table keeps the processes.
  pub IsTracking-same :
      (tracked : ℕ → Bool) (s s' : State)
      → IsTracking tracked s
      → IsTable s'
      → s'.process_table ≡ s.process_table
      → IsTracking tracked s'
  IsTracking-same tracked s s' h t' same = record {
    table = t';
    small = rw same h.small;
    tracks = λ j.
        is_some-view t' j
        ∙ ap (λ t. is_some (u.find t j)) same
        ∙ sym (is_some-view h.table j)
        ∙ h.tracks j;
  }

  -- The struct that a traced process has.
  pub has_struct :
      (tracked : ℕ → Bool) (s : State) (p : ℕ)
      → IsTracking tracked s
      → tracked p ≡ true
      → (child : ℕ) × (t : Timespec) × (u.find s.process_table p ≡ some child)
        × HasProcess p (struct_of p t) s
  has_struct tracked s p h there = elim (Option-cases (u.find s.process_table p)) [
    | inl e ↦ let no : is_some (view s p) ≡ false = rw e refl in absurd (ground (arith, h.tracks p))
    | inr (child, e) ↦
        let (c, ec, same) = view-of_find h.table p child e in
        (
          child,
          c.gettime_data,
          e,
          record {
            table = h.table;
            struct = ec ∙ ap (λ x. some (struct_of x c.gettime_data)) same;
          },
        )
  ]

  -- A process is added.
  pub IsTracking-added :
      (tracked : ℕ → Bool) (s s' : State) (q a : ℕ)
      → IsTracking tracked s
      → suc (length (u.iter s.process_table)) < 2 ^ 32
      → IsTable s'
      → s'.process_table ≡ u.add s.process_table q a
      → ((j : ℕ) → view s' j ≡ (if q == j then some (new_process q) else view s j))
      → IsTracking (λ j. if q == j then true else tracked j) s'
  IsTracking-added tracked s s' q a h room t' added w = record {
    table = t';
    small = rw added (omega (arith, room, u.iter-add s.process_table q a h.table.valid));
    tracks = λ j. ap is_some (w j) ∙ elim (Bool-cases (q == j)) [
      | inl same ↦ rw same refl
      | inr other ↦ rw other (h.tracks j)
    ];
  }

  pub untracked :
      (tracked : ℕ → Bool) (s : State) (p : ℕ)
      → IsTracking tracked s
      → tracked p ≡ false
      → u.find s.process_table p ≡ none
  untracked tracked s p h fresh = elim (Option-cases (u.find s.process_table p)) [
    | inl e ↦ e
    | inr (q, e) ↦
        let no : is_some (u.find s.process_table p) ≡ false =
          sym (is_some-view h.table p) ∙ h.tracks p ∙ fresh in
        absurd (ground arith)
  ]

  pub reported-IsTracking :
      (fuel : ℕ) (tracked : ℕ → Bool) (s : State)
      → IsTracking tracked s
      → IsTracking tracked (reported fuel s)
  reported-IsTracking fuel tracked s h = record {
    table = IsTable-IsOwn.move s _ h.table;
    small = h.small;
    tracks = h.tracks;
  }
