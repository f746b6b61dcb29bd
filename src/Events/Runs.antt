-- ===== src/Events/Runs.antt =====
-- The runs of the event loop, as a relation that has no bound on the rounds.
use reproduce.Prelude.{
  ℕ, zero, suc, ◌<◌, ◌≡◌, ◌↔◌, refl, true, false, ◌==◌, if◌then◌else◌, arith, Bool-cases, inl, inr,
  ap, subst, ◌∙◌,
}
use reproduce.Kernel.{Kernel, Wait, any, changed, failed, echild}
use reproduce.Uthash.{Uthash}
use reproduce.Tracer.{State, and_then, pure, Run, ok, exit, fault, out_of_fuel}
use reproduce.Tracer.Macros.{in_world}
use reproduce.HashTable.{is_hash_table_empty}
use reproduce.Events.{serve, round, handle_event}

module _ ⦃k : Kernel⦄ ⦃u : Uthash⦄ (fuel : ℕ) where
  -- The state in which the loop serves what `waitpid` reports.
  abbrev pub reported : State → State
  reported s = in_world s (k.waitpid any s.world).1

  -- The loop goes from a state, in some rounds that return, to one where it stops: because the
  -- counter is 0, or because no child is left to wait for.
  pub data Loops : (rounds : ℕ) → State → State → Type 0 where
    none_left : {s : State} → (s.entry_count == 0) ≡ true → Loops zero s s
    no_child :
        {s : State}
        → (s.entry_count == 0) ≡ false
        → (k.waitpid any s.world).0 ≡ failed echild
        → Loops zero s (reported s)
    serves :
        {n : ℕ} {s s1 s2 : State} (pid status : ℕ)
        → (s.entry_count == 0) ≡ false
        → (k.waitpid any s.world).0 ≡ changed pid status
        → serve fuel pid status (reported s) ≡ ok tt s1
        → Loops n s1 s2
        → Loops (suc n) s s2

  runs_of_Loops :
      (rounds n : ℕ) {s s' : State}
      → Loops n s s'
      → n < rounds
      → handle_event rounds fuel s ≡ ok tt s'
  unfolding handle_event round is_hash_table_empty
  runs_of_Loops zero n l lt = absurd (omega arith)
  runs_of_Loops (suc rounds) zero (none_left z) lt = rw z refl
  runs_of_Loops (suc rounds) zero (no_child nz w) lt = rw (nz, w) refl
  runs_of_Loops (suc rounds) (suc n) (serves pid status nz w e more) lt =
      rw (nz, w, e) (runs_of_Loops rounds n more (omega arith))

  module _ (rounds : ℕ) (s' : State)
      (more : (s1 : State)
        → handle_event rounds fuel s1 ≡ ok tt s'
        → (n : ℕ) × (n < rounds) × Loops n s1 s')
      (s : State) (nz : (s.entry_count == 0) ≡ false) where
    of_served :
        (pid status : ℕ)
        → (k.waitpid any s.world).0 ≡ changed pid status
        → (r : Run State (Unit {0})) → serve fuel pid status (reported s) ≡ r
        → and_then
            (and_then r (λ _. pure true))
            (λ go_on. if go_on then handle_event rounds fuel else pure tt)
          ≡ ok tt s'
        → (n : ℕ) × (n < suc rounds) × Loops n s s'
    of_served pid status w (ok _ s1) e h =
        let (n, lt, l) = more s1 h in (suc n, omega arith, serves pid status nz w e l)
    of_served pid status w (exit c s1) e h = absurd (ground arith)
    of_served pid status w fault e h = absurd (ground arith)
    of_served pid status w out_of_fuel e h = absurd (ground arith)

    of_waited :
        (w : Wait)
        → (k.waitpid any s.world).0 ≡ w
        → and_then
            (round fuel w (reported s))
            (λ go_on. if go_on then handle_event rounds fuel else pure tt)
          ≡ ok tt s'
        → (n : ℕ) × (n < suc rounds) × Loops n s s'
    unfolding round
    of_waited (failed err) w h = elim (Bool-cases (err == echild)) [
      | inl gone ↦
          let f : ok tt (reported s) ≡ ok tt s' = rw gone at h in
          let same : reported s ≡ s' = ground arith in
          let i : err ≡ echild = ground arith in
          (0, omega arith, subst (Loops 0 s) same (no_child nz (w ∙ ap failed i)))
      | inr other ↦ let f = rw other at h in absurd (ground arith)
    ]
    of_waited (changed pid status) w h =
        of_served pid status w (serve fuel pid status (reported s)) refl h

  Loops-of_runs :
      (rounds : ℕ) (s s' : State)
      → handle_event rounds fuel s ≡ ok tt s'
      → (n : ℕ) × (n < rounds) × Loops n s s'
  unfolding handle_event is_hash_table_empty
  Loops-of_runs zero s s' e = absurd (ground arith)
  Loops-of_runs (suc rounds) s s' e = elim (Bool-cases (s.entry_count == 0)) [
    | inl z ↦
        let f : ok tt s ≡ ok tt s' = rw z at e in
        let same : s ≡ s' = ground arith in (0, omega arith, subst (Loops 0 s) same (none_left z))
    | inr nz ↦
        of_waited rounds s' (λ s1 h. Loops-of_runs rounds s1 s' h) s nz (k.waitpid any s.world).0
          refl (rw nz at e)
  ]

  -- The event loop, given a bound on its rounds, returns with a state exactly when the loop without a
  -- bound goes there in fewer rounds.
  pub handle_event_iff :
      (rounds : ℕ) (s s' : State)
      → (handle_event rounds fuel s ≡ ok tt s') ↔ ((n : ℕ) × (n < rounds) × Loops n s s')
  handle_event_iff rounds s s' =
      (Loops-of_runs rounds s s', λ (n, lt, l). runs_of_Loops rounds n l lt)
