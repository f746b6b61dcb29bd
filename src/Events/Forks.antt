-- ===== src/Events/Forks.antt =====
-- What a report of a fork does to the table.
use reproduce.Prelude.{
  ℕ, ◌≡◌, refl, Bool, true, false, not, ◌&&◌, Option, none, some, ◌==◌, if◌then◌else◌, Bool-cases,
  Option-cases, inl, inr, arith, ◌∙◌, ap, sym,
}
use reproduce.Kernel.{Kernel, Reply, Wait, changed, failed, only, minus_one, esrch, exit_failure}
use reproduce.Uthash.{Uthash}
use reproduce.Tracer.{ChildProcess, State, pure, check_reply, ptrace_return, ptrace_return_out}
use reproduce.Tracer.Outcome.{Ends, Ends-bind, Ends-weaken}
use reproduce.Tracer.Macros.{in_world}
use reproduce.Tracer.Keeps.{IsOwn}
use reproduce.HashTable.{insert_process}
use reproduce.HashTable.View.{IsTable, view, is_some}
use reproduce.HashTable.Changes.{IsTable-IsOwn, new_process, insert_process-view}
use reproduce.Events.{to_pid, wait_checked, track_child, register_new_child}

-- the struct that is kept for a process that was known or is new
abbrev pub or_new : Option ChildProcess → ℕ → ChildProcess
or_new none n = new_process n
or_new (some c) n = c

module _ ⦃k : Kernel⦄ ⦃u : Uthash⦄ where
  -- The run returns or ends the tracer with a failure, and its state has the property.
  abbrev Settles : {A : Type 0} → (State → Type 0) → (A → State → Type 0)
  Settles P x s = P s

  abbrev Fails : (State → Type 0) → ℕ → State → Type 0
  Fails P code s = P s × (code ≡ exit_failure)

  module _ (P : State → Type 0) (own : IsOwn P) where
    check_reply-Ends :
        (r : Reply) (s : State)
        → P s
        → Ends (Settles P) (Fails P) (check_reply r (pure tt) (pure tt) s)
    unfolding check_reply
    check_reply-Ends r s h = elim (Bool-cases (r.ret == minus_one)) [
      | inr good ↦ rw good h
      | inl bad ↦ elim (Bool-cases (r.errno == esrch)) [
        | inl gone ↦ rw (bad, gone) h
        | inr other ↦ rw (bad, other) (h, refl)
      ]
    ]

    wait_checked-Ends : (w : Wait) (s : State) → P s → Ends (Settles P) (Fails P) (wait_checked w s)
    unfolding wait_checked
    wait_checked-Ends (failed e) s h = (h, refl)
    wait_checked-Ends (changed pid status) s h = h

    track_child-Ends :
        (n : ℕ) (new : Bool) (s : State) → P s → Ends (Settles P) (Fails P) (track_child n new s)
    unfolding track_child ptrace_return
    track_child-Ends n false s h = h
    track_child-Ends n true s h =
        let s1 = in_world s (k.waitpid (only (to_pid n)) s.world).1 in
        Ends-bind (Settles P) (Settles P) (Fails P) (Fails P) _ _
          (wait_checked-Ends (k.waitpid (only (to_pid n)) s.world).0 s1 (own.move s _ h))
          (λ x s2 h2.
            check_reply-Ends (k.syscall (to_pid n) s2.world).0
              (in_world s2 (k.syscall (to_pid n) s2.world).1) (own.move s2 _ h2))
          (λ c s2 h2. h2)

  module _ {s : State} (t : IsTable s) (pid : ℕ) where
    -- the process that the event is about
    abbrev child : ℕ
    child = to_pid (k.geteventmsg pid s.world).0.1

    abbrev Tracked : State → Type 0
    Tracked s' =
        IsTable s'
        × ((j : ℕ)
            → view s' j ≡ (if child == j then some (or_new (view s child) child) else view s j))

    Tracked-IsOwn : IsOwn Tracked
    Tracked-IsOwn = record { move = λ s' w (t', v). (IsTable-IsOwn.move s' w t', v) }

    -- what `insert_process` leaves
    abbrev Inserted : Bool → State → Type 0
    Inserted added s' =
        IsTable s'
        × (added ≡ not (is_some (view s child)))
        × ((j : ℕ)
            → view s' j ≡ (if (child == j) && added then some (new_process child) else view s j))

    abbrev NoMemory : ℕ → State → Type 0
    NoMemory code s' =
        IsTable s'
        × (code ≡ exit_failure)
        × (view s child ≡ none)
        × ((j : ℕ) → view s' j ≡ view s j)

    abbrev Stops : ℕ → State → Type 0
    Stops code s' = IsTable s' × (code ≡ exit_failure)

    tracked_view :
        (added : Bool) (j : ℕ)
        → added ≡ not (is_some (view s child))
        → (if (child == j) && added then some (new_process child) else view s j)
          ≡ (if child == j then some (or_new (view s child) child) else view s j)
    tracked_view added j e = elim (Bool-cases (child == j)) [
      | inr other ↦ rw other refl
      | inl same ↦
          let here : child ≡ j = ground arith in
          elim (Option-cases (view s child)) [
            | inl f ↦ let is_new : added ≡ true = e ∙ rw f refl in rw (same, is_new, f) refl
            | inr (c, f) ↦
                let is_old : added ≡ false = e ∙ rw f refl in
                rw (same, is_old, f) (ap (view s) (sym here) ∙ f)
          ]
    ]

    track-Inserted :
        (added : Bool) (s2 : State)
        → Inserted added s2
        → Ends (Settles Tracked) Stops (track_child (k.geteventmsg pid s.world).0.1 added s2)
    track-Inserted added s2 (t2, e, v) =
        Ends-weaken (Settles Tracked) (Fails Tracked) Stops
          (track_child (k.geteventmsg pid s.world).0.1 added s2)
          (track_child-Ends Tracked Tracked-IsOwn (k.geteventmsg pid s.world).0.1 added s2
            (t2, λ j. v j ∙ tracked_view added j e))
          (λ code s3 h. (h.0.0, h.1))

    -- If the kernel names the new process of a fork, `register_new_child` returns or exits with
    -- EXIT_FAILURE, and leaves a well-formed table, if it was given one. If it returns, the new
    -- process is traced, with the struct it had if it was traced before, and else with the first
    -- time; every other process is as before.
    pub register_new_child-view :
        ((k.geteventmsg pid s.world).0.0.ret == minus_one) ≡ false
        → Ends
            (λ _ s'.
              IsTable s'
              × ((j : ℕ)
                  → view s' j
                    ≡ (if child == j then some (or_new (view s child) child) else view s j)))
            (λ code s'. IsTable s' × (code ≡ exit_failure))
            (register_new_child pid s)
    unfolding register_new_child ptrace_return_out check_reply
    register_new_child-view known =
        let w = (k.geteventmsg pid s.world).1 in
        rw known (
          Ends-bind Inserted (Settles Tracked) NoMemory Stops (insert_process child (in_world s w))
            (track_child (k.geteventmsg pid s.world).0.1)
            (insert_process-view (IsTable-IsOwn.move s w t) child) track-Inserted
            (λ code s2 h. (h.0, h.1)))
