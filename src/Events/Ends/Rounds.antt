-- ===== src/Events/Ends/Rounds.antt =====
-- The rounds of the event loop for a traced process, each with the set of traced processes behind it.
use reproduce.Prelude.{
  ap, sym, ◌^◌, ◌<◌, ◌%◌, length, some, ℕ, suc, ◌≡◌, refl, Bool, true, false, ◌||◌, Option, none,
  ◌==◌, if◌then◌else◌, Bool-cases, arith, inl, inr, ap, sym, subst, ◌∙◌,
}
use reproduce.Kernel.{Kernel, Regs, wifexited, wifsignaled}
use reproduce.Kernel.Laws.{View, Ptrace}
use reproduce.Uthash.{Uthash}
use reproduce.Tracer.{State, ok}
use reproduce.Tracer.Outcome.{Ends, at_ok, run_of}
use reproduce.HashTable.View.{IsTable, view, is_some}
use reproduce.HashTable.Changes.{IsTable-IsOwn, delete_process-view, delete_process-found}
use reproduce.Syscalls.Reproducible.{AnsweredCall, Seen}
use reproduce.Events.{serve}
use reproduce.Events.Children.{serve-at_exit}
use reproduce.Events.Stops.{StopStatus}
use reproduce.Events.Histories.{struct_of, Plays, StandsAt}
use reproduce.Events.Histories.Steps.{Plays-answered, answers, leaves}
use reproduce.Events.Histories.Execs.{Image, ExecsAt, ExecsAt-Resumed, SameTables-HasProcess}
use reproduce.Kernel.Frames.{Frames}
use reproduce.Prelude.Assoc
use reproduce.Putils.Registers.{r_syscall}
use reproduce.HashTable.View.{behind}
use reproduce.HashTable.Fresh.{address_of_new}
use reproduce.Syscalls.Steps.{is_hooked}
use reproduce.Events.{event_of, event_fork, event_vfork, event_clone}
use reproduce.Events.Stops.Forked.{Forks, new_child, asked, serve-forked}
use reproduce.Events.Ends.Tracking.{untracked}
use reproduce.Events.Ends.Tracking.{IsTracking, IsTracking-same, IsTracking-added, has_struct}

module _ ⦃k : Kernel⦄ ⦃u : Uthash⦄ where
  module _ (v : View k.World) where
    -- The machine reports that the process has forked, by a call that is not hooked, a child that is
    -- not traced yet and fits into the table.
    pub record ForksAt (p status : ℕ) (tracked : ℕ → Bool) (s : State) : Type 0 where
      pub stopped : status % 256 ≡ 127
      pub event :
          ((event_of status == event_fork || event_of status == event_vfork)
            || event_of status == event_clone)
          ≡ true
      pub there : v.Stopped s.world p
      pub unhooked : is_hooked (r_syscall (v.regs s.world p)) ≡ false
      pub forks : Forks p s
      pub fresh : tracked (new_child p s) ≡ false
      pub room : suc (length (u.iter s.process_table)) < 2 ^ 32

  -- A round that returns, with the set of traced processes behind it.
  abbrev pub Served : (fuel p status : ℕ) (tracked : ℕ → Bool) → State → Type 0
  Served fuel p status tracked s =
      (s' : State) × (serve fuel p status s ≡ ok tt s') × IsTracking tracked s'

  pub exit-Served :
      (fuel p status : ℕ) (tracked : ℕ → Bool) (s : State)
      → IsTracking tracked s
      → tracked p ≡ true
      → (wifexited status || wifsignaled status) ≡ true
      → Served fuel p status (λ j. if p == j then false else tracked j) s
  exit-Served fuel p status tracked s h there ended =
      let (q, t, f, has) = has_struct tracked s p h there in
      let (t', v) =
        subst
          (Ends (λ _ s'. IsTable s' × ((j : ℕ) → view s' j ≡ (if p == j then none else view s j)))
            (λ code s'. ⊥))
          (delete_process-found s p q f) (delete_process-view h.table p) in
      (
        _,
        serve-at_exit fuel p status s ended ∙ delete_process-found s p q f,
        record {
          table = t';
          small =
              let less = h.small in omega (arith, u.iter-del s.process_table p q h.table.valid f);
          tracks = λ j. ap is_some (v j) ∙ elim (Bool-cases (p == j)) [
            | inl same ↦ rw same refl
            | inr other ↦ rw other (h.tracks j)
          ];
        },
      )

  module _ {v : View k.World} (laws : Ptrace v) where
    pub call-Served :
        (fuel p status : ℕ) (tracked : ℕ → Bool) (s : State) (call : Option AnsweredCall) (r : Regs)
        (m : ℕ → ℕ)
        → IsTracking tracked s
        → tracked p ≡ true
        → StopStatus 0 status
        → StandsAt v p call r m s
        → Served fuel p status tracked s
    call-Served fuel p status tracked s call r m h there st at =
        let (child, t, e, has) = has_struct tracked s p h there in
        let o : Seen = record { regs = r; memory = m; time = t } in
        let plays : Plays p o r m s = record { regs = refl; memory = refl; has = has } in
        let (answered, run, served) =
          answers laws p o r m s child s.world plays e call at fuel status st in
        let left = leaves laws p o r m s child s.world plays e call answered at run in
        let on =
          Plays-answered laws p o r m s child s.world plays e call at (λ q b. (q, b)) answered
            run in
        (_, served, IsTracking-same tracked s _ h on.has.table left.table)

    pub exec-Served :
        (fuel p status : ℕ) (tracked : ℕ → Bool) (s : State) (i : Image)
        → IsTracking tracked s
        → tracked p ≡ true
        → ExecsAt v fuel p i status s
        → Served fuel p status tracked s
    exec-Served fuel p status tracked s i h there at =
        let (child, t, e, has) = has_struct tracked s p h there in
        let resumed = ExecsAt-Resumed v fuel p laws i status s at in
        let (s', served) = run_of resumed in
        let q = at_ok resumed served in
        let kept =
          SameTables-HasProcess v fuel p laws (struct_of p t) s q.before has q.holds.same in
        (
          s',
          served,
          subst (IsTracking tracked) (sym q.resumed) (
              IsTracking-same tracked s _ h (IsTable-IsOwn.move q.before _ kept.table)
                q.holds.same.table),
        )

    pub fork-Served :
        (frames : Frames v) (fuel p status : ℕ) (tracked : ℕ → Bool) (s : State)
        → IsTracking tracked s
        → tracked p ≡ true
        → ForksAt v p status tracked s
        → Served fuel p status (λ j. if new_child p s == j then true else tracked j) s
    fork-Served frames fuel p status tracked s h there at =
        let q = new_child p s in
        let (child, t, e, has) = has_struct tracked s p h there in
        let here : Assoc.lookup child s.heap ≡ some (struct_of p t) =
          sym (ap (behind s.heap) e) ∙ has.struct in
        let resumed =
          serve-forked laws frames fuel p child (struct_of p t) s h.table e
            (untracked tracked s q h at.fresh) status here at.stopped at.event at.there at.unhooked
            at.forks in
        let (s', served) = run_of resumed in
        let r = at_ok resumed served in
        let (t', v') = r.holds.child_adopted in
        (
          s',
          served,
          subst (IsTracking (λ j. if q == j then true else tracked j)) (sym r.resumed) (
              IsTracking-added tracked s _ q (address_of_new (asked p s) q) h at.room
                (IsTable-IsOwn.move r.before _ t') r.holds.table v'),
        )
