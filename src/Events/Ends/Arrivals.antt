-- ===== src/Events/Ends/Arrivals.antt =====
-- The rounds of the event loop when a new child stops before the event of its parent is reported.
use reproduce.Prelude.{
  ℕ, suc, ◌+◌, ◌%◌, ◌^◌, ◌<◌, ◌≤◌, ◌≡◌, refl, Bool, true, false, ◌||◌, ◌==◌, none, List, ◌∷◌,
  length, if◌then◌else◌, ◌∙◌, ap, sym, subst,
}
use reproduce.Prelude.Assoc
use reproduce.Kernel.{Kernel, minus_one}
use reproduce.Kernel.Frames.{Frames}
use reproduce.Kernel.Laws.{View, Ptrace}
use reproduce.Uthash.{Uthash}
use reproduce.Tracer.{State, ok}
use reproduce.Tracer.Outcome.{SameTables, at_ok, run_of}
use reproduce.Tracer.Macros.{in_world}
use reproduce.Putils.Registers.{r_syscall}
use reproduce.ProcInit.{proc_init}
use reproduce.HashTable.{sizeof_child_process, insert_process}
use reproduce.HashTable.Fresh.{address_of_new, with_new, insert_process-absent, with_new-IsTable}
use reproduce.HashTable.View.{IsTable}
use reproduce.HashTable.Keeps.{find_process_lem}
use reproduce.HashTable.Changes.{IsTable-IsOwn}
use reproduce.Vdso.Stack.{StackAt}
use reproduce.ProcInit.Stack.{proc_init-Hidden}
use reproduce.Syscalls.Steps.{is_hooked}
use reproduce.Syscalls.Reproducible.{Seen}
use reproduce.Events.{hook, hook_found, event_of, event_fork, event_vfork, event_clone}
use reproduce.Events.Stops.{StopStatus, serve-plain, serve-at_fork}
use reproduce.Events.Stops.Unexpected.{moved, Resumed-SameTables}
use reproduce.Events.Stops.Forked.{new_child, asked, register_new_child-known}
use reproduce.Events.Histories.{Plays, StandsAt}
use reproduce.Events.Histories.Steps.{hooks, leaves, Plays-answered}
use reproduce.Events.Ends.Tracking.{
  IsTracking, IsTracking-same, IsTracking-added, has_struct, untracked,
}
use reproduce.Events.Ends.Rounds.{Served}

module _ ⦃k : Kernel⦄ ⦃u : Uthash⦄ where
  module _ (v : View k.World) (fuel : ℕ) where
    -- The machine reports a stop, with no event, of a process that is not traced yet and fits into the
    -- table, with a stack that reads as that of a new program; and `malloc` has room for its struct.
    pub record ArrivesAt (p status : ℕ) (tracked : ℕ → Bool) (s : State) : Type 0 where
      pub event : StopStatus 0 status
      pub there : v.Stopped s.world p
      pub clear : ((v.regs s.world p).rsp == minus_one) ≡ false
      pub args : List ℕ
      pub env : List ℕ
      pub type : ℕ
      pub value : ℕ
      pub aux : List (ℕ × ℕ)
      pub stack : StackAt v s.world p ((v.regs s.world p).rsp + 8) args env ((type, value) ∷ aux)
      pub enough : length args + length env + length aux + 4 ≤ fuel
      pub fresh : tracked p ≡ false
      pub memory :
          (w : k.World)
          → ((k.malloc (Assoc.addresses s.heap) sizeof_child_process w).0 == 0) ≡ false
      pub room : suc (length (u.iter s.process_table)) < 2 ^ 32

  module _ (v : View k.World) where
    -- The machine reports that a process has forked, by a call that is not hooked, a child that is
    -- traced already.
    pub record ForkedAt (p status : ℕ) (tracked : ℕ → Bool) (s : State) : Type 0 where
      pub stopped : status % 256 ≡ 127
      pub event :
          ((event_of status == event_fork || event_of status == event_vfork)
            || event_of status == event_clone)
          ≡ true
      pub there : v.Stopped s.world p
      pub unhooked : is_hooked (r_syscall (v.regs s.world p)) ≡ false
      pub named : ((k.geteventmsg p s.world).0.0.ret == minus_one) ≡ false
      pub known : tracked (new_child p s) ≡ true

  module _ {v : View k.World} (laws : Ptrace v) where
    -- Where the stack of the process has been read, the process is added.
    adds :
        (fuel p : ℕ) (s s1 : State)
        → proc_init fuel p s ≡ ok tt s1
        → u.find s.process_table p ≡ none
        → insert_process p s1 ≡ ok true (with_new s1 p)
        → hook fuel p s ≡ ok tt (with_new s1 p)
    unfolding hook hook_found
    adds fuel p s s1 ran absent added = rw (find_process_lem, absent, ran, added) refl

    -- It is inserted into tables that are still those of before.
    added_after :
        (tracked : ℕ → Bool) (s s1 : State) (p : ℕ)
        → IsTracking tracked s
        → tracked p ≡ false
        → ((w : k.World)
            → ((k.malloc (Assoc.addresses s.heap) sizeof_child_process w).0 == 0) ≡ false)
        → suc (length (u.iter s.process_table)) < 2 ^ 32
        → s1 ≡ in_world s s1.world
        → s1.process_table ≡ s.process_table
        → s1.heap ≡ s.heap
        → (insert_process p s1 ≡ ok true (with_new s1 p))
          × IsTracking (λ j. if p == j then true else tracked j) (with_new s1 p)
    added_after tracked s s1 p h fresh memory space only table heap =
        let t1 : IsTable s1 = subst IsTable (sym only) (IsTable-IsOwn.move s s1.world h.table) in
        let h1 : IsTracking tracked s1 = IsTracking-same tracked s s1 h t1 table in
        let absent : u.find s1.process_table p ≡ none = untracked tracked s1 p h1 fresh in
        let room : (address_of_new s1 p == 0) ≡ false =
          subst (λ x. ((k.malloc (Assoc.addresses x) sizeof_child_process s1.world).0 == 0) ≡ false)
            (sym heap) (memory s1.world) in
        let fits : suc (length (u.iter s1.process_table)) < 2 ^ 32 = rw table space in
        let (t2, w) = with_new-IsTable s1 p absent room t1 in
        (
          insert_process-absent s1 p absent room,
          IsTracking-added tracked s1 (with_new s1 p) p (address_of_new s1 p) h1 fits t2 refl w,
        )

    pub arrival-Served :
        (fuel p status : ℕ) (tracked : ℕ → Bool) (s : State)
        → IsTracking tracked s
        → ArrivesAt v fuel p status tracked s
        → Served fuel p status (λ j. if p == j then true else tracked j) s
    arrival-Served fuel p status tracked s h at =
        let absent = untracked tracked s p h at.fresh in
        let resumed =
          proc_init-Hidden laws p s fuel at.type at.value at.args at.env at.aux at.there at.clear
            at.stack at.enough in
        let (s1, ran) = run_of resumed in
        let same : SameTables s s1 = Resumed-SameTables (λ s2 q. q.same) (at_ok resumed ran) in
        let (added, after) =
          added_after tracked s s1 p h at.fresh at.memory at.room (moved same) same.table
            same.heap in
        (
          with_new s1 p,
          serve-plain fuel p status s at.event ∙ adds fuel p s s1 ran absent added,
          after,
        )

    pub known-Served :
        (frames : Frames v) (fuel p status : ℕ) (tracked : ℕ → Bool) (s : State)
        → IsTracking tracked s
        → tracked p ≡ true
        → ForkedAt v p status tracked s
        → Served fuel p status tracked s
    known-Served frames fuel p status tracked s h traced at =
        let s1 : State = asked p s in
        let (other, t', e', has') = has_struct tracked s (new_child p s) h at.known in
        let registered = register_new_child-known p s other at.named e' in
        let h1 : IsTracking tracked s1 =
          IsTracking-same tracked s s1 h (IsTable-IsOwn.move s s1.world h.table) refl in
        let (child, t, e, has) = has_struct tracked s1 p h1 traced in
        let there = frames.geteventmsg s.world p at.there in
        let r = v.regs s1.world p in
        let m = v.byte s1.world p in
        let stands : StandsAt v p none r m s1 = record {
          stopped = there.stopped;
          regs = refl;
          memory = λ a. refl;
          called = ap (λ x. is_hooked (r_syscall x)) there.regs ∙ at.unhooked;
          can_answer = tt;
        } in
        let o : Seen = record { regs = r; memory = m; time = t } in
        let plays : Plays p o r m s1 = record { regs = refl; memory = refl; has = has } in
        let (answered, run, hooked) =
          hooks laws p o r m s1 child s1.world plays e none stands fuel in
        let left = leaves laws p o r m s1 child s1.world plays e none answered stands run in
        let on =
          Plays-answered laws p o r m s1 child s1.world plays e none stands (λ q b. (q, b)) answered
            run in
        (
          _,
          serve-at_fork fuel p status s at.stopped at.event ∙ rw registered hooked,
          IsTracking-same tracked s1 _ h1 on.has.table left.table,
        )
