-- ===== src/Events/Histories/Forks.antt =====
-- A program that forks, in a history: reproduce/src/events.c serves the event before what follows.
use reproduce.Prelude.{ℕ, suc, ◌%◌, ◌≡◌, true, false, ◌||◌, ◌==◌, none, ◌∙◌, ap}
use reproduce.Kernel.{Kernel, Regs}
use reproduce.Kernel.Frames.{Frames}
use reproduce.Kernel.Laws.{View, Ptrace}
use reproduce.Uthash.{Uthash}
use reproduce.Tracer.{State, ok}
use reproduce.Tracer.Macros.{in_world}
use reproduce.Putils.Registers.{r_syscall}
use reproduce.Syscalls.Steps.{is_hooked, handle_syscall-unhooked}
use reproduce.Syscalls.Reproducible.{Seen}
use reproduce.Syscalls.Programs.{Program, play}
use reproduce.Events.{serve, event_of, event_fork, event_vfork, event_clone}
use reproduce.Events.Isolation.{HasProcess, HasProcess-IsOwn, traced}
use reproduce.Events.Stops.{serve-at_fork}
use reproduce.Events.Stops.Forked.{
  Forks, new_child, asked, with_child, register_new_child-Forks, still_there,
}
use reproduce.Events.Histories.{struct_of, registers_read, StandsAt, History, adopts, own}
use reproduce.Events.Histories.Steps.{hooks}
use reproduce.Prelude.{subst, some, sym, arith}
use reproduce.Prelude.Assoc
use reproduce.HashTable.View.{behind}
use reproduce.HashTable.Changes.{IsTable-IsOwn}
use reproduce.HashTable.Fresh.{with_new-IsTable}
use reproduce.Events.Stops.Unexpected.{Adopted}
use reproduce.Events.Histories.Played.{History-Plays}

module _ ⦃k : Kernel⦄ ⦃u : Uthash⦄ (j : ℕ) where
  -- The state in which the process is resumed: the child is in the table, has stopped and runs, and the
  -- registers of the process have been read.
  abbrev pub forked : State → State
  forked s = registers_read j (with_child j s)

module _ ⦃k : Kernel⦄ ⦃u : Uthash⦄ (v : View k.World) (fuel j : ℕ) (program : Program) where
  -- The machine reports a stop of the process at the event of a new child, in a call that is not
  -- hooked, and adopting the child leaves the memory of the process as it is, also where they share it.
  pub record ForksIn (status : ℕ) (r : Regs) (m : ℕ → ℕ) (s : State) : Type 0 where
    pub signalled : status % 256 ≡ 127
    pub event :
        ((event_of status == event_fork || event_of status == event_vfork)
          || event_of status == event_clone)
        ≡ true
    pub stopped : v.Stopped s.world j
    pub regs : v.regs s.world j ≡ r
    pub unhooked : is_hooked (r_syscall r) ≡ false
    pub forks : Forks j s
    pub fresh : u.find s.process_table (new_child j s) ≡ none
    pub memory : (a : ℕ) → v.byte (with_child j s).world j a ≡ m a

  -- When, in a history of a program that was traced at its start, the machine reports a stop of it at
  -- the event of a fork, vfork or clone, in a call that is not hooked, the kernel names a child that is
  -- not traced yet, which stops and is resumed, there is memory for its struct, and the memory of the
  -- program is as it was when the child runs: the round of the event loop for it returns. It has
  -- inserted the child, waited for it and resumed it, in this order; then the table was well formed,
  -- the child was traced with the first time, and every other process was as before. Last the round has
  -- read the registers of the program and resumed it, and its history goes on with that stop.
  pub History-forks :
      Ptrace v
      → Frames v
      → (o : Seen) (s0 : State) → HasProcess j (struct_of j o.time) s0
      → {n : ℕ} {r : Regs} {m : ℕ → ℕ} {s : State} → History v fuel j program o s0 n r m s
      → (w : k.World) (status : ℕ) → ForksIn status r m (in_world s w)
      → (serve fuel j status (in_world s w)
          ≡ ok tt
              (in_world (forked j (in_world s w)) (k.syscall j (forked j (in_world s w)).world).1))
        × Adopted (new_child j (in_world s w)) (in_world s w) (forked j (in_world s w))
        × History v fuel j program o s0
            (suc n)
            (program
              (v.regs (forked j (in_world s w)).world j)
              (v.byte (forked j (in_world s w)).world j)).0
            (program
              (v.regs (forked j (in_world s w)).world j)
              (v.byte (forked j (in_world s w)).world j)).1
            (in_world (forked j (in_world s w)) (k.syscall j (forked j (in_world s w)).world).1)
  History-forks laws frames o s0 h {n} {r} {m} {s} past w status at =
      let s1 : State = in_world s w in
      let s2 : State = with_child j s1 in
      let c = struct_of j (play program n o).time in
      let p = History-Plays v fuel j program laws o s0 h past in
      let (child, e) = traced j c s p.has in
      let t1 = ((HasProcess-IsOwn j c).move s w p.has).table in
      let there = still_there laws frames fuel j child c s1 t1 e at.fresh at.stopped in
      let regs : v.regs s2.world j ≡ r = there.regs ∙ at.regs in
      let stands : StandsAt v j none r m s2 = record {
        stopped = there.stopped;
        regs = regs;
        memory = at.memory;
        called = ap (λ (x : Regs). is_hooked (r_syscall x)) regs ∙ at.unhooked;
        can_answer = tt;
      } in
      let adopted = register_new_child-Forks j s1 at.forks at.fresh in
      let onwards = adopts w past adopted in
      let p2 = History-Plays v fuel j program laws o s0 h onwards in
      let (child2, e2) = traced j c s2 p2.has in
      let (answered, run, hooked) =
        hooks laws j (play program n o) r m s2 child2 s2.world p2 e2 none stands fuel in
      let here : Assoc.lookup child2 s2.heap ≡ some c =
        sym (ap (behind s2.heap) e2) ∙ p2.has.struct in
      let passed : ok tt (forked j s1) ≡ ok tt answered =
        sym (handle_syscall-unhooked child2 (v.regs s2.world j) (forked j s1) c here stands.called)
        ∙ run in
      let same : answered ≡ forked j s1 = ground arith in
      let (t', v') =
        with_new-IsTable (asked j s1) (new_child j s1) at.fresh at.forks.room
          (IsTable-IsOwn.move s1 (asked j s1).world t1) in
      (
        serve-at_fork fuel j status s1 at.signalled at.event
            ∙ rw adopted hooked
            ∙ ap (λ (x : State). ok tt (in_world x (k.syscall j x.world).1)) same,
        (IsTable-IsOwn.move _ (forked j s1).world t', v'),
        subst
            (λ (x : State).
              History v fuel j program o s0 (suc n)
                (program (v.regs x.world j) (v.byte x.world j)).0
                (program (v.regs x.world j) (v.byte x.world j)).1
                (in_world x (k.syscall j x.world).1))
            same (own child2 s2.world none onwards e2 stands run),
      )
