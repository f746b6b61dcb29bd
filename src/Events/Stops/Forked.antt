-- ===== src/Events/Stops/Forked.antt =====
-- The stop of a traced process at the event of a new child: the child is adopted, and the process
-- itself resumed.
use reproduce.Prelude.{
  refl, ℕ, ◌%◌, ◌≡◌, true, false, ◌||◌, ◌==◌, none, some, Bool-cases, inl, inr, arith, ◌∙◌, ap, sym,
}
use reproduce.Prelude.Assoc
use reproduce.Kernel.{Kernel, Regs, changed, only, minus_one}
use reproduce.Kernel.Laws.{View, Ptrace}
use reproduce.Kernel.Frames.{StillThere, Frames, StillThere-trans}
use reproduce.Uthash.{Uthash}
use reproduce.Tracer.{ChildProcess, State, ok, ptrace_return, ptrace_return_out, check_reply}
use reproduce.Tracer.Outcome.{Returns, returns}
use reproduce.Tracer.Macros.{in_world}
use reproduce.HashTable.View.{IsTable, behind}
use reproduce.HashTable.Changes.{IsTable-IsOwn}
use reproduce.HashTable.Fresh.{
  address_of_new, with_new, insert_process-present, insert_process-absent, with_new-IsTable,
}
use reproduce.Putils.Registers.{r_syscall}
use reproduce.ProcInit.Stack.{Resumed}
use reproduce.Syscalls.Steps.{is_hooked, handle_syscall-unhooked}
use reproduce.Events.{
  event_of, event_fork, event_vfork, event_clone, to_pid, wait_checked, track_child,
  register_new_child, serve,
}
use reproduce.Events.Stops.{serve-at_fork, hook-Resumed}
use reproduce.Events.Stops.Unexpected.{Adopted}

module _ ⦃k : Kernel⦄ ⦃u : Uthash⦄ (p : ℕ) (s : State) where
  -- the process that the event is about
  abbrev pub new_child : ℕ
  new_child = to_pid (k.geteventmsg p s.world).0.1

  abbrev pub asked : State
  asked = in_world s (k.geteventmsg p s.world).1

  abbrev pub inserted : State
  inserted = with_new asked new_child

  abbrev pub waited : k.World
  waited = (k.waitpid (only new_child) inserted.world).1

  -- the state in which the child is in the table, and runs
  abbrev pub with_child : State
  with_child = in_world inserted (k.syscall new_child waited).1

  -- What the kernel replies when the process has a new child that is not traced yet: it names the
  -- child, which stops and is resumed.
  pub record Forks : Type 0 where
    pub named : ((k.geteventmsg p s.world).0.0.ret == minus_one) ≡ false
    pub room : (address_of_new asked new_child == 0) ≡ false
    pub stop : ℕ
    pub stopped : (k.waitpid (only new_child) inserted.world).0 ≡ changed new_child stop
    pub resumed : ((k.syscall new_child waited).0.ret == minus_one) ≡ false

  -- A child that is traced already stays as it is.
  pub register_new_child-known :
      (child : ℕ)
      → ((k.geteventmsg p s.world).0.0.ret == minus_one) ≡ false
      → u.find s.process_table new_child ≡ some child
      → register_new_child p s ≡ ok tt asked
  unfolding register_new_child track_child ptrace_return_out check_reply
  register_new_child-known child named known =
      rw (named, insert_process-present asked new_child child known) refl

  module _ (f : Forks) (absent : u.find s.process_table new_child ≡ none) where
    pub register_new_child-Forks : register_new_child p s ≡ ok tt with_child
    unfolding register_new_child track_child wait_checked ptrace_return ptrace_return_out
        check_reply
    register_new_child-Forks =
        rw (f.named, insert_process-absent asked new_child absent f.room, f.stopped, f.resumed)

module _ ⦃k : Kernel⦄ ⦃u : Uthash⦄ (v : View k.World) (p : ℕ) (s : State) where
  -- What holds when the process is resumed.
  pub record Parted (s1 : State) : Type 0 where
    pub child_adopted : Adopted (new_child p s) s s1
    pub there : StillThere v p s.world s1.world
    pub table :
        s1.process_table
        ≡ u.add s.process_table (new_child p s) (address_of_new (asked p s) (new_child p s))

module _ ⦃k : Kernel⦄ ⦃u : Uthash⦄ {v : View k.World} (laws : Ptrace v) (frames : Frames v)
    (fuel p child : ℕ) (c : ChildProcess) (s : State) where
  abbrev q : ℕ
  q = new_child p s

  abbrev adopted : State
  adopted = with_child p s

  module _ (t : IsTable s) (e : u.find s.process_table p ≡ some child)
      (absent : u.find s.process_table q ≡ none) where
    apart : (q == p) ≡ false
    apart = elim (Bool-cases (q == p)) [
      | inr other ↦ other
      | inl same ↦
          let i : q ≡ p = ground arith in
          let g = sym (ap (u.find s.process_table) i) ∙ absent in absurd (ground arith)
    ]

    pub found : u.find (with_child p s).process_table p ≡ some child
    found = u.find-add s.process_table q _ p t.valid ∙ rw apart e

    pub still_there : v.Stopped s.world p → StillThere v p s.world (with_child p s).world
    still_there stopped =
        let a = frames.geteventmsg s.world p stopped in
        let b = frames.malloc _ _ (asked p s).world p a.stopped in
        let d = frames.waitpid (inserted p s).world p q apart b.stopped in
        let f = frames.syscall (waited p s) p q apart d.stopped in
        StillThere-trans a (StillThere-trans b (StillThere-trans d f))

    -- A traced process that stops at the event of a fork, vfork or clone, in a call that is not hooked,
    -- with a well-formed table, where the kernel names a child that is not traced yet, which stops and
    -- is resumed, and there is memory for its struct: the round returns. It has resumed the process
    -- when the table was well formed, the child was traced with the first time and every other process
    -- as before, no other entry in the table, and the process still had the registers of its stop.
    pub serve-forked :
        (status : ℕ)
        → Assoc.lookup child s.heap ≡ some c
        → status % 256 ≡ 127
        → ((event_of status == event_fork || event_of status == event_vfork)
            || event_of status == event_clone)
          ≡ true
        → v.Stopped s.world p
        → is_hooked (r_syscall (v.regs s.world p)) ≡ false
        → Forks p s
        → Returns (λ _ s'. Resumed p (Parted v p s) s') (serve fuel p status s)
    serve-forked status here st ev stopped other f =
        let there = still_there stopped in
        let (t', v') =
          with_new-IsTable (asked p s) q absent f.room (IsTable-IsOwn.move s (asked p s).world t) in
        let here' : Assoc.lookup child adopted.heap ≡ some c =
          ap (behind adopted.heap) (sym found) ∙ v' p ∙ rw (apart, e) here in
        let other' : is_hooked (r_syscall (v.regs adopted.world p)) ≡ false =
          ap (λ (r : Regs). is_hooked (r_syscall r)) there.regs ∙ other in
        let read : State = in_world adopted (k.getregs p adopted.world).1 in
        rw (serve-at_fork fuel p status s st ev, register_new_child-Forks p s f absent)
          (hook-Resumed laws fuel p adopted there.stopped child (Parted v p s) found
            (rw (handle_syscall-unhooked child (v.regs adopted.world p) read c here' other') (
              returns (record {
                child_adopted = (IsTable-IsOwn.move _ read.world t', v');
                there = StillThere-trans there (record {
                  stopped = (laws.getregs-memory adopted.world p there.stopped).stopped;
                  regs = laws.getregs-regs adopted.world p there.stopped;
                });
                table = refl;
              })))
            (λ s1 parted. parted.there.stopped))
