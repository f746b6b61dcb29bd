-- ===== src/Events/Histories/Played.antt =====
-- Histories of a program, and the program played on its own.
use reproduce.Prelude.{ℕ, suc, ◌≡◌, refl, Option, sym, subst}
use reproduce.Kernel.{Kernel, Regs}
use reproduce.Kernel.Laws.{View, Ptrace}
use reproduce.Uthash.{Uthash}
use reproduce.Tracer.{ChildProcess, State, ok}
use reproduce.Tracer.Outcome.{Leaves}
use reproduce.Tracer.Macros.{in_world}
use reproduce.Syscalls.Reproducible.{AnsweredCall, Seen}
use reproduce.Syscalls.Programs.{Program, play, play-suc}
use reproduce.Events.{serve}
use reproduce.Events.Isolation.{
  HasProcess, HasProcess-IsOwn, traced, serve-HasProcess, register_new_child-HasProcess,
}
use reproduce.Events.Stops.{StopStatus}
use reproduce.Events.Histories.{struct_of, Plays, StandsAt, History, begins, other, adopts, own}
use reproduce.Events.Histories.Steps.{Plays-answered, answers}

module _ ⦃k : Kernel⦄ ⦃u : Uthash⦄ (v : View k.World) (fuel j : ℕ) (program : Program) where
  module _ (laws : Ptrace v) where
    pub History-Plays :
        (o : Seen) (s0 : State)
        → HasProcess j (struct_of j o.time) s0
        → {n : ℕ} {r : Regs} {m : ℕ → ℕ} {s : State} → History v fuel j program o s0 n r m s
        → Plays j (play program n o) r m s
    unfolding play
    History-Plays o s0 h begins = record { regs = refl; memory = refl; has = h }
    History-Plays o s0 h {n} {r} {m} (other {s = s} pid status w apart before run) =
        let p = History-Plays o s0 h before in
        let c : ChildProcess = struct_of j (play program n o).time in
        record {
          regs = p.regs;
          memory = p.memory;
          has = subst (Leaves (HasProcess j c)) run (
              serve-HasProcess j c fuel pid status (in_world s w)
                ((HasProcess-IsOwn j c).move s w p.has) apart);
        }
    History-Plays o s0 h {n} (adopts {s = s} w before run) =
        let p = History-Plays o s0 h before in
        let c : ChildProcess = struct_of j (play program n o).time in
        record {
          regs = p.regs;
          memory = p.memory;
          has = subst (Leaves (HasProcess j c)) run (
              (register_new_child-HasProcess j c j).at (in_world s w)
                ((HasProcess-IsOwn j c).move s w p.has));
        }
    History-Plays o s0 h {r} {m} {s = s'}
          (own {n} {r = r1} {m = m1} {s = s} {answered} child w call before e at run) =
        let p = History-Plays o s0 h before in
        subst (λ x. Plays j x r m s') (sym (play-suc program n o))
          (Plays-answered laws j (play program n o) r1 m1 s child w p e call at program answered
            run)

    -- When, in a history of a program that was traced at its start, the machine reports the next stop
    -- of the program, with no event, at any system call: one that the tracer answers, at its entry,
    -- with the program not disturbed before the exit (killed, or its memory written to by others), the
    -- memory that the answer is written to mapped and room for the random bytes; one that opens a file,
    -- with a readable path, and if that is a random device, at its entry, with the program not
    -- disturbed, which the kernel then runs without a write to the memory of the program; or one that
    -- the tracer does not look at. Then the round of the event loop for it
    -- returns, with the process resumed behind `handle_syscall`, and the history goes on with it.
    pub History-goes_on :
        (o : Seen) (s0 : State)
        → HasProcess j (struct_of j o.time) s0
        → {n : ℕ} {r : Regs} {m : ℕ → ℕ} {s : State} → History v fuel j program o s0 n r m s
        → (w : k.World) (status : ℕ) (call : Option AnsweredCall) → StopStatus 0 status
        → StandsAt v j call r m (in_world s w)
        → (answered : State) × (serve fuel j status (in_world s w)
            ≡ ok tt (in_world answered (k.syscall j answered.world).1))
          × History v fuel j program o s0
              (suc n)
              (program (v.regs answered.world j) (v.byte answered.world j)).0
              (program (v.regs answered.world j) (v.byte answered.world j)).1
              (in_world answered (k.syscall j answered.world).1)
    History-goes_on o s0 h {n} {r} {m} {s} past w status call st at =
        let p = History-Plays o s0 h past in
        let (child, e) = traced j (struct_of j (play program n o).time) s p.has in
        let (answered, run, served) =
          answers laws j (play program n o) r m s child w p e call at fuel status st in
        (answered, served, own child w call past e at run)

-- Two runs of the event loop, on two machines and in two tracers, in which one program is traced
-- from the start, with the same registers and memory at its next stop and the same clock, and has
-- stopped the same number of times, with no event or at the event of a new child, at system calls
-- that the tracer can serve or does not look at; what the kernel makes of those that the tracer
-- passes on counts as a part of the program. On both the program comes to its next stop with the
-- same registers and memory, and has the same clock, those of the program played on its own. The
-- machines, the process ids, the tables, and the rounds for other processes in between, their
-- number and order, may differ. The tracer can serve a call of a clock or for random bytes at its
-- entry, if the process is not disturbed before the exit (killed, or its memory written to by
-- others), the memory for the answer is mapped, and there is room for the random bytes; and one
-- that opens a file, if its path can be read, and, for a random device, it is also at its entry,
-- not disturbed, and run by the kernel without a write to the memory of the process.
pub History-independent :
    (k k' : Kernel) (u u' : Uthash) (v : View k.World) (v' : View k'.World)
    → Ptrace ⦃k = k⦄ v
    → Ptrace ⦃k = k'⦄ v'
    → (fuel fuel' j j' : ℕ) (program : Program) (n : ℕ) (o : Seen) (s0 : State ⦃k = k⦄ ⦃u = u⦄)
      (s0' : State ⦃k = k'⦄ ⦃u = u'⦄)
    → HasProcess ⦃k = k⦄ ⦃u = u⦄ j (struct_of j o.time) s0
    → HasProcess ⦃k = k'⦄ ⦃u = u'⦄ j' (struct_of j' o.time) s0'
    → {r r' : Regs} {m m' : ℕ → ℕ} {s : State ⦃k = k⦄ ⦃u = u⦄} {s' : State ⦃k = k'⦄ ⦃u = u'⦄}
    → History ⦃k = k⦄ ⦃u = u⦄ v fuel j program o s0 n r m s
    → History ⦃k = k'⦄ ⦃u = u'⦄ v' fuel' j' program o s0' n r' m' s'
    → Plays ⦃k = k⦄ ⦃u = u⦄ j (play program n o) r m s
      × Plays ⦃k = k'⦄ ⦃u = u'⦄ j' (play program n o) r' m' s'
History-independent k k' u u' v v' laws laws' fuel fuel' j j' program n o s0 s0' h h' past past' = (
  History-Plays ⦃k = k⦄ ⦃u = u⦄ v fuel j program laws o s0 h past,
  History-Plays ⦃k = k'⦄ ⦃u = u'⦄ v' fuel' j' program laws' o s0' h' past',
)
