-- ===== src/Sample/Running.antt =====
-- A machine on which a process, when it is resumed at the exit of a system call, runs to the entry of
-- the next one and writes to its memory.
use reproduce.Prelude.{ℕ, ◌+◌, ◌≡◌, refl, Bool, true, false, [], if◌then◌else◌, ◌==◌, arith}
use reproduce.Kernel.{Kernel, Regs, changed, only}
use reproduce.Kernel.Laws.{View, Ptrace, SameMemory, reply}
use reproduce.Sample.Machine as Still
use reproduce.Sample.Machine.{World, stopped_status, fresh_sum, in_space, byte_at}

pub record Stage : Type 0 where
  pub world : World
  -- the last stop was the one at the entry of a call
  pub entering : Bool

abbrev lift : {A : Type 0} → (World → A × World) → Stage → A × Stage
lift f s = let (a, w) = f s.world in (a, record s { world = w })

-- To the exit of the call, or to the entry of the next one; the program counts at the address 5000.
abbrev runs_on : World → World
runs_on w = record w { mem = λ a. if a == 5000 then w.mem 5000 + 1 else w.mem a }

abbrev resume : Stage → Stage
resume s =
    if s.entering
    then record s { entering = false }
    else record { world = runs_on s.world; entering = true }

abbrev pub running : Kernel
running = record {
  World = Stage;
  setregs = λ p r. lift (Still.machine.setregs p r);
  getregs = λ p. lift (Still.machine.getregs p);
  syscall = λ p s. (reply 0 0, resume s);
  peekdata = λ p a. lift (Still.machine.peekdata p a);
  pokedata = λ p a x. lift (Still.machine.pokedata p a x);
  peekuser = λ p a. lift (Still.machine.peekuser p a);
  geteventmsg = λ p. lift (Still.machine.geteventmsg p);
  setoptions = λ p o. lift (Still.machine.setoptions p o);
  traceme = lift Still.machine.traceme;
  waitpid = λ t s. (changed 5 stopped_status, s);
  fork = lift Still.machine.fork;
  stop_self = λ s. s;
  execvp = λ path argv. lift (Still.machine.execvp path argv);
  srandom = λ seed s. s;
  malloc = λ live size. lift (Still.machine.malloc live size);
  malloc-fresh = λ live size s. fresh_sum live size s.world;
}

abbrev pub view : View Stage
view = record {
  Stopped = λ s p. p ≡ 5;
  Entering = λ s p. s.entering ≡ true;
  Undisturbed = λ s p. Unit;
  mapped = λ s p a. in_space a;
  byte = λ s p a. byte_at s.world a;
  regs = λ s p. s.world.regs;
}

abbrev same : (p : ℕ) (s : Stage) → p ≡ 5 → SameMemory view p s s
same p s t = record { stopped = t; mapped = λ a. refl; byte = λ a. refl }

laws : Ptrace ⦃k = running⦄ view
laws = record {
  byte-lt = λ s p a. omega arith;
  mapped-lt = λ s p a h. ground arith;
  peek = λ s p a t h. Still.laws.peek s.world p a tt h;
  peek_unmapped = λ s p a t h. rw h refl;
  peek-memory = λ s p a t. same p s t;
  peek-regs = λ s p a t. refl;
  poke = λ s p a x t h. rw h refl;
  poke-memory = λ s p a x t h.
      let held = Still.poked s.world p a x tt h in
      record { stopped = t; mapped = λ b. refl; byte = held.byte };
  poke_unmapped = λ s p a x t h. rw h refl;
  peekuser_rsp = λ s p t. refl;
  peekuser-memory = λ s p a t. same p s t;
  setregs = λ s p r t. refl;
  setregs-memory = λ s p r t. record { stopped = t; mapped = λ a. refl; byte = λ a. refl };
  setregs-regs = λ s p r t. refl;
  malloc-memory = λ live size s p t. same p s t;
  getregs = λ s p t. refl;
  getregs-memory = λ s p t. same p s t;
  getregs-regs = λ s p t. refl;
  resume = λ s p t. refl;
  getregs-entry =
      λ s p at. record { stopped = at.stopped; entering = at.entering; undisturbed = tt };
  setregs-entry =
      λ s p r at. record { stopped = at.stopped; entering = at.entering; undisturbed = tt };
  peek-entry =
      λ s p a at. record { stopped = at.stopped; entering = at.entering; undisturbed = tt };
  cancel_wait = λ s p at noop. (stopped_status, ground (arith, at.stopped), refl);
  cancel-memory = λ s p at noop.
      rw at.entering (record { stopped = at.stopped; mapped = λ a. refl; byte = λ a. refl });
}

-- Resumed at the exit of a call, it comes to the next stop with another memory.
abbrev at_exit : Regs → Stage
at_exit r = record { world = record { mem = λ a. 0; regs = r; reports = [] }; entering = false }

writes_memory :
    (r : Regs) → view.byte (running.waitpid (only 5) (running.syscall 5 (at_exit r)).1).1 5 5000 ≡ 1
writes_memory r = refl
