-- ===== src/Sample/Machine.antt =====
-- A machine with one address space, from 4096 to 65536, and a list of reports for `waitpid`.
use reproduce.Prelude.{
  ℕ, suc, ◌+◌, ◌-◌, ◌%◌, ◌<◌, ◌≡◌, ◌≢◌, refl, Bool, true, false, ◌&&◌, List, [], ◌∷◌, ltb, leb,
  if◌then◌else◌, contains, arith, Bool-cases, inl, inr,
}
use reproduce.Prelude.Bytes.{byte_of, byte_of-lt}
use reproduce.Kernel.{
  Kernel, Regs, Wait, Target, changed, failed, any, only, minus_one, esrch, eio, echild,
}
use reproduce.Kernel.Frames.{Frames}
use reproduce.Kernel.Laws.{View, Ptrace, AtEntry, SameMemory, Holds, reply, word_at}

pub record World : Type 0 where
  pub mem : ℕ → ℕ
  pub regs : Regs
  pub reports : List Wait

abbrev pub in_space : ℕ → Bool
in_space a = leb 4096 a && leb (a + 8) 65536

abbrev pub byte_at : World → ℕ → ℕ
byte_at w a = w.mem a % 256

abbrev pub view : View World
view = record {
  Stopped = λ w p. Unit;
  Entering = λ w p. Unit;
  Undisturbed = λ w p. Unit;
  mapped = λ w p a. in_space a;
  byte = λ w p a. byte_at w a;
  regs = λ w p. w.regs;
}

abbrev pub poke_mem : (ℕ → ℕ) → ℕ → ℕ → ℕ → ℕ
poke_mem m a x b = if leb a b && ltb b (a + 8) then byte_of (b - a) x else m b

-- a stop by a signal
abbrev pub stopped_status : ℕ
stopped_status = 0x057f

abbrev pub wait_any : World → Wait × World
wait_any w = elim w.reports [
  | [] ↦ (failed echild, w)
  | r ∷ rest ↦ (r, record w { reports = rest })
]

abbrev pub wait : Target → World → Wait × World
wait any w = wait_any w
wait (only p) w = (changed p stopped_status, w)

abbrev pub sum : List ℕ → ℕ
sum [] = 0
sum (x ∷ xs) = x + sum xs

above_sum : (n : ℕ) (xs : List ℕ) → sum xs < n → contains xs n ≡ false
above_sum n [] h = refl
above_sum n (x ∷ xs) h = ground (arith, above_sum n xs)

pub fresh_sum :
    (live : List ℕ) (size : ℕ) (w : World)
    → suc (sum live) ≢ 0
    → contains live (suc (sum live)) ≡ false
fresh_sum live size w h = above_sum (suc (sum live)) live (omega arith)

instance abbrev pub machine : Kernel
machine = record {
  World = World;
  setregs = λ p r w. (reply 0 0, record w { regs = r });
  getregs = λ p w. ((reply 0 0, w.regs), w);
  syscall = λ p w. (reply 0 0, w);
  peekdata = λ p a w. (if in_space a then reply (word_at view w p a) 0 else reply minus_one eio, w);
  pokedata = λ p a x w.
      if in_space a
      then (reply 0 0, record w { mem = poke_mem w.mem a x })
      else (reply minus_one eio, w);
  peekuser = λ p a w. (reply w.regs.rsp 0, w);
  geteventmsg = λ p w. ((reply 0 0, 9), w);
  setoptions = λ p o w. (reply 0 0, w);
  traceme = λ w. (reply 0 0, w);
  waitpid = wait;
  fork = λ w. (5, w);
  stop_self = λ w. w;
  execvp = λ path argv w. (true, w);
  srandom = λ seed w. w;
  malloc = λ live size w. (suc (sum live), w);
  malloc-fresh = fresh_sum;
}

same : (p : ℕ) (w : World) → SameMemory view p w w
same p w = record { stopped = tt; mapped = λ a. refl; byte = λ a. refl }

pub poked :
    (w : World) (p a x : ℕ)
    → Unit {0}
    → in_space a ≡ true
    → Holds view p w
        (λ b. if leb a b && ltb b (a + 8) then byte_of (b - a) x else byte_at w b)
        (machine.pokedata p a x w).1
poked w p a x t h = rw h (record {
  stopped = tt;
  mapped = λ b. refl;
  byte = λ b. elim (Bool-cases (leb a b && ltb b (a + 8))) [
    | inl e ↦ rw e (let lt = byte_of-lt (b - a) x in omega arith)
    | inr e ↦ rw e refl
  ];
})

-- Its processes run nothing between their stops, each of which is at the entry of a call.
pub at_entry : (p : ℕ) (w : World) → AtEntry view p w
at_entry p w = record { stopped = tt; entering = tt; undisturbed = tt }

pub laws : Ptrace view
laws = record {
  byte-lt = λ w p a. omega arith;
  mapped-lt = λ w p a h. ground arith;
  peek = λ w p a t h. rw h refl;
  peek_unmapped = λ w p a t h. rw h refl;
  peek-memory = λ w p a t. same p w;
  peek-regs = λ w p a t. refl;
  poke = λ w p a x t h. rw h refl;
  poke-memory = poked;
  poke_unmapped = λ w p a x t h. rw h refl;
  peekuser_rsp = λ w p t. refl;
  peekuser-memory = λ w p a t. same p w;
  setregs = λ w p r t. refl;
  setregs-memory = λ w p r t. record { stopped = tt; mapped = λ a. refl; byte = λ a. refl };
  setregs-regs = λ w p r t. refl;
  malloc-memory = λ live size w p t. same p w;
  getregs = λ w p t. refl;
  getregs-memory = λ w p t. same p w;
  getregs-regs = λ w p t. refl;
  resume = λ w p t. refl;
  getregs-entry = λ w p t. at_entry p _;
  setregs-entry = λ w p r t. at_entry p _;
  peek-entry = λ w p a t. at_entry p _;
  cancel_wait = λ w p t e. (stopped_status, refl, refl);
  cancel-memory = λ w p t e. same p w;
}

pub frames : Frames view
frames = record {
  geteventmsg = λ w p t. record { stopped = tt; regs = refl };
  malloc = λ live size w p t. record { stopped = tt; regs = refl };
  waitpid = λ w p q apart t. record { stopped = tt; regs = refl };
  syscall = λ w p q apart t. record { stopped = tt; regs = refl };
}

-- The same machine after its process was killed: reading its memory or registers gives ESRCH.
abbrev pub departed : Kernel
departed = record machine {
  getregs = λ p w. ((reply minus_one esrch, w.regs), w);
  peekdata = λ p a w. (reply minus_one esrch, w);
}
