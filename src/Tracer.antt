-- ===== src/Tracer.antt =====
-- The tracer's own state, and the computations over it; PTRACE_RETURN of reproduce/include/putils.h.
pub mod Outcome
pub mod Macros
pub mod Keeps
use reproduce.Prelude.{ℕ, Option, none, some, List, ◌==◌, if◌then◌else◌}
use reproduce.Prelude.Assoc
use reproduce.Kernel.{Kernel, Reply, minus_one, esrch, exit_failure}
use reproduce.Uthash.{Uthash}

-- struct timespec, each field as a 64-bit pattern
pub record Timespec : Type 0 where
  pub tv_sec : ℕ
  pub tv_nsec : ℕ

-- struct child_process, without the handle of the hash table
pub record ChildProcess : Type 0 where
  pub pid : ℕ
  pub gettime_data : Timespec

abbrev pub Heap : Type 0
Heap = List (ℕ × ChildProcess)

-- The machine, the two variables of hashtable.c, and the structs that `malloc` gave for it.
pub record Tracer (World Table : Type 0) : Type 0 where
  pub world : World
  pub process_table : Table
  pub entry_count : ℕ
  pub heap : Heap

-- How a computation ends: it returns, calls `exit`, does what C leaves undefined (a use of NULL
-- or of a freed struct), or has used up the rounds that the model gives its loops.
pub data Run (S A : Type 0) : Type 0 where
  ok : A → S → Run S A
  exit : ℕ → S → Run S A
  fault : Run S A
  out_of_fuel : Run S A

abbrev pub M : Type 0 → Type 0 → Type 0
M S A = S → Run S A

module _ {S : Type 0} where
  abbrev pub pure : {A : Type 0} → A → M S A
  pure a s = ok a s

  abbrev pub stop : {A : Type 0} → ℕ → M S A
  stop code s = exit code s

  -- what C leaves undefined
  abbrev pub crash : {A : Type 0} → M S A
  crash s = fault

  abbrev pub and_then : {A B : Type 0} → Run S A → (A → M S B) → Run S B
  and_then (ok a s) k = k a s
  and_then (exit c s) k = exit c s
  and_then fault k = fault
  and_then out_of_fuel k = out_of_fuel

  infixl 5 ◌>>=◌ ◌>>◌
  abbrev pub ◌>>=◌ : {A B : Type 0} → M S A → (A → M S B) → M S B
  m >>= k = λ s. and_then (m s) k

  abbrev pub ◌>>◌ : {B : Type 0} → M S (Unit {0}) → M S B → M S B
  m >> n = m >>= λ _. n

module _ ⦃k : Kernel⦄ ⦃u : Uthash⦄ where
  abbrev pub State : Type 0
  State = Tracer k.World u.Table

  abbrev pub Cmd : Type 0 → Type 0
  Cmd A = M State A

  -- a request to the operating system
  abbrev pub request : {A : Type 0} → (k.World → A × k.World) → Cmd A
  request f s = let (a, w) = f s.world in ok a (record s { world = w })

  abbrev pub malloc : (size : ℕ) → Cmd ℕ
  malloc size s = request (k.malloc (Assoc.addresses s.heap) size) s

  -- `p->...`, a fault at an address that holds no struct
  abbrev pub or_fault : Option ChildProcess → Cmd ChildProcess
  or_fault none = crash
  or_fault (some c) = pure c

  abbrev pub load : ℕ → Cmd ChildProcess
  load p s = or_fault (Assoc.lookup p s.heap) s

  abbrev pub store : ℕ → ChildProcess → Cmd (Unit {0})
  store p c s = ok tt (record s { heap = Assoc.write p c s.heap })

  abbrev pub free : ℕ → Cmd (Unit {0})
  free p s = ok tt (record s { heap = Assoc.remove p s.heap })

  -- What both macros of putils.h do with a reply: ESRCH means that the process is gone, and any
  -- other error ends the tracer.
  unfoldable pub check_reply : {A : Type 0} → Reply → Cmd A → Cmd A → Cmd A
  check_reply reply gone rest =
      if reply.ret == minus_one
      then (if reply.errno == esrch then gone else stop exit_failure)
      else rest

  -- PTRACE_RETURN: `returned` is what the caller holds if the process is gone, and `rest` is the
  -- code behind the macro.
  unfoldable pub ptrace_return : {A : Type 0} → (k.World → Reply × k.World) → A → Cmd A → Cmd A
  unfolding check_reply
  ptrace_return call returned rest = do reply ← request call; check_reply reply (pure returned) rest

  -- The same for a request that writes to a variable of the caller.
  unfoldable pub ptrace_return_out :
      {A B : Type 0} → (k.World → (Reply × B) × k.World) → A → (B → Cmd A) → Cmd A
  unfolding check_reply
  ptrace_return_out call returned rest = do
    (reply, out) ← request call
    check_reply reply (pure returned) (rest out)
