-- ===== src/Main.antt =====
-- reproduce/src/main.c: the start of the tracer and of the program that it traces.
pub mod Keeps
pub mod Seed
pub mod Start
pub mod Zero
pub mod Reproducible
pub mod Lives
pub mod Clocks
pub mod Safe
use reproduce.Prelude.{
  ℕ, ◌+◌, ◌*◌, ◌-◌, ◌%◌, ◌^◌, Bool, true, false, ◌||◌, ◌&&◌, Option, none, some, List, [], ◌∷◌,
  ◌==◌, ltb, leb, if◌then◌else◌, length,
}
use reproduce.Kernel.{Kernel, Reply, Wait, changed, failed, only, minus_one, wifexited, wifsignaled}
use reproduce.Uthash.{Uthash}
use reproduce.Tracer.{State, Cmd, ok, pure, ◌>>=◌, ◌>>◌, request}
use reproduce.HashTable.{insert_process}
use reproduce.Events.{handle_event}

abbrev pub is_space : ℕ → Bool
is_space c = (c == 32) || (leb 9 c && leb c 13)

abbrev pub is_digit : ℕ → Bool
is_digit c = leb b'0' c && leb c b'9'

-- `strtoul(s, NULL, 10)` of the C library: the digits in front.
pub digits : (acc : ℕ) → List ℕ → ℕ
digits acc [] = acc
digits acc (c ∷ cs) =
    let more = digits (acc * 10 + (c - b'0')) cs in if is_digit c then more else acc

abbrev pub ulong_max : ℕ
ulong_max = 2 ^ 64 - 1

pub signed_digits : List ℕ → ℕ
unfolding digits
signed_digits [] = 0
signed_digits (c ∷ cs) =
    if c == b'-'
    then (let n = digits 0 cs in if ltb ulong_max n then ulong_max else (2 ^ 64 - n) % 2 ^ 64)
    else (let n = if c == b'+' then digits 0 cs else digits 0 (c ∷ cs) in
        if ltb ulong_max n then ulong_max else n)

pub strtoul : List ℕ → ℕ
unfolding signed_digits
strtoul [] = 0
strtoul (c ∷ cs) = let rest = strtoul cs in if is_space c then rest else signed_digits (c ∷ cs)

abbrev default_seed : ℕ
default_seed = 123456890

-- `custom_seed`, from the value of R_SEED
pub seed_of : Option (List ℕ) → ℕ
unfolding strtoul
seed_of none = default_seed
seed_of (some seed_str) = strtoul seed_str % 2 ^ 32

-- PTRACE_O_EXITKILL, _TRACEFORK, _TRACEVFORK, _TRACECLONE and _TRACEEXEC together
abbrev trace_options : ℕ
trace_options = 0x100000 + 0x2 + 0x4 + 0x8 + 0x10

-- How `main` ends: with a status for the shell, or as another program, by `execvp`.
pub data Ending : Type 0 where
  status : ℕ → Ending
  replaced : Ending

module _ ⦃k : Kernel⦄ ⦃u : Uthash⦄ where
  pub initialize_seed : Option (List ℕ) → Cmd (Unit {0})
  unfolding seed_of
  initialize_seed seed_str s = ok tt (record s { world = k.srandom (seed_of seed_str) s.world })

  abbrev first_arg : List (List ℕ) → List ℕ
  first_arg [] = []
  first_arg (a ∷ as') = a

  abbrev others : List (List ℕ) → List (List ℕ)
  others [] = []
  others (a ∷ as') = as'

  abbrev pub stop_self : Cmd (Unit {0})
  stop_self s = ok tt (record s { world = k.stop_self s.world })

  -- the branch of the child process; `args` is argv from argv[1] on
  pub run_child : (args : List (List ℕ)) → Cmd Ending
  run_child args = do
    reply ← request k.traceme
    if reply.ret == minus_one then pure (status 1) else do
      stop_self
      done ← request (k.execvp (first_arg args) args)
      pure (if done then replaced else status 1)

  pub start_trace : (rounds fuel child_pid : ℕ) → Cmd Ending
  start_trace rounds fuel child_pid = do
    set ← request (k.setoptions child_pid trace_options)
    if set.ret == minus_one then pure (status 1) else do
      _ ← insert_process child_pid
      resumed ← request (k.syscall child_pid)
      if resumed.ret == minus_one
          then pure (status 1)
          else do handle_event rounds fuel; pure (status 0)

  -- the branch of the parent, from the result of its `waitpid` on
  pub run_parent : (rounds fuel child_pid : ℕ) → Wait → Cmd Ending
  run_parent rounds fuel child_pid (failed e) = pure (status 1)
  run_parent rounds fuel child_pid (changed pid st) =
      if wifexited st || wifsignaled st then pure (status 0) else start_trace rounds fuel child_pid

  -- `seed_str` is `getenv("R_SEED")`.
  pub main : (rounds fuel : ℕ) → (seed_str : Option (List ℕ)) → (argv : List (List ℕ)) → Cmd Ending
  main rounds fuel seed_str argv = if ltb (length argv) 2 then pure (status 1) else do
    child_pid ← request k.fork
    initialize_seed seed_str
    if child_pid == 0
        then run_child (others argv)
        else if ltb child_pid (2 ^ 31)
        then (do st ← request (k.waitpid (only child_pid)); run_parent rounds fuel child_pid st)
        else pure (status 1)
