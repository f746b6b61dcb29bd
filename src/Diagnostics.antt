-- ===== src/Diagnostics.antt =====
-- reproduce/include/cstd.h: the messages of the tracer, as the bytes written to stderr, and the two
-- functions that do nothing but print, `print_event` of reproduce/src/events.c and `print_hashtable`
-- of reproduce/src/hashtable.c.
pub mod Listing
use Prim.Native.String.{String}
use reproduce.Prelude.{ℕ, Bool, true, false, List, [], ◌∷◌, ◌++◌, ◌==◌, if◌then◌else◌}
use reproduce.Prelude.Bytes.{codes}
use reproduce.Prelude.Decimal.{decimal, signed_decimal}
use reproduce.Kernel.{Kernel}
use reproduce.Uthash.{Uthash}
use reproduce.Tracer.{Cmd, State, pure, load, ◌>>=◌}
use reproduce.Events.{event_fork, event_vfork, event_clone, event_exec}

pub data Severity : Type 0 where
  error : Severity
  warn : Severity
  debug : Severity
  trace : Severity

-- DEBUG_BUILD and TRACE_BUILD
pub record Build : Type 0 where
  pub debug_build : Bool
  pub trace_build : Bool

abbrev escape : String → List ℕ
escape s = 27 ∷ codes s

abbrev pub colour : Severity → List ℕ
colour error = escape "[1;31m"
colour warn = escape "[1;33m"
colour debug = escape "[1;34m"
colour trace = escape "[1;30m"

abbrev pub reset_text : List ℕ
reset_text = escape "[0m"

abbrev pub print_helper : Severity → (file : String) (line : ℕ) (text : List ℕ) → List ℕ
print_helper severity file line text =
    colour severity
    ++ (codes file ++ b':' ∷ (decimal line ++ (b':' ∷ b' ' ∷ (text ++ (reset_text ++ 10 ∷ [])))))

-- What a message with no side effects in its arguments writes.
abbrev pub message : Build → Severity → (file : String) (line : ℕ) (text : List ℕ) → List ℕ
message b error file line text = print_helper error file line text
message b warn file line text = print_helper warn file line text
message b debug file line text = if b.debug_build then print_helper debug file line text else []
message b trace file line text = if b.trace_build then print_helper trace file line text else []

-- BREAKPOINT: what it writes, and the state that the trap, the instruction `int3`, leaves.
abbrev pub breakpoint :
    {S : Type 0} → (int3 : S → S) → Build → (file : String) (line : ℕ) → S → List ℕ × S
breakpoint int3 b file line s = (message b error file line (codes "Breakpoint hit!"), int3 s)

abbrev pub event_exit : ℕ
event_exit = 6

pub print_event : Build → (event pid : ℕ) → List ℕ
print_event b event pid =
    if event == event_fork
    then message b debug "events.c" 27 (codes "PTRACE_EVENT_FORK " ++ signed_decimal pid)
    else if event == event_vfork
    then message b debug "events.c" 30 (codes "PTRACE_EVENT_VFORK " ++ signed_decimal pid)
    else if event == event_clone
    then message b debug "events.c" 33 (codes "PTRACE_EVENT_CLONE " ++ signed_decimal pid)
    else if event == event_exec
    then message b debug "events.c" 36 (codes "PTRACE_EVENT_EXEC " ++ signed_decimal pid)
    else if event == event_exit
    then message b debug "events.c" 39 (codes "PTRACE_EVENT_EXIT " ++ signed_decimal pid)
    else []

-- What DEBUG writes for a process, with DEBUG_BUILD.
pub pid_line : (pid : ℕ) → List ℕ
pid_line pid = print_helper debug "hashtable.c" 62 (codes "pid: " ++ signed_decimal pid)

module _ ⦃k : Kernel⦄ ⦃u : Uthash⦄ where
  -- Without DEBUG_BUILD the argument of DEBUG is not evaluated.
  pub print_struct : Build → (proc : ℕ) → Cmd (List ℕ)
  print_struct b proc =
      if b.debug_build then (load proc >>= λ c. pure (pid_line c.pid)) else pure []

  pub print_structs : Build → (procs : List ℕ) → Cmd (List ℕ)
  unfolding print_struct
  print_structs b [] = pure []
  print_structs b (proc ∷ procs) = do
    line ← print_struct b proc
    lines ← print_structs b procs
    pure (line ++ lines)

  -- What it writes is the result.
  pub print_hashtable : Build → Cmd (List ℕ)
  unfolding print_structs
  print_hashtable b s = print_structs b (u.iter s.process_table) s
