-- ===== src/Syscalls/Programs.antt =====
-- A program on its own: what it is, and what becomes of it from call to call.
use reproduce.Prelude.{
  arith, false, ℕ, zero, suc, ◌≡◌, refl, Option, none, some, ◌==◌, if◌then◌else◌, ◌∙◌, ap, sym,
}
use reproduce.Kernel.{Regs}
use reproduce.Putils.Registers.{r_syscall}
use reproduce.Syscalls.{
  nr_getrandom, nr_gettimeofday, nr_time, nr_clock_gettime, nr_open, nr_openat, nr_openat2,
}
use reproduce.Syscalls.Open.{openat, open_call, openat2}
use reproduce.Syscalls.Steps.{is_hooked}
use reproduce.Syscalls.Clock.{gettimeofday, time, clock_gettime}
use reproduce.Syscalls.Reproducible.{
  AnsweredCall, random, clock, opening, call_number, Seen, answer,
}

-- The tracee's own code, and the outcome of what is left to the kernel: from the registers and the memory with which it is resumed, to those with
-- which it stops at its next call.
abbrev pub Program : Type 0
Program = Regs → (ℕ → ℕ) → Regs × (ℕ → ℕ)

pub call_of : (number : ℕ) → Option AnsweredCall
call_of number =
    if number == nr_getrandom
    then some random
    else if number == nr_gettimeofday
    then some (clock gettimeofday)
    else if number == nr_time
    then some (clock time)
    else if number == nr_clock_gettime
    then some (clock clock_gettime)
    else if number == nr_openat
    then some (opening openat)
    else if number == nr_open
    then some (opening open_call)
    else if number == nr_openat2
    then some (opening openat2)
    else none

call_of-call_number : (call : AnsweredCall) → call_of (call_number call) ≡ some call
unfolding call_of
call_of-call_number random = refl
call_of-call_number (clock gettimeofday) = refl
call_of-call_number (clock time) = refl
call_of-call_number (clock clock_gettime) = refl
call_of-call_number (opening open_call) = refl
call_of-call_number (opening openat) = refl
call_of-call_number (opening openat2) = refl

-- A number that `handle_syscall` does not look at is none of theirs.
pub call_of-unhooked : (number : ℕ) → is_hooked number ≡ false → call_of number ≡ none
unfolding call_of
call_of-unhooked number other = ground arith

abbrev pub answered_as : Option AnsweredCall → Seen → Seen
answered_as none o = o
answered_as (some call) o = answer call o.regs o.memory o.time

abbrev pub go_on : Program → Seen → Seen
go_on program o = record o {
  regs = (program o.regs o.memory).0;
  memory = (program o.regs o.memory).1;
}

abbrev pub next_stop : Program → Seen → Seen
next_stop program o = go_on program (answered_as (call_of (r_syscall o.regs)) o)

-- The program on its own, without a machine: each call answered, and on to the next one.
unfoldable pub play : Program → (calls : ℕ) → Seen → Seen
play program zero o = o
play program (suc calls) o = play program calls (next_stop program o)

-- Played one call longer, the program makes one more step at the end.
pub play-suc :
    (program : Program) (n : ℕ) (o : Seen)
    → play program (suc n) o ≡ next_stop program (play program n o)
unfolding play
play-suc program zero o = refl
play-suc program (suc n) o = play-suc program n (next_stop program o)

pub answered_by :
    (call : AnsweredCall) (o : Seen) (r : Regs)
    → r ≡ o.regs
    → r_syscall r ≡ call_number call
    → answered_as (call_of (r_syscall o.regs)) o ≡ answer call r o.memory o.time
answered_by call o r e called =
    let number : call_of (r_syscall o.regs) ≡ some call =
      ap (λ (x : Regs). call_of (r_syscall x)) (sym e)
      ∙ ap call_of called
      ∙ call_of-call_number call in
    ap (λ x. answered_as x o) number ∙ ap (λ (x : Regs). answer call x o.memory o.time) (sym e)
