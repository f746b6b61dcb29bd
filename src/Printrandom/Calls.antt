-- ===== src/Printrandom/Calls.antt =====
-- What reproduce/src/printrandom.c calls.
use reproduce.Prelude.{ℕ, List}
use reproduce.Tracer.{Timespec}

-- struct timeval
pub record Timeval : Type 0 where
  pub tv_sec : ℕ
  pub tv_usec : ℕ

-- What the program calls: the system calls, the thread library, and the states of the system
-- between the calls. Results are patterns of 32 bits (int, pid_t) or 64 bits (ssize_t, time_t).
pub record System (S : Type 0) : Type 0 where
  pub system : (command : List ℕ) → S → ℕ × S
  -- `start` is what the new thread runs
  pub pthread_create : (start : S → S) → S → ℕ × S
  pub pthread_join : S → ℕ × S
  pub open_file : (path : List ℕ) → S → ℕ × S
  -- the result, and what is in the buffer afterwards
  pub read : (fd size : ℕ) → S → (ℕ × List ℕ) × S
  pub getpid : S → ℕ × S
  pub fork : S → ℕ × S
  -- the result, and the buffer after `size` bytes from `offset` on were asked for
  pub getrandom : (buf : List ℕ) → (offset size : ℕ) → S → (ℕ × List ℕ) × S
  pub gettimeofday : S → Timeval × S
  -- the result, and what is in the variable whose address is passed
  pub time : S → (ℕ × ℕ) × S
  pub clock_gettime : S → (ℕ × Timespec) × S
