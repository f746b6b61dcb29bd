-- ===== src/Printrandom/Passes.antt =====
-- The test program under a system that answers like the tracer.
pub mod Answers
use reproduce.Prelude.{
  if◌then◌else◌, Bool, fun_ext, refl, [], ◌∷◌, ◌++◌, ℕ, ◌+◌, ◌-◌, ◌^◌, ◌≤◌, ◌<◌, ◌≡◌, ◌⊎◌, inl, inr,
  true, false, List, ltb, leb, ◌==◌, length, arith, ap, ◌∙◌, Bool-cases,
}
use reproduce.Prelude.Bytes.{codes}
use reproduce.Kernel.{minus_one}
use reproduce.Prelude.Decimal.{signed_decimal}
use reproduce.Tracer.{Timespec}
use reproduce.HashTable.{first_time}
use reproduce.Syscalls.{tick}
use reproduce.Syscalls.Clock.{reported, result, gettimeofday, time, clock_gettime}
use reproduce.Syscalls.Random.{filled}
use reproduce.Printrandom.Output.{argv_lines, Written, Ran, says, line, signed_long}
use reproduce.Printrandom.Transcript.{
  passes, clock_gettime_lines, time_lines, gettimeofday_lines, second_getrandom_lines,
  first_getrandom_lines, fork_lines, open_lines, transcript, read_line,
}
use reproduce.Printrandom.{
  bytes_of, second_bytes_part, first_bytes_part, first_buf, second_buf, end_range, in_range,
  clock_gettime_part, time_part, gettimeofday_part, second_getrandom_part, first_getrandom_part,
  fork_part, read_part, open_part, join_part, print_message, main,
}
use reproduce.Printrandom.Calls.{System}
use reproduce.Printrandom.UnderTracer.{Traced, LeavesRoom}
use reproduce.Printrandom.Passes.Answers.{first_getrandom_part-passes}

module _ {S : Type 0} {os : System S} {clock : S → Timespec} (traced : Traced os clock) where
  -- What one side of the fork prints.
  Forked : S → Ran → Type 0
  Forked s r =
      (is_child : Bool) × (pid : ℕ) × (t : Timespec) × ((t ≡ clock s) ⊎ (t ≡ first_time))
      × (r ≡ passes (fork_lines is_child pid t))

  -- the first lines of a side of the fork
  abbrev start_of : (is_child : Bool) (pid : ℕ) → List Written
  start_of is_child pid =
      line (codes "==Before fork==")
      ∷ line (
          (if is_child then codes "Child process: " else codes "Parent process: ")
          ++ signed_decimal pid)
      ∷ []

  fork_part-passes : (s : S) → LeavesRoom 2 (clock s) → Forked s (fork_part os s)
  unfolding fork_part Forked
  fork_part-passes s room =
      let (lt, c) = traced.fork s in
      let fine : ((os.fork s).0 == 2 ^ 32 - 1) ≡ false = ground arith in
      let s1 = (os.getpid (os.fork s).1).1 in
      let same : clock s1 ≡ clock (os.fork s).1 = traced.getpid (os.fork s).1 in
      let fits : LeavesRoom 2 (clock s1) = elim c [
        | inl old ↦ rw (same, old) room
        | inr new ↦ rw (same, new) (omega arith, omega arith)
      ] in
      (
        (os.fork s).0 == 0,
        (os.getpid (os.fork s).1).0,
        clock s1,
        elim c [ inl old ↦ inl (same ∙ old) | inr new ↦ inr (same ∙ new) ],
        rw fine (
            ap (says (start_of ((os.fork s).0 == 0) (os.getpid (os.fork s).1).0))
              (first_getrandom_part-passes traced (os.getpid (os.fork s).1).0 s1 fits)),
      )

  read_part-reads :
      (fd : ℕ) (s : S)
      → read_part os fd s
        ≡ says
            (read_line (os.read fd 16 s).0.0 (bytes_of (os.read fd 16 s).0.1) ∷ [])
            (fork_part os (os.read fd 16 s).1)
  unfolding read_part
  read_part-reads fd s =
      let (lt, c) = traced.read fd 16 s in
      let got : ltb (os.read fd 16 s).0.0 (2 ^ 63) ≡ true = ground arith in rw got refl

  -- What one side of the fork prints after the thread has been joined.
  Opened : S → Ran → Type 0
  Opened s r =
      (count : ℕ) × (bytes : ℕ → ℕ) × (is_child : Bool) × (pid : ℕ) × (t : Timespec) × ((t
          ≡ clock s)
        ⊎ (t ≡ first_time))
      × (r ≡ passes (open_lines count bytes is_child pid t))

  open_part-passes : (s : S) → LeavesRoom 2 (clock s) → Opened s (open_part os s)
  unfolding open_part Forked Opened
  open_part-passes s room =
      let (lt, c) = traced.open_file (codes "/dev/urandom") s in
      let s1 = (os.open_file (codes "/dev/urandom") s).1 in
      let fd = (os.open_file (codes "/dev/urandom") s).0 in
      let (lt', c') = traced.read fd 16 s1 in
      let answer = os.read fd 16 s1 in
      let fine : (fd == 2 ^ 32 - 1) ≡ false = ground arith in
      let (is_child, pid, t, times, e) = fork_part-passes answer.1 (rw (c', c) room) in
      let opened : Written = line (codes "/dev/urandom opened successfully") in
      let read = read_line answer.0.0 (bytes_of answer.0.1) in
      (
        answer.0.0,
        bytes_of answer.0.1,
        is_child,
        pid,
        t,
        elim times [ inl old ↦ inl (old ∙ c' ∙ c) | inr new ↦ inr new ],
        rw fine (ap (says (opened ∷ [])) (read_part-reads fd s1 ∙ ap (says (read ∷ [])) e)),
      )

  -- Under a system that answers as the tracer does, if at the start of the program the seconds of its
  -- clock are at least 1718099106 and their sum with 2 is below END_RANGE: the run of `main` on either
  -- side of its fork, with and without arguments, returns 0 and prints the transcript. In it the
  -- process ids, the arguments and what was read from the device stand as they are, and all else
  -- follows from the clock, which is the one of the start, or as the child the first one.
  pub main-transcript :
      (argv : List (List ℕ)) (s : S)
      → 1718099106 ≤ (clock s).tv_sec
      → (clock s).tv_sec + 2 < end_range
      → (count : ℕ) × (bytes : ℕ → ℕ) × (is_child : Bool) × (pid : ℕ) × (t : Timespec) × ((t
            ≡ clock s)
          ⊎ (t ≡ first_time))
        × (main os argv s ≡ record {
          written = transcript argv (os.getpid s).0 count bytes is_child pid t;
          status = 0;
        })
  unfolding main join_part print_message Opened
  main-transcript argv s lo hi =
      let started = os.getpid s in
      let same : clock started.1 ≡ clock s = traced.getpid s in
      let date = print_message os in
      let (r, c) =
        traced.pthread_create date started.1 (λ s'. traced.system (codes "date +%s") s') in
      let created = (os.pthread_create date started.1).1 in
      let (r', c') = traced.pthread_join created in
      let hello : List Written =
        line (codes "==Start== pid " ++ signed_decimal started.0) ∷ argv_lines 0 argv in
      elim (Bool-cases (leb (length argv) 1)) [
        | inl alone ↦
            let (count, bytes, is_child, pid, t, times, e) =
              open_part-passes (os.pthread_join created).1 (rw (c', c, same) (lo, hi)) in
            let joins : List Written =
              line (codes "Before join") ∷ line (codes "After join") ∷ [] in
            (
              count,
              bytes,
              is_child,
              pid,
              t,
              elim times [ inl old ↦ inl (old ∙ c' ∙ c ∙ same) | inr new ↦ inr new ],
              rw (alone, r, r') (ap (λ x. says hello (says joins x)) e),
            )
        | inr more ↦
            let (count, bytes, is_child, pid, t, times, e) =
              open_part-passes started.1 (rw same (lo, hi)) in
            (
              count,
              bytes,
              is_child,
              pid,
              t,
              elim times [ inl old ↦ inl (old ∙ same) | inr new ↦ inr new ],
              rw more (ap (says hello) e),
            )
      ]

  -- Then it returns 0.
  main-zero :
      (argv : List (List ℕ)) (s : S)
      → 1718099106 ≤ (clock s).tv_sec
      → (clock s).tv_sec + 2 < end_range
      → (main os argv s).status ≡ 0
  main-zero argv s lo hi =
      let (count, bytes, is_child, pid, t, times, e) = main-transcript argv s lo hi in
      ap (λ (x : Ran). x.status) e
