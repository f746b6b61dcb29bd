-- ===== src/Printrandom.antt =====
-- reproduce/src/printrandom.c: the program that the tests run under the tracer, and that returns 0 if
-- it was told the constant bytes and the times that it expects, with all that it prints.
pub mod Output
pub mod Passes
pub mod Calls
pub mod UnderTracer
pub mod Transcript
use reproduce.Prelude.{
  ℕ, ◌+◌, ◌-◌, ◌%◌, ◌^◌, Bool, ◌&&◌, List, [], ◌∷◌, ◌++◌, ltb, leb, ◌==◌, if◌then◌else◌, get_or,
  replicate, length,
}
use reproduce.Prelude.Bytes.{codes}
use reproduce.Printrandom.Output.{
  Ran, says, ends, line, stderr, perror, signed_long, hex_bytes, complaint, argv_lines, check,
  unchecked,
}
use reproduce.Prelude.Decimal.{signed_decimal}
use reproduce.Kernel.{minus_one, exit_failure}
use reproduce.Tracer.{Timespec}
use reproduce.Printrandom.Calls.{System, Timeval}

abbrev int_minus_one : ℕ
int_minus_one = 2 ^ 32 - 1

-- END_RANGE
abbrev pub end_range : ℕ
end_range = 1718099106 + 36000

abbrev pub in_range : ℕ → Bool
in_range t = leb 1718099106 t && ltb t end_range

-- What a buffer holds.
abbrev pub bytes_of : List ℕ → ℕ → ℕ
bytes_of buf i = get_or buf i 0

-- `buf` and `buf2` before the calls
abbrev pub first_buf : List ℕ
first_buf = 0xbb ∷ replicate 9 0 ++ (0xbb ∷ [])

abbrev pub second_buf : List ℕ
second_buf = 0xbb ∷ replicate 10 0 ++ (0xbb ∷ [])

module _ {S : Type 0} (os : System S) where
  -- Each part is a run of `main` from there on; `pid` and `ret` are the variables of these names.
  pub clock_gettime_part : (pid ret : ℕ) → S → Ran
  clock_gettime_part pid ret s =
      let answer = (os.clock_gettime s).0 in
      let ts : Timespec = answer.1 in
      let c =
        check (in_range ts.tv_sec) (complaint pid ": clock_gettime not in expected range" ∷ [])
          (unchecked ret) in
      if answer.0 == 0
      then says
          (line (codes "ts->tv_sec: " ++ signed_long ts.tv_sec)
            ∷ line (codes "ts->tv_nsec: " ++ signed_long ts.tv_nsec)
            ∷ c.said)
          (says
            (line (signed_decimal pid ++ (codes ": Return value: " ++ signed_decimal c.ret)) ∷ [])
            (ends c.ret))
      else says (perror (codes "clock_gettime") ∷ []) (ends exit_failure)

  pub time_part : (pid ret : ℕ) → S → Ran
  unfolding clock_gettime_part
  time_part pid ret s =
      let mytime = (os.time s).0.0 in
      let mytime_buf = (os.time s).0.1 in
      let c =
        check (mytime_buf == mytime)
          (complaint pid ": time_buf != time"
            ∷ line (codes "mytime_buf: " ++ signed_long mytime_buf)
            ∷ [])
          (unchecked ret) in
      let d =
        check (in_range mytime) (complaint pid ": time not in expected range" ∷ [])
          (unchecked c.ret) in
      if mytime == minus_one
      then says (perror (codes "time") ∷ []) (ends exit_failure)
      else says c.said (
          says (line (codes "mytime: " ++ signed_long mytime) ∷ d.said)
            (clock_gettime_part pid d.ret (os.time s).1))

  pub gettimeofday_part : (pid ret : ℕ) → S → Ran
  unfolding time_part
  gettimeofday_part pid ret s =
      let tv : Timeval = (os.gettimeofday s).0 in
      let c =
        check (in_range tv.tv_sec) (complaint pid ": gettimeofday not in expected range" ∷ [])
          (unchecked ret) in
      says
        (line (codes "tv->tv_sec: " ++ signed_long tv.tv_sec)
          ∷ line (codes "tv->tv_usec: " ++ signed_long tv.tv_usec)
          ∷ c.said)
        (time_part pid c.ret (os.gettimeofday s).1)

  -- `buf2` is printed and checked.
  pub second_bytes_part : (pid ret : ℕ) → (buf2 : ℕ → ℕ) → S → Ran
  unfolding gettimeofday_part
  second_bytes_part pid ret buf2 s =
      let c = check (buf2 0 == 0xbb) (complaint pid ": getrandom2[0] != 0xBB" ∷ []) (
        check (buf2 11 == 0xbb) (complaint pid ": getrandom2[11] != 0xBB" ∷ []) (
          check (buf2 2 == 0x22) (complaint pid ": getrandom2[2] != 0x22" ∷ []) (
            check (buf2 1 == 0x22) (complaint pid ": getrandom2[1] != 0x22" ∷ [])
              (unchecked ret)))) in
      says (line (codes "Buf2 bytes: 0x" ++ hex_bytes buf2 [] 0 12) ∷ c.said)
        (gettimeofday_part pid c.ret s)

  pub second_getrandom_part : (pid ret : ℕ) → S → Ran
  unfolding second_bytes_part
  second_getrandom_part pid ret s =
      let answer = os.getrandom second_buf 1 10 s in
      if answer.0.0 % 2 ^ 32 == int_minus_one
      then says (perror (codes "getrandom") ∷ []) (ends int_minus_one)
      else second_bytes_part pid ret (bytes_of answer.0.1) answer.1

  -- `buf` is printed and checked.
  pub first_bytes_part : (pid ret : ℕ) → (buf : ℕ → ℕ) → S → Ran
  unfolding second_getrandom_part
  first_bytes_part pid ret buf s =
      let c = check (buf 0 == 0xbb) (complaint pid ": getrandom[0] != 0xBB" ∷ []) (
        check (buf 10 == 0xbb) (complaint pid ": getrandom[99] != 0xBB" ∷ []) (
          check (buf 9 == 0x22) (complaint pid ": getrandom[2] != 0x22" ∷ []) (
            check (buf 1 == 0x22) (complaint pid ": getrandom[1] != 0x22" ∷ [])
              (unchecked ret)))) in
      says (line (codes "Buf1 bytes: 0x" ++ hex_bytes buf [] 0 11) ∷ c.said)
        (second_getrandom_part pid c.ret s)

  pub first_getrandom_part : (pid ret : ℕ) → S → Ran
  unfolding first_bytes_part
  first_getrandom_part pid ret s =
      let answer = os.getrandom first_buf 1 9 s in
      says (line (codes "==Before getrandom==") ∷ []) (
        if answer.0.0 % 2 ^ 32 == int_minus_one
        then says (perror (codes "getrandom") ∷ []) (ends int_minus_one)
        else first_bytes_part pid ret (bytes_of answer.0.1) answer.1)

  pub fork_part : S → Ran
  unfolding first_getrandom_part
  fork_part s =
      let forked = os.fork s in
      let pid = os.getpid forked.1 in
      says (line (codes "==Before fork==") ∷ []) (
        if forked.0 == int_minus_one
        then says (perror (codes "fork") ∷ []) (ends int_minus_one)
        else says
            (line (
                (if forked.0 == 0 then codes "Child process: " else codes "Parent process: ")
                ++ signed_decimal pid.0)
              ∷ [])
            (first_getrandom_part pid.0 0 pid.1))

  -- A result of `read` below 2^63 is not negative.
  pub read_part : (fd : ℕ) → S → Ran
  unfolding fork_part
  read_part fd s =
      let answer = os.read fd 16 s in
      if ltb answer.0.0 (2 ^ 63)
      then says
          (line (
              codes "Read "
              ++ (signed_long answer.0.0
                  ++ (codes " bytes from /dev/urandom: "
                      ++ hex_bytes (bytes_of answer.0.1) (b' ' ∷ []) 0 16)))
            ∷ [])
          (fork_part answer.1)
      else says (perror (codes "Failed to read from /dev/urandom") ∷ []) (ends exit_failure)

  pub open_part : S → Ran
  unfolding read_part
  open_part s =
      let answer = os.open_file (codes "/dev/urandom") s in
      if answer.0 == int_minus_one
      then says (line (codes "Failed to open /dev/urandom") ∷ perror (codes "open") ∷ [])
          (ends int_minus_one)
      else says (line (codes "/dev/urandom opened successfully") ∷ []) (read_part answer.0 answer.1)

  -- what the thread does
  pub print_message : S → S
  print_message s = (os.system (codes "date +%s") s).1

  pub join_part : S → Ran
  unfolding open_part
  join_part s = says (line (codes "Before join") ∷ []) (
      if (os.pthread_join s).0 == 0
      then says (line (codes "After join") ∷ []) (open_part (os.pthread_join s).1)
      else says (stderr (codes "Error joining thread" ++ 10 ∷ []) ∷ []) (ends 2))

  -- The arguments are as many as an int can count.
  pub main : (argv : List (List ℕ)) → S → Ran
  unfolding join_part
  main argv s =
      let pid = os.getpid s in
      let created = os.pthread_create print_message pid.1 in
      says (line (codes "==Start== pid " ++ signed_decimal pid.0) ∷ argv_lines 0 argv) (
        if leb (length argv) 1
        then (if created.0 == 0
            then join_part created.1
            else says (stderr (codes "Error creating thread" ++ 10 ∷ []) ∷ []) (ends 1))
        else open_part pid.1)
