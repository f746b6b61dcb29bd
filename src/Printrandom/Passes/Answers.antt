-- ===== src/Printrandom/Passes/Answers.antt =====
-- The part of the test program behind its fork, under a system that answers like the tracer.
use reproduce.Prelude.{fun_ext, refl, [], ◌∷◌, ◌++◌, ℕ, ◌+◌, ◌≡◌, true, false, ◌==◌, arith, ap, ◌∙◌}
use reproduce.Prelude.Bytes.{codes}
use reproduce.Kernel.{minus_one}
use reproduce.Tracer.{Timespec}
use reproduce.Syscalls.{tick}
use reproduce.Syscalls.Random.{filled}
use reproduce.Printrandom.Output.{says, line, signed_long}
use reproduce.Printrandom.Transcript.{
  passes, clock_gettime_lines, time_lines, gettimeofday_lines, second_getrandom_lines,
  first_getrandom_lines,
}
use reproduce.Printrandom.{
  bytes_of, second_bytes_part, first_bytes_part, first_buf, second_buf, in_range,
  clock_gettime_part, time_part, gettimeofday_part, second_getrandom_part, first_getrandom_part,
}
use reproduce.Printrandom.Calls.{System}
use reproduce.Printrandom.UnderTracer.{Traced, LeavesRoom}

module _ {S : Type 0} {os : System S} {clock : S → Timespec} (traced : Traced os clock) where
  clock_gettime_part-passes :
      (pid : ℕ) (s : S)
      → LeavesRoom 0 (clock s)
      → clock_gettime_part os pid 0 s ≡ passes (clock_gettime_lines pid (clock s))
  unfolding clock_gettime_part
  clock_gettime_part-passes pid s (lo, hi) =
      let (r, t, c) = traced.clock_gettime s in
      let fits : in_range (clock s).tv_sec ≡ true = ground arith in rw (r, t, fits) refl

  time_part-passes :
      (pid : ℕ) (s : S)
      → LeavesRoom 1 (clock s)
      → time_part os pid 0 s ≡ passes (time_lines pid (clock s))
  unfolding time_part
  time_part-passes pid s (lo, hi) =
      let (r, b, c) = traced.time s in
      let next : (tick (clock s)).tv_sec ≡ (clock s).tv_sec + 1 = omega arith in
      let sec : (clock (os.time s).1).tv_sec ≡ (clock s).tv_sec + 1 =
        ap (λ (t : Timespec). t.tv_sec) c ∙ next in
      let fits : in_range (tick (clock s)).tv_sec ≡ true = ground arith in
      let same : ((tick (clock s)).tv_sec == (tick (clock s)).tv_sec) ≡ true = ground arith in
      let other : ((tick (clock s)).tv_sec == minus_one) ≡ false = ground arith in
      rw (r, b, other, fits, same)
        (ap (λ x. says (line (codes "mytime: " ++ signed_long (tick (clock s)).tv_sec) ∷ []) x)
          (clock_gettime_part-passes pid (os.time s).1 (omega arith, omega arith) ∙ rw c refl))

  gettimeofday_part-passes :
      (pid : ℕ) (s : S)
      → LeavesRoom 2 (clock s)
      → gettimeofday_part os pid 0 s ≡ passes (gettimeofday_lines pid (clock s))
  unfolding gettimeofday_part
  gettimeofday_part-passes pid s (lo, hi) =
      let (r, usec, c) = traced.gettimeofday s in
      let sec : (clock (os.gettimeofday s).1).tv_sec ≡ (clock s).tv_sec + 1 =
        ap (λ (t : Timespec). t.tv_sec) c ∙ omega arith in
      let fits : in_range (clock s).tv_sec ≡ true = ground arith in
      rw (r, usec, fits, time_part-passes pid (os.gettimeofday s).1 (omega arith, omega arith), c)
        refl

  second_bytes_part-passes :
      (pid : ℕ) (s : S)
      → LeavesRoom 2 (clock s)
      → second_bytes_part os pid 0 (filled 0x22 (bytes_of second_buf) 1 10) s
        ≡ passes (second_getrandom_lines pid (clock s))
  unfolding second_bytes_part
  second_bytes_part-passes pid s room =
      ap (says (line (codes "Buf2 bytes: 0xbb22222222222222222222bb") ∷ []))
        (gettimeofday_part-passes pid s room)

  second_getrandom_part-passes :
      (pid : ℕ) (s : S)
      → LeavesRoom 2 (clock s)
      → second_getrandom_part os pid 0 s ≡ passes (second_getrandom_lines pid (clock s))
  unfolding second_getrandom_part
  second_getrandom_part-passes pid s room =
      let (r, b, c) = traced.getrandom second_buf 1 10 s (omega arith) in
      let same : bytes_of (os.getrandom second_buf 1 10 s).0.1
          ≡ filled 0x22 (bytes_of second_buf) 1 10 =
        fun_ext b in
      let s1 = (os.getrandom second_buf 1 10 s).1 in
      rw r (
        ap (λ m. second_bytes_part os pid 0 m s1) same
        ∙ second_bytes_part-passes pid s1 (rw c room)
        ∙ rw c refl)

  first_bytes_part-passes :
      (pid : ℕ) (s : S)
      → LeavesRoom 2 (clock s)
      → says
          (line (codes "==Before getrandom==") ∷ [])
          (first_bytes_part os pid 0 (filled 0x22 (bytes_of first_buf) 1 9) s)
        ≡ passes (first_getrandom_lines pid (clock s))
  unfolding first_bytes_part
  first_bytes_part-passes pid s room =
      ap
        (says (
          line (codes "==Before getrandom==")
          ∷ line (codes "Buf1 bytes: 0xbb222222222222222222bb")
          ∷ []))
        (second_getrandom_part-passes pid s room)

  pub first_getrandom_part-passes :
      (pid : ℕ) (s : S)
      → LeavesRoom 2 (clock s)
      → first_getrandom_part os pid 0 s ≡ passes (first_getrandom_lines pid (clock s))
  unfolding first_getrandom_part
  first_getrandom_part-passes pid s room =
      let (r, b, c) = traced.getrandom first_buf 1 9 s (omega arith) in
      let same : bytes_of (os.getrandom first_buf 1 9 s).0.1
          ≡ filled 0x22 (bytes_of first_buf) 1 9 =
        fun_ext b in
      let s1 = (os.getrandom first_buf 1 9 s).1 in
      rw r (
        ap (λ m. says (line (codes "==Before getrandom==") ∷ []) (first_bytes_part os pid 0 m s1))
          same
        ∙ first_bytes_part-passes pid s1 (rw c room)
        ∙ rw c refl)
