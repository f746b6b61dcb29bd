-- ===== src/Sample/Examples/Program.antt =====
-- The test program under a system that is nothing but the clock of the tracer.
use reproduce.Prelude.{
  ℕ, ◌+◌, ◌≡◌, ◌⊎◌, Bool, refl, inl, ◌∙◌, List, [], ◌∷◌, ◌&&◌, leb, ltb, if◌then◌else◌, get_or,
  arith, zero, suc, length, ◌≤◌, ◌%◌, ◌^◌,
}
use reproduce.Prelude.Bytes.{codes}
use reproduce.Tracer.{Timespec}
use reproduce.HashTable.{first_time}
use reproduce.Syscalls.{tick}
use reproduce.Printrandom.{main}
use reproduce.Printrandom.Calls.{System}
use reproduce.Printrandom.Passes.{main-transcript}
use reproduce.Printrandom.UnderTracer.{Traced}
use reproduce.Printrandom.Transcript.{transcript}

-- A buffer with some bytes from an offset on made 0x22.
abbrev fill : (buf : List ℕ) (offset size i : ℕ) → List ℕ
fill [] offset size i = []
fill (b ∷ buf) offset size i =
    (if leb offset i && ltb i (offset + size) then 0x22 else b) ∷ fill buf offset size (i + 1)

abbrev clockwork : System Timespec
clockwork = record {
  system = λ command t. (0, t);
  pthread_create = λ start t. (0, start t);
  pthread_join = λ t. (0, t);
  open_file = λ path t. (3, t);
  read = λ fd size t. ((size % 2 ^ 63, []), t);
  getpid = λ t. (7, t);
  fork = λ t. (8, t);
  getrandom = λ buf offset size t. ((size, fill buf offset size 0), t);
  gettimeofday = λ t. (record { tv_sec = t.tv_sec; tv_usec = t.tv_nsec }, tick t);
  time = λ t. (((tick t).tv_sec, (tick t).tv_sec), tick t);
  clock_gettime = λ t. ((0, t), tick t);
}

get_or-fill :
    (buf : List ℕ) (offset size j i : ℕ)
    → offset + size ≤ j + length buf
    → get_or (fill buf offset size j) i 0
      ≡ (if leb offset (j + i) && ltb (j + i) (offset + size) then 0x22 else get_or buf i 0)
get_or-fill [] offset size j i h = ground arith
get_or-fill (b ∷ buf) offset size j zero h = let e : j + zero ≡ j = omega arith in rw e refl
get_or-fill (b ∷ buf) offset size j (suc i) h =
    let e : j + suc i ≡ j + 1 + i = omega arith in
    rw e (get_or-fill buf offset size (j + 1) i (omega arith))

clockwork-Traced : Traced clockwork (λ t. t)
clockwork-Traced = record {
  system = λ command t. refl;
  pthread_create = λ start t keeps. (refl, keeps t);
  pthread_join = λ t. (refl, refl);
  open_file = λ path t. (omega arith, refl);
  read = λ fd size t. (omega arith, refl);
  getpid = λ t. refl;
  fork = λ t. (omega arith, inl refl);
  getrandom = λ buf offset size t h. (
    refl,
    λ i.
        let e : 0 + i ≡ i = omega arith in
        get_or-fill buf offset size 0 i (omega arith) ∙ rw e refl,
    refl,
  );
  gettimeofday = λ t. (refl, refl, refl);
  time = λ t. (refl, refl, refl);
  clock_gettime = λ t. (refl, refl, refl);
}

-- printrandom, with no arguments
abbrev words : List (List ℕ)
words = codes "printrandom" ∷ []

main-transcript_example :
    (count : ℕ) × (bytes : ℕ → ℕ) × (is_child : Bool) × (pid : ℕ) × (t : Timespec) × ((t
        ≡ first_time)
      ⊎ (t ≡ first_time))
    × (main clockwork words first_time
        ≡ record { written = transcript words 7 count bytes is_child pid t; status = 0 })
main-transcript_example =
    main-transcript clockwork-Traced words first_time (omega arith) (omega arith)
