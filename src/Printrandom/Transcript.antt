-- ===== src/Printrandom/Transcript.antt =====
-- What the test program of reproduce/src/printrandom.c is to print under the tracer, on one side of
-- its fork.
use Prim.Native.String.{String}
use reproduce.Prelude.{ℕ, Bool, List, [], ◌∷◌, ◌++◌, leb, length, if◌then◌else◌}
use reproduce.Prelude.Bytes.{codes}
use reproduce.Prelude.Decimal.{decimal, signed_decimal}
use reproduce.Tracer.{Timespec}
use reproduce.Syscalls.{tick}
use reproduce.Printrandom.Output.{Written, Ran, line, signed_long, hex_bytes, argv_lines}

-- What is printed when `main` goes well returns 0.
abbrev pub passes : List Written → Ran
passes ws = record { written = ws; status = 0 }

abbrev said : String → Written
said text = line (codes text)

-- The clock when the times are asked for is t; the `time` call tells it one tick later.
abbrev pub clock_gettime_lines : (pid : ℕ) (t : Timespec) → List Written
clock_gettime_lines pid t =
    line (codes "ts->tv_sec: " ++ signed_long t.tv_sec)
    ∷ line (codes "ts->tv_nsec: " ++ signed_long t.tv_nsec)
    ∷ line (signed_decimal pid ++ (codes ": Return value: " ++ signed_decimal 0))
    ∷ []

abbrev pub time_lines : (pid : ℕ) (t : Timespec) → List Written
time_lines pid t =
    line (codes "mytime: " ++ signed_long (tick t).tv_sec) ∷ clock_gettime_lines pid (tick t)

abbrev pub gettimeofday_lines : (pid : ℕ) (t : Timespec) → List Written
gettimeofday_lines pid t =
    line (codes "tv->tv_sec: " ++ signed_long t.tv_sec)
    ∷ line (codes "tv->tv_usec: " ++ signed_long t.tv_nsec)
    ∷ time_lines pid (tick t)

abbrev pub second_getrandom_lines : (pid : ℕ) (t : Timespec) → List Written
second_getrandom_lines pid t =
    said "Buf2 bytes: 0xbb22222222222222222222bb" ∷ gettimeofday_lines pid t

abbrev pub first_getrandom_lines : (pid : ℕ) (t : Timespec) → List Written
first_getrandom_lines pid t =
    said "==Before getrandom=="
    ∷ said "Buf1 bytes: 0xbb222222222222222222bb"
    ∷ second_getrandom_lines pid t

-- `pid` is the process on this side of the fork, `t` its clock.
abbrev pub fork_lines : (is_child : Bool) (pid : ℕ) (t : Timespec) → List Written
fork_lines is_child pid t =
    said "==Before fork=="
    ∷ line (
        (if is_child then codes "Child process: " else codes "Parent process: ")
        ++ signed_decimal pid)
    ∷ first_getrandom_lines pid t

-- The bytes of the device, which the program reads and does not check.
abbrev pub read_line : (count : ℕ) (bytes : ℕ → ℕ) → Written
read_line count bytes = line (
    codes "Read "
    ++ (decimal count ++ (codes " bytes from /dev/urandom: " ++ hex_bytes bytes (b' ' ∷ []) 0 16)))

abbrev pub open_lines :
    (count : ℕ) (bytes : ℕ → ℕ) (is_child : Bool) (pid : ℕ) (t : Timespec) → List Written
open_lines count bytes is_child pid t =
    said "/dev/urandom opened successfully" ∷ read_line count bytes ∷ fork_lines is_child pid t

-- `first_pid` is the process that was started.
abbrev pub transcript :
    (argv : List (List ℕ)) (first_pid count : ℕ) (bytes : ℕ → ℕ) (is_child : Bool) (pid : ℕ)
    (t : Timespec)
    → List Written
transcript argv first_pid count bytes is_child pid t =
    line (codes "==Start== pid " ++ signed_decimal first_pid)
    ∷ (argv_lines 0 argv
        ++ (if leb (length argv) 1
            then said "Before join" ∷ said "After join" ∷ open_lines count bytes is_child pid t
            else open_lines count bytes is_child pid t))
