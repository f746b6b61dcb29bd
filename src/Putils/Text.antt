-- ===== src/Putils/Text.antt =====
-- `read_child_c_string` of reproduce/src/putils.c: reading a string from the memory of a tracee.
pub mod Readable
pub mod Reads
pub mod Keeps
pub mod Safe
pub mod Strings
pub mod Failures
use reproduce.Prelude.{
  ℕ, zero, suc, ◌+◌, ◌-◌, ◌%◌, ◌^◌, Bool, true, false, ◌&&◌, ◌||◌, not, List, [], ◌∷◌, ◌++◌, ltb,
  leb, ◌==◌, if◌then◌else◌, length, take, Option, none, some,
}
use reproduce.Prelude.Bytes.{to_le}
use reproduce.Kernel.{Kernel, Reply, minus_one, esrch, exit_failure}
use reproduce.Uthash.{Uthash}
use reproduce.Tracer.{Cmd, pure, stop, out_of_fuel, ◌>>=◌, request}

abbrev pub max_buffer_size : ℕ
max_buffer_size = 1024

-- `strnlen(p, length p)`, with the bytes that it counts: those before the first 0.
pub before_nul : List ℕ → List ℕ
before_nul [] = []
before_nul (b ∷ bs) = if b == 0 then [] else b ∷ before_nul bs

-- The check on the room in the buffer for the bytes of a word.
abbrev pub is_full : List ℕ → List ℕ → Bool
is_full buffer p = leb (max_buffer_size - 1) (length buffer + length p)

-- The bytes that are copied to the buffer.
abbrev pub bytes_read : List ℕ → List ℕ → List ℕ
bytes_read buffer p = if is_full buffer p then take (max_buffer_size - 1 - length buffer) p else p

-- `done`: the word holds a 0, or the buffer is full.
abbrev pub is_last : List ℕ → List ℕ → Bool
is_last buffer p = not (length p == 8) || is_full buffer p

module _ ⦃k : Kernel⦄ ⦃u : Uthash⦄ where
  -- The loop. `buffer` is what the static buffer holds so far, so `length` is its length, and the
  -- string that the caller sees at the end. `none` stands for NULL.
  pub read_words :
      (fuel : ℕ) → (raddr child_pid : ℕ) → (buffer : List ℕ) → (done : Bool) → Cmd (Option (List ℕ))
  unfolding before_nul
  read_words zero raddr child_pid buffer done = λ _. out_of_fuel
  read_words (suc fuel) raddr child_pid buffer done =
      if not done && ltb (length buffer) (max_buffer_size - 1)
      then (do
        result ← request (k.peekdata child_pid raddr)
        if result.ret == minus_one
            then (if result.errno == esrch then pure none else stop exit_failure)
            else (let p = before_nul (to_le 8 result.ret) in
                read_words fuel ((raddr + length (bytes_read buffer p)) % 2 ^ 64) child_pid
                  (buffer ++ bytes_read buffer p) (is_last buffer p)))
      else pure (some buffer)

  -- Every round but the last reads eight bytes.
  abbrev pub read_rounds : ℕ
  read_rounds = 129

  pub read_child_c_string : (raddr child_pid : ℕ) → Cmd (Option (List ℕ))
  read_child_c_string raddr child_pid = read_words read_rounds raddr child_pid [] false
