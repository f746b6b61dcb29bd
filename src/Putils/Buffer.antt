-- ===== src/Putils/Buffer.antt =====
-- `replace_buf` of reproduce/src/putils.c: writing a buffer to the memory of a tracee, a word at a time.
pub mod Wholes
pub mod Overlay
pub mod Failures
pub mod Keeps
use reproduce.Prelude.{
  ℕ, zero, suc, ◌+◌, ◌%◌, ◌^◌, Bool, ◌&&◌, not, List, [], ◌∷◌, ◌++◌, ltb, leb, ◌==◌, if◌then◌else◌,
  length, get_or, take, drop, Option, none, some,
}
use reproduce.Prelude.Bytes.{from_le, to_le}
use reproduce.Kernel.{Kernel, Reply, minus_one, esrch, exit_failure}
use reproduce.Uthash.{Uthash}
use reproduce.Tracer.{
  Cmd, pure, stop, out_of_fuel, ◌>>=◌, ◌>>◌, request, check_reply, ptrace_return,
}

-- an address, computed in an unsigned long
abbrev pub address : ℕ → ℕ → ℕ
address base i = (base + i) % 2 ^ 64

-- `*(unsigned long *)(src + i)`
abbrev pub load_word : List ℕ → ℕ → ℕ
load_word src i = from_le (take 8 (drop i src))

-- The loop over the bytes of the last word: byte j is `src[i + j]` if that is in the buffer.
pub merge_tail : (j : ℕ) → (rounds : ℕ) → (word : List ℕ) → (src : List ℕ) → (i : ℕ) → List ℕ
merge_tail j zero word src i = []
merge_tail j (suc n) word src i =
    (if ltb (i + j) (length src) then get_or src (i + j) 0 else get_or word j 0)
    ∷ merge_tail (suc j) n word src i

module _ ⦃k : Kernel⦄ ⦃u : Uthash⦄ where
  -- The first loop, from i on; what is left of the function, `rest`, is given the final i.
  pub replace_words :
      (fuel pid : ℕ) → (src : List ℕ) → (dest i : ℕ) → (ℕ → Cmd (Unit {0})) → Cmd (Unit {0})
  unfolding ptrace_return
  replace_words zero pid src dest i rest = λ _. out_of_fuel
  replace_words (suc fuel) pid src dest i rest =
      if leb (i + 8) (length src)
      then ptrace_return (k.pokedata pid (address dest i) (load_word src i)) tt
          (λ s. replace_words fuel pid src dest (i + 8) rest s)
      else rest i

  pub replace_rest : (pid : ℕ) → (src : List ℕ) → (dest i : ℕ) → Cmd (Unit {0})
  unfolding ptrace_return merge_tail
  replace_rest pid src dest i =
      if ltb i (length src)
      then (do
        word ← request (k.peekdata pid (address dest i))
        if (word.ret == minus_one) && not (word.errno == 0)
            then (if word.errno == esrch then pure tt else stop exit_failure)
            else ptrace_return
                (k.pokedata pid (address dest i)
                  (from_le (merge_tail 0 8 (to_le 8 word.ret) src i)))
                tt (pure tt))
      else pure tt

  -- `replace_buf(pid, src, dest, length src)`
  pub replace_buf : (pid : ℕ) → (src : List ℕ) → (dest : ℕ) → Cmd (Unit {0})
  unfolding replace_words replace_rest
  replace_buf pid src dest =
      replace_words (suc (length src)) pid src dest 0 (replace_rest pid src dest)
