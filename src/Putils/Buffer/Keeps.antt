-- ===== src/Putils/Buffer/Keeps.antt =====
-- What `replace_buf` keeps, whatever the kernel replies.
use reproduce.Prelude.{ℕ, zero, suc, List, leb, length, ◌+◌}
use reproduce.Kernel.{Kernel}
use reproduce.Uthash.{Uthash}
use reproduce.Tracer.{State, Cmd}
use reproduce.Tracer.Keeps.{KeepsOr, IsOwn, Keeps-if, Keeps-ptrace_return, Keeps-fuel, keeps_rules}
use reproduce.Putils.Buffer.{address, load_word, replace_words, replace_rest, replace_buf}

module _ ⦃k : Kernel⦄ ⦃u : Uthash⦄ {F : Type 0} {P : State → Type 0} (own : IsOwn P) where
  replace_words-Keeps :
      (fuel pid : ℕ) (src : List ℕ) (dest i : ℕ) (rest : ℕ → Cmd (Unit {0}))
      → ((j : ℕ) → KeepsOr F P (rest j))
      → KeepsOr F P (replace_words fuel pid src dest i rest)
  unfolding replace_words
  replace_words-Keeps zero pid src dest i rest kr = Keeps-fuel Unit
  replace_words-Keeps (suc fuel) pid src dest i rest kr =
      Keeps-if (leb (i + 8) (length src)) _ _
        (Keeps-ptrace_return (k.pokedata pid (address dest i) (load_word src i)) tt _ own
          (replace_words-Keeps fuel pid src dest (i + 8) rest kr))
        (kr i)

  replace_rest-Keeps :
      (pid : ℕ) (src : List ℕ) (dest i : ℕ) → KeepsOr F P (replace_rest pid src dest i)
  unfolding replace_rest
  replace_rest-Keeps pid src dest i = search keeps_rules depth 8

  pub replace_buf-Keeps :
      (pid : ℕ) (src : List ℕ) (dest : ℕ) → KeepsOr F P (replace_buf pid src dest)
  unfolding replace_buf
  replace_buf-Keeps pid src dest =
      replace_words-Keeps (suc (length src)) pid src dest 0 (replace_rest pid src dest)
        (replace_rest-Keeps pid src dest)
