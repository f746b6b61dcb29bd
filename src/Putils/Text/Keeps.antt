-- ===== src/Putils/Text/Keeps.antt =====
-- What `read_child_c_string` keeps, whatever the kernel replies.
use reproduce.Prelude.{
  ℕ, zero, suc, ◌+◌, ◌-◌, ◌%◌, ◌^◌, ◌==◌, ◌&&◌, Bool, not, ltb, List, ◌++◌, length, Option, none,
  some,
}
use reproduce.Prelude.Bytes.{to_le}
use reproduce.Kernel.{Kernel, minus_one, esrch}
use reproduce.Uthash.{Uthash}
use reproduce.Tracer.{State, request}
use reproduce.Tracer.Keeps.{
  KeepsOr, IsOwn, Keeps-if, Keeps-bind, Keeps-request, Keeps-pure, Keeps-stop, Keeps-fuel,
}
use reproduce.Putils.Text.{
  max_buffer_size, before_nul, bytes_read, is_last, read_words, read_rounds, read_child_c_string,
}

module _ ⦃k : Kernel⦄ ⦃u : Uthash⦄ {F : Type 0} {P : State → Type 0} (own : IsOwn P) where
  read_words-Keeps :
      (fuel raddr pid : ℕ) (buffer : List ℕ) (done : Bool)
      → KeepsOr F P (read_words fuel raddr pid buffer done)
  unfolding read_words
  read_words-Keeps zero raddr pid buffer done = Keeps-fuel (Option (List ℕ))
  read_words-Keeps (suc fuel) raddr pid buffer done =
      Keeps-if (not done && ltb (length buffer) (max_buffer_size - 1)) _ _
        (Keeps-bind (request (k.peekdata pid raddr)) _ (Keeps-request (k.peekdata pid raddr) own)
          λ result.
            Keeps-if (result.ret == minus_one) _ _
              (Keeps-if (result.errno == esrch) _ _ (Keeps-pure none) (Keeps-stop 1))
              (read_words-Keeps fuel
                ((raddr + length (bytes_read buffer (before_nul (to_le 8 result.ret)))) % 2 ^ 64)
                pid (buffer ++ bytes_read buffer (before_nul (to_le 8 result.ret)))
                (is_last buffer (before_nul (to_le 8 result.ret)))))
        (Keeps-pure (some buffer))

  pub read_child_c_string-Keeps : (raddr pid : ℕ) → KeepsOr F P (read_child_c_string raddr pid)
  unfolding read_child_c_string
  read_child_c_string-Keeps raddr pid = read_words-Keeps read_rounds raddr pid _ _
