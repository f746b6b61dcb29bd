-- ===== src/Putils/Text/Safe.antt =====
-- What reads a string of a process that is there does not get NULL.
use reproduce.Prelude.{
  ℕ, zero, suc, ◌≡◌, Bool, false, ◌&&◌, not, ◌==◌, ltb, List, ◌++◌, length, Option, some,
  Bool-cases, inl, inr, arith, ◌%◌, ◌^◌, ◌+◌, ◌-◌,
}
use reproduce.Prelude.Bytes.{to_le}
use reproduce.Kernel.{Kernel, minus_one, esrch}
use reproduce.Kernel.Stays.{StaysThere}
use reproduce.Uthash.{Uthash}
use reproduce.Tracer.{State, Cmd, ◌>>=◌}
use reproduce.Tracer.Keeps.{IsOwn, Safe}
use reproduce.Tracer.Macros.{in_world}
use reproduce.Putils.Text.{
  max_buffer_size, before_nul, bytes_read, is_last, read_words, read_rounds, read_child_c_string,
}

module _ ⦃k : Kernel⦄ ⦃u : Uthash⦄ (stays : StaysThere k) where
  module _ {P : State → Type 0} (own : IsOwn P) where
    read_words-then :
        (fuel raddr pid : ℕ) (buffer : List ℕ) (done : Bool) (f : Option (List ℕ) → Cmd (Unit {0}))
        → ((path : List ℕ) → Safe P (f (some path)))
        → Safe P (read_words fuel raddr pid buffer done >>= f)
    unfolding read_words
    read_words-then zero raddr pid buffer done f kf = record { at = λ s h. tt }
    read_words-then (suc fuel) raddr pid buffer done f kf = record {
      at = λ s h.
          let w = (k.peekdata pid raddr s.world).1 in
          let reply = (k.peekdata pid raddr s.world).0 in
          let there = stays.peekdata pid raddr s.world in
          let moved = own.move s w h in
          elim (Bool-cases (not done && ltb (length buffer) (max_buffer_size - 1))) [
            | inr over ↦ rw over ((kf buffer).at s h)
            | inl more ↦ elim (Bool-cases (reply.ret == minus_one)) [
              | inr word ↦
                  rw (more, word)
                    ((read_words-then fuel
                        ((raddr + length (bytes_read buffer (before_nul (to_le 8 reply.ret))))
                          % 2 ^ 64)
                        pid (buffer ++ bytes_read buffer (before_nul (to_le 8 reply.ret)))
                        (is_last buffer (before_nul (to_le 8 reply.ret))) f kf).at
                      (in_world s w) moved)
              | inl error ↦
                  let other : (reply.errno == esrch) ≡ false = ground (arith, there) in
                  rw (more, error, other) moved
            ]
          ];
    }

    pub read_string-then :
        (raddr pid : ℕ) (f : Option (List ℕ) → Cmd (Unit {0}))
        → ((path : List ℕ) → Safe P (f (some path)))
        → Safe P (read_child_c_string raddr pid >>= f)
    unfolding read_child_c_string
    read_string-then raddr pid f kf = read_words-then read_rounds raddr pid _ _ f kf
