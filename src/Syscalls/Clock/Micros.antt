-- ===== src/Syscalls/Clock/Micros.antt =====
-- What a program reads as microseconds, where `handle_syscall` has written a struct timespec.
use reproduce.Prelude.{
  ℕ, zero, suc, ◌+◌, ◌-◌, ◌/◌, ◌^◌, ◌<◌, ◌≤◌, ◌≡◌, refl, true, ◌∷◌, ◌∙◌, ap, ap₂, some, arith, leb,
  ltb, get_or, sym,
}
use reproduce.Prelude.Assoc
use reproduce.Prelude.Bytes.{from_le, to_le, byte_of}
use reproduce.Kernel.{Kernel, Regs}
use reproduce.Kernel.Laws.{View, Ptrace, AtEntry, Covers, overlay, bytes_at, word_at}
use reproduce.Uthash.{Uthash}
use reproduce.Tracer.{Timespec, ChildProcess, State}
use reproduce.Tracer.Outcome
use reproduce.Tracer.Outcome.{Returns}
use reproduce.Putils.Registers.{r_syscall, r_arg1}
use reproduce.HashTable.{first_time}
use reproduce.Syscalls.{nr_gettimeofday, timespec_bytes, handle_syscall}
use reproduce.Syscalls.Clock.{gettimeofday, handle_syscall-clock}
use reproduce.Syscalls.Clock.Times.{ticks, ticks-first_time}

from_le-to_le : (n x : ℕ) → x < 256 ^ n → from_le (to_le n x) ≡ x
from_le-to_le zero x h = omega arith
from_le-to_le (suc n) x h = let e = from_le-to_le n (x / 256) (omega arith) in omega arith

-- The second half of a struct timespec in memory is its nanoseconds.
overlay-nsec :
    (m : ℕ → ℕ) (d : ℕ) (t : Timespec) (j : ℕ)
    → j < 8
    → overlay m d (timespec_bytes t) (d + 8 + j) ≡ byte_of j t.tv_nsec
overlay-nsec m d t j h =
    let low : leb d (d + 8 + j) ≡ true = ground arith in
    let high : ltb (d + 8 + j) (d + 16) ≡ true = ground arith in
    let at : d + 8 + j - d ≡ 8 + j = omega arith in rw (low, high, at) (second j h)
  where
    second : (i : ℕ) → i < 8 → get_or (timespec_bytes t) (8 + i) 0 ≡ byte_of i t.tv_nsec
    second zero h = refl
    second (suc zero) h = refl
    second (suc (suc zero)) h = refl
    second (suc (suc (suc zero))) h = refl
    second (suc (suc (suc (suc zero)))) h = refl
    second (suc (suc (suc (suc (suc zero))))) h = refl
    second (suc (suc (suc (suc (suc (suc zero)))))) h = refl
    second (suc (suc (suc (suc (suc (suc (suc zero))))))) h = refl
    second (suc (suc (suc (suc (suc (suc (suc (suc i)))))))) h = absurd (omega arith)

module _ {W : Type 0} (v : View W) (w : W) (p : ℕ) where
  bytes_at-to_le :
      (n a x : ℕ)
      → ((j : ℕ) → j < n → v.byte w p (a + j) ≡ byte_of j x)
      → bytes_at v w p a n ≡ to_le n x
  bytes_at-to_le zero a x h = refl
  bytes_at-to_le (suc n) a x h =
      let first : a + 0 ≡ a = omega arith in
      ap₂ (λ b bs. b ∷ bs) (ap (λ (b : ℕ). v.byte w p b) (sym first) ∙ h 0 (omega arith))
        (bytes_at-to_le n (a + 1) (x / 256) (λ j lt.
          let next : a + 1 + j ≡ a + suc j = omega arith in
          ap (λ (b : ℕ). v.byte w p b) next ∙ h (suc j) (omega arith)))

module _ ⦃k : Kernel⦄ ⦃u : Uthash⦄ {v : View k.World} (laws : Ptrace v) (p child : ℕ)
    (c : ChildProcess) (regs : Regs) (s : State) (entry : AtEntry v p s.world)
    (here : Assoc.lookup child s.heap ≡ some c) where
  -- For a tracee that is stopped at the entry of `gettimeofday`, and not killed, with memory that
  -- nothing else writes to, before the exit, with a mapped address for the answer, and whose clock has
  -- been advanced n times from the first time, n below 2^62: `handle_syscall` returns, and the second
  -- word at the address, which is read as microseconds, is then 516453925 + n, that is not below 10^6.
  pub handle_syscall-usec :
      (n : ℕ)
      → n < 2 ^ 62
      → c.gettime_data ≡ ticks n first_time
      → c.pid ≡ p
      → r_syscall regs ≡ nr_gettimeofday
      → Covers v s.world p (r_arg1 regs) 16
      → Returns
          (λ _ s'.
            (word_at v s'.world p (r_arg1 regs + 8) ≡ 516453925 + n)
            × (1_000_000 ≤ word_at v s'.world p (r_arg1 regs + 8)))
          (handle_syscall child regs s)
  handle_syscall-usec n small told own number covers =
      let t : Timespec = c.gettime_data in
      let nsec : t.tv_nsec ≡ 516453925 + n =
        ap (λ (x : Timespec). x.tv_nsec)
          (told ∙ ticks-first_time n first_time (omega arith) (omega arith)) in
      Outcome.mono
        (handle_syscall-clock laws p child c regs s entry here gettimeofday own number
          (λ given. covers))
        (λ _ s' served.
          let read : word_at v s'.world p (r_arg1 regs + 8) ≡ 516453925 + n =
            ap from_le (
              bytes_at-to_le v s'.world p 8 (r_arg1 regs + 8) t.tv_nsec (λ j lt.
                served.at.held.byte (r_arg1 regs + 8 + j)
                ∙ overlay-nsec (v.byte s.world p) (r_arg1 regs) t j lt))
            ∙ from_le-to_le 8 t.tv_nsec (omega arith)
            ∙ nsec in
          (read, omega arith))
