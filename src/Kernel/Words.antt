-- ===== src/Kernel/Words.antt =====
-- The bytes of the words that `ptrace` reads.
use reproduce.Prelude.{ℕ, zero, suc, ◌+◌, ◌<◌, ◌≡◌, ◌∙◌, ap, get_or, arith}
use reproduce.Prelude.Bytes.{to_le, byte_of, AreBytes, to_le-from_le, byte_of-from_le}
use reproduce.Kernel.{Kernel}
use reproduce.Kernel.Laws.{View, Ptrace, bytes_at, word_at}

module _ ⦃k : Kernel⦄ {v : View k.World} (laws : Ptrace v) (w : k.World) (p : ℕ) where
  pub bytes_at-AreBytes : (a n : ℕ) → AreBytes (bytes_at v w p a n)
  bytes_at-AreBytes a zero = tt
  bytes_at-AreBytes a (suc n) = (laws.byte-lt w p a, bytes_at-AreBytes (a + 1) n)

  pub get_or-bytes_at : (a n j : ℕ) → j < n → get_or (bytes_at v w p a n) j 0 ≡ v.byte w p (a + j)
  get_or-bytes_at a zero j h = elim h [ ]
  get_or-bytes_at a (suc n) zero h =
      let e : a ≡ a + zero = omega arith in ap (λ (b : ℕ). v.byte w p b) e
  get_or-bytes_at a (suc n) (suc j) h =
      let e : a + 1 + j ≡ a + suc j = omega arith in
      get_or-bytes_at (a + 1) n j (omega arith) ∙ ap (λ (b : ℕ). v.byte w p b) e

  -- Taken apart, a word is the eight bytes from its address on.
  pub to_le-word_at : (a : ℕ) → to_le 8 (word_at v w p a) ≡ bytes_at v w p a 8
  to_le-word_at a = to_le-from_le (bytes_at v w p a 8) (bytes_at-AreBytes a 8)

  pub byte_of-word_at : (a j : ℕ) → j < 8 → byte_of j (word_at v w p a) ≡ v.byte w p (a + j)
  byte_of-word_at a j h =
      byte_of-from_le j (bytes_at v w p a 8) (bytes_at-AreBytes a 8) ∙ get_or-bytes_at a 8 j h
