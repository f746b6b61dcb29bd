-- ===== src/Putils/Text/Readable.antt =====
-- Where `read_child_c_string` finds a string that it can read.
use reproduce.Prelude.{
  fun_ext, ℕ, zero, suc, ◌+◌, ◌*◌, ◌-◌, ◌≤◌, ◌<◌, ◌≡◌, refl, ◌≢◌, true, length, ◌∙◌, ap, sym, subst,
}
use reproduce.Prelude.Bytes.{from_le}
use reproduce.Kernel.{minus_one}
use reproduce.Kernel.Laws.{View, SameMemory, word_at, bytes_at}
use reproduce.Putils.Text.Strings.{string_at}
use reproduce.Putils.Text.{max_buffer_size}

-- Each word that holds a byte of the string or its end can be read, and is not all ones.
abbrev pub Readable : {W : Type 0} → View W → W → (p a : ℕ) → Type 0
Readable v w p a =
    (n : ℕ)
    → 8 * n < max_buffer_size - 1
    → 8 * n ≤ length (string_at (v.byte w p) a (max_buffer_size - 1))
    → (v.mapped w p (a + 8 * n) ≡ true) × (word_at v w p (a + 8 * n) ≢ minus_one)

module _ {W : Type 0} (v : View W) (p : ℕ) (w w' : W) where
  pub bytes_at-SameMemory :
      (b n : ℕ) → SameMemory v p w w' → bytes_at v w' p b n ≡ bytes_at v w p b n
  bytes_at-SameMemory b zero h = refl
  bytes_at-SameMemory b (suc n) h = rw (h.byte b, bytes_at-SameMemory (b + 1) n h)

  pub Readable-SameMemory : (a : ℕ) → SameMemory v p w w' → Readable v w p a → Readable v w' p a
  Readable-SameMemory a h readable n lt within =
      let (there, clear) = readable n lt (
        subst (λ (m : ℕ → ℕ). 8 * n ≤ length (string_at m a (max_buffer_size - 1))) (fun_ext h.byte)
          within) in
      (
        h.mapped (a + 8 * n) ∙ there,
        λ e. clear (sym (ap from_le (bytes_at-SameMemory (a + 8 * n) 8 h)) ∙ e),
      )
