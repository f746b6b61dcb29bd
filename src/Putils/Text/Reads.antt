-- ===== src/Putils/Text/Reads.antt =====
-- The string that `read_child_c_string` finds in a readable memory.
use reproduce.Prelude.{
  ℕ, zero, suc, ◌+◌, ◌*◌, ◌-◌, ◌%◌, ◌^◌, ◌≤◌, ◌<◌, ◌≡◌, refl, ◌≢◌, Bool, true, false, ◌||◌, not,
  List, [], ◌++◌, ltb, leb, ◌==◌, if◌then◌else◌, length, take, Option, some, arith, ◌∙◌, ap, sym,
  subst, Bool-cases, inl, inr, length-append,
}
use reproduce.Prelude.Bytes.{from_le, to_le}
use reproduce.Kernel.{Kernel, minus_one}
use reproduce.Kernel.Laws.{View, Ptrace, AtEntry, SameMemory, word_at, bytes_at}
use reproduce.Kernel.Words.{to_le-word_at}
use reproduce.Uthash.{Uthash}
use reproduce.Tracer.{State, ok}
use reproduce.Tracer.Outcome.{Returns, returns, SameTables}
use reproduce.Tracer.Macros.{in_world}
use reproduce.Putils.Text.Strings.{
  string_at, length-string_at, take-string_at, string_at_stop, string_at-append,
  le-length-string_at,
}
use reproduce.Putils.Text.Readable.{Readable, bytes_at-SameMemory}
use reproduce.Putils.Text.{
  max_buffer_size, is_full, bytes_read, is_last, before_nul, read_words, read_rounds,
  read_child_c_string,
}

module _ ⦃k : Kernel⦄ ⦃u : Uthash⦄ {v : View k.World} (laws : Ptrace v) (p a : ℕ) (s0 : State) where
  abbrev pub m : ℕ → ℕ
  m = v.byte s0.world p

  abbrev pub text : List ℕ
  text = string_at m a (max_buffer_size - 1)

  abbrev IsReadable : Type 0
  IsReadable = Readable v s0.world p a

  pub record Unchanged (s : State) : Type 0 where
    pub same : SameTables s0 s
    pub kept : SameMemory v p s0.world s.world
    pub regs : v.regs s.world p ≡ v.regs s0.world p
    pub entry : AtEntry v p s0.world → AtEntry v p s.world

  before_nul-bytes_at :
      (w : k.World) (b n : ℕ)
      → SameMemory v p s0.world w
      → before_nul (bytes_at v w p b n) ≡ string_at m b n
  unfolding before_nul string_at
  before_nul-bytes_at w b zero h = refl
  before_nul-bytes_at w b (suc n) h = rw (h.byte b, before_nul-bytes_at w (b + 1) n h)

  text_split :
      (n : ℕ) (buffer : List ℕ)
      → 8 * n < max_buffer_size - 1
      → buffer ≡ string_at m a (8 * n)
      → length buffer ≡ 8 * n
      → text ≡ buffer ++ string_at m (a + 8 * n) (max_buffer_size - 1 - 8 * n)
  text_split n buffer lt e l =
      let r : ℕ = max_buffer_size - 1 - 8 * n in
      let er : max_buffer_size - 1 ≡ 8 * n + r = omega arith in
      let full : length (string_at m a (8 * n)) ≡ 8 * n = ap (length {A = ℕ}) (sym e) ∙ l in
      ap (string_at m a) er
      ∙ string_at-append m a (8 * n) r full
      ∙ ap (λ (t : List ℕ). t ++ string_at m (a + 8 * n) r) (sym e)

  -- Where the loop stops, the buffer and what was read last are the whole string.
  last_read :
      (n : ℕ) (buffer : List ℕ) (full : Bool)
      → 8 * n < max_buffer_size - 1
      → buffer ≡ string_at m a (8 * n)
      → length buffer ≡ 8 * n
      → let chunk = string_at m (a + 8 * n) 8 in
        leb (max_buffer_size - 1) (length buffer + length chunk) ≡ full
        → (not (length chunk == 8) || full) ≡ true
        → buffer ++ (if full then take (max_buffer_size - 1 - length buffer) chunk else chunk)
          ≡ text
  last_read n buffer true lt e l full done =
      let bound = length-string_at m (a + 8 * n) 8 in
      rw (l, take-string_at m (a + 8 * n) (max_buffer_size - 1 - 8 * n) 8 (ground arith))
        (sym (text_split n buffer lt e l))
  last_read n buffer false lt e l full done =
      let bound = length-string_at m (a + 8 * n) 8 in
      rw
        (sym (
          string_at_stop m (a + 8 * n) 8 (max_buffer_size - 1 - 8 * n) (ground arith)
            (ground arith)))
        (sym (text_split n buffer lt e l))

  read_words_done :
      (fuel raddr : ℕ) (buffer : List ℕ) (s : State)
      → read_words (suc fuel) raddr p buffer true s ≡ ok (some buffer) s
  unfolding read_words
  read_words_done fuel raddr buffer s = refl

  abbrev pub IsText : Option (List ℕ) → State → Type 0
  IsText r s = (r ≡ some text) × Unchanged s

  peeked-Unchanged :
      (b : ℕ) (s : State) → Unchanged s → Unchanged (in_world s (k.peekdata p b s.world).1)
  peeked-Unchanged b s c =
      let kept = laws.peek-memory s.world p b c.kept.stopped in
      record {
        same = record { table = c.same.table; count = c.same.count; heap = c.same.heap };
        kept = record {
          stopped = kept.stopped;
          mapped = λ x. kept.mapped x ∙ c.kept.mapped x;
          byte = λ x. kept.byte x ∙ c.kept.byte x;
        };
        regs = laws.peek-regs s.world p b c.kept.stopped ∙ c.regs;
        entry = λ at. laws.peek-entry s.world p b (c.entry at);
      }

  string_at_next :
      (n : ℕ) (buffer : List ℕ)
      → buffer ≡ string_at m a (8 * n)
      → length buffer ≡ 8 * n
      → buffer ++ string_at m (a + 8 * n) 8 ≡ string_at m a (8 * suc n)
  string_at_next n buffer e l =
      let full : length (string_at m a (8 * n)) ≡ 8 * n = ap (length {A = ℕ}) (sym e) ∙ l in
      let er : 8 * suc n ≡ 8 * n + 8 = omega arith in
      ap (λ (t : List ℕ). t ++ string_at m (a + 8 * n) 8) e
      ∙ sym (ap (string_at m a) er ∙ string_at-append m a (8 * n) 8 full)

  abbrev chunk : ℕ → List ℕ
  chunk n = string_at m (a + 8 * n) 8

  readable_word :
      (n : ℕ) (buffer : List ℕ)
      → IsReadable
      → 8 * n < max_buffer_size - 1
      → buffer ≡ string_at m a (8 * n)
      → length buffer ≡ 8 * n
      → (v.mapped s0.world p (a + 8 * n) ≡ true) × (word_at v s0.world p (a + 8 * n) ≢ minus_one)
  readable_word n buffer readable lt e l = readable n lt (
      le-length-string_at m a (8 * n) (max_buffer_size - 1) (omega arith)
        (ap (length {A = ℕ}) (sym e) ∙ l))

  -- One round of the loop on a word that can be read.
  read_words_step :
      (fuel n : ℕ) (buffer : List ℕ) (s : State)
      → IsReadable
      → 8 * n < max_buffer_size - 1
      → buffer ≡ string_at m a (8 * n)
      → length buffer ≡ 8 * n
      → Unchanged s
      → read_words (suc fuel) (a + 8 * n) p buffer false s
        ≡ read_words fuel
            ((a + 8 * n + length (bytes_read buffer (chunk n))) % 2 ^ 64)
            p
            (buffer ++ bytes_read buffer (chunk n))
            (is_last buffer (chunk n))
            (in_world s (k.peekdata p (a + 8 * n) s.world).1)
  unfolding read_words
  read_words_step fuel n buffer s readable lt e l c =
      let word = readable_word n buffer readable lt e l in
      let room : ltb (length buffer) (max_buffer_size - 1) ≡ true = ground arith in
      let same : word_at v s.world p (a + 8 * n) ≡ word_at v s0.world p (a + 8 * n) =
        ap from_le (bytes_at-SameMemory v p s0.world s.world (a + 8 * n) 8 c.kept) in
      let ne : (word_at v s.world p (a + 8 * n) == minus_one) ≡ false = ground arith in
      let q : before_nul (to_le 8 (word_at v s.world p (a + 8 * n))) ≡ chunk n =
        ap before_nul (to_le-word_at laws s.world p (a + 8 * n))
        ∙ before_nul-bytes_at s.world (a + 8 * n) 8 c.kept in
      rw (room, laws.peek s.world p (a + 8 * n) c.kept.stopped (c.kept.mapped _ ∙ word.0), ne, q)

  read_words-Returns :
      (fuel n : ℕ) (buffer : List ℕ) (s : State)
      → IsReadable
      → read_rounds ≤ n + fuel
      → 8 * n < max_buffer_size - 1
      → buffer ≡ string_at m a (8 * n)
      → length buffer ≡ 8 * n
      → Unchanged s
      → Returns IsText (read_words fuel (a + 8 * n) p buffer false s)
  unfolding read_words
  read_words-Returns zero n buffer s readable enough lt e l c = absurd (omega arith)
  read_words-Returns (suc zero) n buffer s readable enough lt e l c = absurd (omega arith)
  read_words-Returns (suc (suc fuel)) n buffer s readable enough lt e l c =
      rw (read_words_step (suc fuel) n buffer s readable lt e l c)
        (elim (Bool-cases (is_last buffer (chunk n))) [
          | inl done ↦
              rw (done, read_words_done fuel _ _ _)
                (returns (
                  ap some (last_read n buffer (is_full buffer (chunk n)) lt e l refl done),
                  peeked-Unchanged (a + 8 * n) s c,
                ))
          | inr more ↦
              let copied : bytes_read buffer (chunk n) ≡ chunk n = ground arith in
              let eight : length (chunk n) ≡ 8 = ground arith in
              let room : 8 * suc n < max_buffer_size - 1 = ground arith in
              let e' = string_at_next n buffer e l in
              let l' : length (buffer ++ chunk n) ≡ 8 * suc n =
                length-append buffer (chunk n) ∙ omega arith in
              let word = readable_word (suc n) (buffer ++ chunk n) readable room e' l' in
              let fits = laws.mapped-lt s0.world p (a + 8 * suc n) word.0 in
              let there : (a + 8 * n + 8) % 2 ^ 64 ≡ a + 8 * suc n = omega arith in
              rw (more, copied, eight, there)
                (read_words-Returns (suc fuel) (suc n) (buffer ++ chunk n) _ readable (omega arith)
                  room e' l' (peeked-Unchanged (a + 8 * n) s c))
        ])

  -- From a stopped tracee whose memory is readable (`Readable`) as far as the string goes,
  -- `read_child_c_string` returns the bytes before the first 0, no more than 1023, and leaves the
  -- tracee stopped with its memory and its registers as they were, and the variables of the tracer.
  pub read_child_c_string-string_at :
      v.Stopped s0.world p → IsReadable → Returns IsText (read_child_c_string a p s0)
  unfolding read_child_c_string string_at
  read_child_c_string-string_at stopped readable =
      let e : a + 8 * 0 ≡ a = omega arith in
      subst (λ b. Returns IsText (read_words read_rounds b p [] false s0)) e
        (read_words-Returns read_rounds 0 [] s0 readable (omega arith) (omega arith) refl refl
          (record {
            same = record { table = refl; count = refl; heap = refl };
            kept = record { stopped = stopped; mapped = λ x. refl; byte = λ x. refl };
            regs = refl;
            entry = λ at. at;
          }))
