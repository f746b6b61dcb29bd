-- ===== src/Putils/Buffer/Failures.antt =====
-- How `replace_buf` ends, whatever the kernel replies.
use reproduce.Prelude.{
  ℕ, zero, suc, ◌+◌, ◌≤◌, ◌<◌, ◌≡◌, refl, ◌&&◌, not, List, ltb, leb, ◌==◌, length, arith,
  Bool-cases, inl, inr,
}
use reproduce.Prelude.Bytes.{from_le, to_le}
use reproduce.Kernel.{Kernel, Reply, minus_one, esrch, exit_failure}
use reproduce.Uthash.{Uthash}
use reproduce.Tracer.{State, Cmd, pure, check_reply, ptrace_return}
use reproduce.Tracer.Outcome.{Ends, SameTables}
use reproduce.Tracer.Macros.{in_world}
use reproduce.Putils.Buffer.{
  address, load_word, merge_tail, replace_words, replace_rest, replace_buf,
}

module _ ⦃k : Kernel⦄ ⦃u : Uthash⦄ (p : ℕ) (src : List ℕ) (dest : ℕ) (s0 : State) where
  abbrev Returned : Unit {0} → State → Type 0
  Returned x s = SameTables s0 s

  abbrev Stopped : ℕ → State → Type 0
  Stopped code s = SameTables s0 s × (code ≡ exit_failure)

  moved : (s : State) (w : k.World) → SameTables s0 s → SameTables s0 (in_world s w)
  moved s w h = record { table = h.table; count = h.count; heap = h.heap }

  ptrace_return-Ends :
      (call : k.World → Reply × k.World) (rest : Cmd (Unit {0})) (s : State)
      → SameTables s0 s
      → Ends Returned Stopped (rest (in_world s (call s.world).1))
      → Ends Returned Stopped (ptrace_return call tt rest s)
  unfolding ptrace_return check_reply
  ptrace_return-Ends call rest s h go = elim (Bool-cases ((call s.world).0.ret == minus_one)) [
    | inr good ↦ rw good go
    | inl bad ↦ elim (Bool-cases ((call s.world).0.errno == esrch)) [
      | inl gone ↦ rw (bad, gone) (moved s (call s.world).1 h)
      | inr other ↦ rw (bad, other) (moved s (call s.world).1 h, refl)
    ]
  ]

  replace_rest-Ends :
      (i : ℕ) (s : State) → SameTables s0 s → Ends Returned Stopped (replace_rest p src dest i s)
  unfolding replace_rest
  replace_rest-Ends i s h = elim (Bool-cases (ltb i (length src))) [
    | inr whole ↦ rw whole h
    | inl more ↦
        let word = (k.peekdata p (address dest i) s.world).0 in
        let s1 = in_world s (k.peekdata p (address dest i) s.world).1 in
        let h1 = moved s (k.peekdata p (address dest i) s.world).1 h in
        elim (Bool-cases ((word.ret == minus_one) && not (word.errno == 0))) [
          | inr good ↦
              rw (more, good)
                (ptrace_return-Ends
                  (k.pokedata p (address dest i)
                    (from_le (merge_tail 0 8 (to_le 8 word.ret) src i)))
                  (pure tt) s1 h1 (moved s1 _ h1))
          | inl bad ↦ elim (Bool-cases (word.errno == esrch)) [
            | inl gone ↦ rw (more, bad, gone) h1
            | inr other ↦ rw (more, bad, other) (h1, refl)
          ]
        ]
  ]

  replace_words-Ends :
      (fuel i : ℕ) (s : State)
      → i ≤ length src
      → length src < i + fuel
      → SameTables s0 s
      → Ends Returned Stopped (replace_words fuel p src dest i (replace_rest p src dest) s)
  unfolding replace_words
  replace_words-Ends zero i s le lt h = absurd (omega arith)
  replace_words-Ends (suc fuel) i s le lt h = elim (Bool-cases (leb (i + 8) (length src))) [
    | inr last ↦ rw last (replace_rest-Ends i s h)
    | inl more ↦ rw more (
        ptrace_return-Ends (k.pokedata p (address dest i) (load_word src i))
          (λ s'. replace_words fuel p src dest (i + 8) (replace_rest p src dest) s') s h
          (replace_words-Ends fuel (i + 8) _ (ground arith) (omega arith) (moved s _ h)))
  ]

-- Whatever the kernel replies, `replace_buf` ends within its rounds: it returns or exits with
-- EXIT_FAILURE, with the variables of the tracer as they were.
pub replace_buf-Ends :
    ⦃k : Kernel⦄ ⦃u : Uthash⦄ (p : ℕ) (src : List ℕ) (dest : ℕ) (s : State)
    → Ends
        (λ _ s'. SameTables s s')
        (λ code s'. SameTables s s' × (code ≡ exit_failure))
        (replace_buf p src dest s)
unfolding replace_buf
replace_buf-Ends p src dest s =
    replace_words-Ends p src dest s (suc (length src)) 0 s (omega arith) (omega arith)
      (record { table = refl; count = refl; heap = refl })
