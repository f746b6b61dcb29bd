-- ===== src/Putils/Text/Failures.antt =====
-- How `read_child_c_string` ends when the memory cannot be read, and whatever the kernel replies.
use reproduce.Prelude.{
  ℕ, zero, suc, ◌+◌, ◌-◌, ◌*◌, ◌≤◌, ◌<◌, ◌≡◌, refl, Bool, true, false, List, [], ◌∷◌, ◌++◌, Option,
  none, some, ◌==◌, ltb, length, take, arith, Bool-cases, inl, inr, length-append, length-take, ap,
  ◌∙◌,
}
use reproduce.Prelude.Bytes.{to_le}
use reproduce.Kernel.{Kernel, minus_one, esrch, exit_failure}
use reproduce.Kernel.Laws.{View, Ptrace, word_at, reply}
use reproduce.Uthash.{Uthash}
use reproduce.Tracer.{State, ok, exit}
use reproduce.Tracer.Outcome.{Ends}
use reproduce.Tracer.Macros.{in_world}
use reproduce.Putils.Text.{
  max_buffer_size, before_nul, is_full, bytes_read, is_last, read_words, read_rounds,
  read_child_c_string,
}

-- No byte is 0, as in a C string.
abbrev pub NoNul : List ℕ → Type 0
NoNul [] = Unit
NoNul (b ∷ bs) = ((b == 0) ≡ false) × NoNul bs

append-NoNul : (xs ys : List ℕ) → NoNul xs → NoNul ys → NoNul (xs ++ ys)
append-NoNul [] ys h g = g
append-NoNul (x ∷ xs) ys h g = (h.0, append-NoNul xs ys h.1 g)

take-NoNul : (n : ℕ) (xs : List ℕ) → NoNul xs → NoNul (take n xs)
take-NoNul zero xs h = tt
take-NoNul (suc n) [] h = tt
take-NoNul (suc n) (x ∷ xs) h = (h.0, take-NoNul n xs h.1)

before_nul-NoNul : (bs : List ℕ) → NoNul (before_nul bs)
unfolding before_nul
before_nul-NoNul [] = tt
before_nul-NoNul (b ∷ bs) = elim (Bool-cases (b == 0)) [
  | inl e ↦ rw e tt
  | inr e ↦ rw e (e, before_nul-NoNul bs)
]

bytes_read-NoNul : (buffer p : List ℕ) → NoNul p → NoNul (bytes_read buffer p)
bytes_read-NoNul buffer p h = elim (Bool-cases (is_full buffer p)) [
  | inl e ↦ rw e (take-NoNul (max_buffer_size - 1 - length buffer) p h)
  | inr e ↦ rw e h
]

length-bytes_read :
    (buffer p : List ℕ)
    → length buffer ≤ max_buffer_size - 1
    → length buffer + length (bytes_read buffer p) ≤ max_buffer_size - 1
length-bytes_read buffer p h = elim (Bool-cases (is_full buffer p)) [
  | inl e ↦ rw e (omega (arith, length-take (max_buffer_size - 1 - length buffer) p))
  | inr e ↦ rw e (ground arith)
]

-- A round that is not the last has copied eight bytes.
bytes_read-eight : (buffer p : List ℕ) → is_last buffer p ≡ false → length (bytes_read buffer p) ≡ 8
bytes_read-eight buffer p h = elim (Bool-cases (is_full buffer p)) [
  | inl e ↦ absurd (ground arith)
  | inr e ↦ rw e (ground arith)
]

module _ ⦃k : Kernel⦄ ⦃u : Uthash⦄ where
  abbrev pub IsString : Option (List ℕ) → Type 0
  IsString none = Unit
  IsString (some t) = (length t ≤ max_buffer_size - 1) × NoNul t

  read_words-IsString :
      (fuel n raddr p : ℕ) (buffer : List ℕ) (done : Bool) (s : State)
      → NoNul buffer
      → length buffer ≤ max_buffer_size - 1
      → (done ≡ false → (8 * n ≤ length buffer) × (read_rounds ≤ n + fuel))
      → 0 < fuel
      → Ends
          (λ r s'. IsString r)
          (λ code s'. code ≡ exit_failure)
          (read_words fuel raddr p buffer done s)
  unfolding read_words
  read_words-IsString zero n raddr p buffer done s clean small more some_left = absurd (omega arith)
  read_words-IsString (suc fuel) n raddr p buffer true s clean small more some_left = (small, clean)
  read_words-IsString (suc fuel) n raddr p buffer false s clean small more some_left =
      elim (Bool-cases (ltb (length buffer) (max_buffer_size - 1))) [
        | inr full ↦ rw full (small, clean)
        | inl room ↦ elim (Bool-cases (answer.ret == minus_one)) [
          | inl bad ↦ elim (Bool-cases (answer.errno == esrch)) [
            | inl gone ↦ rw (room, bad, gone) tt
            | inr other ↦ rw (room, bad, other) refl
          ]
          | inr good ↦
              let (below, enough) = more refl in
              rw (room, good)
                (read_words-IsString fuel (suc n) _ p (buffer ++ bytes_read buffer chunk)
                  (is_last buffer chunk) _
                  (append-NoNul buffer _ clean
                    (bytes_read-NoNul buffer chunk (before_nul-NoNul (to_le 8 answer.ret))))
                  (omega (
                    arith,
                    length-append buffer (bytes_read buffer chunk),
                    length-bytes_read buffer chunk small,
                  ))
                  (λ not_last. (
                    omega (
                      arith,
                      length-append buffer (bytes_read buffer chunk),
                      bytes_read-eight buffer chunk not_last,
                    ),
                    omega arith,
                  ))
                  (ground arith))
        ]
      ]
    where
      answer : reproduce.Kernel.Reply
      answer = (k.peekdata p raddr s.world).0

      chunk : List ℕ
      chunk = before_nul (to_le 8 answer.ret)

  -- Whatever the kernel replies, `read_child_c_string` ends within its rounds: it returns NULL or
  -- a string of at most 1023 bytes, none of them 0, or it exits with EXIT_FAILURE.
  pub read_child_c_string-IsString :
      (raddr p : ℕ) (s : State)
      → Ends (λ r s'. IsString r) (λ code s'. code ≡ exit_failure) (read_child_c_string raddr p s)
  unfolding read_child_c_string
  read_child_c_string-IsString raddr p s =
      read_words-IsString read_rounds 0 raddr p [] false s tt (omega arith)
        (λ e. (omega arith, omega arith)) (omega arith)

  module _ (raddr p : ℕ) (s : State) where
    first_gone :
        (fuel : ℕ)
        → (k.peekdata p raddr s.world).0 ≡ reply minus_one esrch
        → read_words (suc fuel) raddr p [] false s
          ≡ ok none (in_world s (k.peekdata p raddr s.world).1)
    unfolding read_words
    first_gone fuel h = rw h

    first_minus_one :
        (fuel e : ℕ)
        → (e == esrch) ≡ false
        → (k.peekdata p raddr s.world).0 ≡ reply minus_one e
        → read_words (suc fuel) raddr p [] false s
          ≡ exit exit_failure (in_world s (k.peekdata p raddr s.world).1)
    unfolding read_words
    first_minus_one fuel e other h = rw (h, other)

    -- NULL for a process that is gone.
    pub read_child_c_string-gone :
        (k.peekdata p raddr s.world).0 ≡ reply minus_one esrch
        → read_child_c_string raddr p s ≡ ok none (in_world s (k.peekdata p raddr s.world).1)
    unfolding read_child_c_string
    read_child_c_string-gone h = first_gone 128 h

    -- Any other -1 ends the tracer, also one that is the word at the address.
    pub read_child_c_string-minus_one :
        (e : ℕ)
        → (e == esrch) ≡ false
        → (k.peekdata p raddr s.world).0 ≡ reply minus_one e
        → read_child_c_string raddr p s
          ≡ exit exit_failure (in_world s (k.peekdata p raddr s.world).1)
    unfolding read_child_c_string
    read_child_c_string-minus_one e other h = first_minus_one 128 e other h

    -- If the word at the address is mapped in a stopped tracee and is eight bytes 0xff,
    -- `read_child_c_string` exits with EXIT_FAILURE after the request that reads it.
    pub read_child_c_string-all_ones :
        {v : View k.World} (laws : Ptrace v)
        → v.Stopped s.world p
        → v.mapped s.world p raddr ≡ true
        → word_at v s.world p raddr ≡ minus_one
        → read_child_c_string raddr p s
          ≡ exit exit_failure (in_world s (k.peekdata p raddr s.world).1)
    read_child_c_string-all_ones laws stopped mapped ones =
        read_child_c_string-minus_one 0 refl
          (laws.peek s.world p raddr stopped mapped ∙ ap (λ (w : ℕ). reply w 0) ones)
