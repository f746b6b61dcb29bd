-- ===== src/Putils/Buffer/Overlay.antt =====
-- What `replace_buf` does to the memory of the tracee: the last word, and the whole.
use reproduce.Prelude.{
  ℕ, zero, suc, ◌+◌, ◌*◌, ◌-◌, ◌≤◌, ◌<◌, ◌≡◌, refl, Bool, true, false, ◌&&◌, List, ltb, leb,
  if◌then◌else◌, length, get_or, arith, ◌∙◌, Bool-cases, inl, inr,
}
use reproduce.Prelude.Bytes.{from_le, to_le, byte_of, AreBytes, byte_of-from_le, get_or-lt}
use reproduce.Kernel.{Kernel}
use reproduce.Kernel.Laws.{View, Covers, Ptrace, Holds, overlay_first, overlay, word_at, bytes_at}
use reproduce.Kernel.Words.{to_le-word_at, get_or-bytes_at, bytes_at-AreBytes}
use reproduce.Uthash.{Uthash}
use reproduce.Tracer.Outcome
use reproduce.Tracer.Outcome.{Returns, returns, SameTables}
use reproduce.Tracer.Macros.{in_world, ptrace_return-ok}
use reproduce.Tracer.{State, pure}
use reproduce.Putils.Buffer.{merge_tail, replace_rest, replace_buf}
use reproduce.Putils.Buffer.Wholes.{Between, address_eq, replace_words-Returns}

and_false : (b : Bool) → (b && false) ≡ false
and_false true = refl
and_false false = refl

-- Byte j of the merged word, counted from byte m of the loop.
get_or-merge_tail :
    (m n j : ℕ) (word src : List ℕ) (i : ℕ)
    → j < n
    → get_or (merge_tail m n word src i) j 0 ≡ (
        if ltb (i + (m + j)) (length src)
        then get_or src (i + (m + j)) 0
        else get_or word (m + j) 0)
unfolding merge_tail
get_or-merge_tail m zero j word src i h = elim h [ ]
get_or-merge_tail m (suc n) zero word src i h = let e : m + zero ≡ m = omega arith in rw e refl
get_or-merge_tail m (suc n) (suc j) word src i h =
    let e : m + suc j ≡ suc m + j = omega arith in
    rw e (get_or-merge_tail (suc m) n j word src i (omega arith))

merge_tail-AreBytes :
    (m n : ℕ) (word src : List ℕ) (i : ℕ)
    → AreBytes word
    → AreBytes src
    → AreBytes (merge_tail m n word src i)
unfolding merge_tail
merge_tail-AreBytes m zero word src i hw hs = tt
merge_tail-AreBytes m (suc n) word src i hw hs = (
  ground (arith, get_or-lt word m hw, get_or-lt src (i + m) hs),
  merge_tail-AreBytes (suc m) n word src i hw hs,
)

module _ ⦃k : Kernel⦄ ⦃u : Uthash⦄ {v : View k.World} (laws : Ptrace v) (p : ℕ) (src : List ℕ)
    (dest : ℕ) (bytes : AreBytes src) (s0 : State) where
  abbrev m : ℕ → ℕ
  m = v.byte s0.world p

  abbrev Progress : ℕ → State → Type 0
  Progress i s = Between laws p src dest bytes s0 i s

  -- The world after the last word has been read.
  abbrev peeked : ℕ → State → k.World
  peeked i s = (k.peekdata p (dest + i) s.world).1

  abbrev tail_word : ℕ → State → ℕ
  tail_word i s = from_le (merge_tail 0 8 (to_le 8 (word_at v s.world p (dest + i))) src i)

  peeked-Between : (i : ℕ) (s : State) → Progress i s → Progress i (in_world s (peeked i s))
  peeked-Between i s b =
      let kept = laws.peek-memory s.world p (dest + i) b.held.stopped in
      record {
        same = record { table = b.same.table; count = b.same.count; heap = b.same.heap };
        held = record {
          stopped = kept.stopped;
          mapped = λ a. kept.mapped a ∙ b.held.mapped a;
          byte = λ a. kept.byte a ∙ b.held.byte a;
        };
      }

  -- Byte j of the last word: from the buffer, or what was there.
  byte_of-tail_word :
      (i j : ℕ) (s : State)
      → j < 8
      → byte_of j (tail_word i s) ≡ (
          if ltb (i + j) (length src)
          then get_or src (i + j) 0
          else v.byte s.world p (dest + i + j))
  byte_of-tail_word i j s lt =
      let e : 0 + j ≡ j = omega arith in
      rw (to_le-word_at laws s.world p (dest + i)) (
        byte_of-from_le j (merge_tail 0 8 (bytes_at v s.world p (dest + i) 8) src i)
          (merge_tail-AreBytes 0 8 _ src i (bytes_at-AreBytes laws s.world p (dest + i) 8) bytes)
        ∙ get_or-merge_tail 0 8 j (bytes_at v s.world p (dest + i) 8) src i lt
        ∙ rw (e, get_or-bytes_at laws s.world p (dest + i) 8 j lt) refl)

  poke_tail_byte :
      (i a : ℕ) (s : State)
      → v.mapped s0.world p (dest + i) ≡ true
      → i ≤ length src
      → length src < i + 8
      → Progress i s
      → v.byte (k.pokedata p (dest + i) (tail_word i s) (peeked i s)).1 p a
        ≡ overlay_first (length src) m dest src a
  poke_tail_byte i a s mapped le lt b =
      elim (Bool-cases (leb (dest + i) a && ltb a (dest + i + 8))) [
        | inl inside ↦
            let j : ℕ = a - (dest + i) in
            let e : i + j ≡ a - dest = ground arith in
            let e' : dest + i + j ≡ a = ground arith in
            poked.byte a
            ∙ rw inside (
                byte_of-tail_word i j s (ground arith) ∙ rw (e, e') (ground (arith, b.held.byte a)))
        | inr outside ↦ poked.byte a ∙ rw outside (b'.held.byte a ∙ ground arith)
      ]
    where
      b' : Progress i (in_world s (peeked i s))
      b' = peeked-Between i s b

      poked :
          Holds v p
            (peeked i s)
            (λ c.
              if leb (dest + i) c && ltb c (dest + i + 8)
              then byte_of (c - (dest + i)) (tail_word i s)
              else v.byte (peeked i s) p c)
            (k.pokedata p (dest + i) (tail_word i s) (peeked i s)).1
      poked =
          laws.poke-memory (peeked i s) p (dest + i) (tail_word i s) b'.held.stopped
            (b'.held.mapped _ ∙ mapped)

  poke_tail :
      (i : ℕ) (s : State)
      → v.mapped s0.world p (dest + i) ≡ true
      → i ≤ length src
      → length src < i + 8
      → Progress i s
      → Progress (length src) (in_world s (k.pokedata p (dest + i) (tail_word i s) (peeked i s)).1)
  poke_tail i s mapped le lt b =
      let b' = peeked-Between i s b in
      let poked =
        laws.poke-memory (peeked i s) p (dest + i) (tail_word i s) b'.held.stopped
          (b'.held.mapped _ ∙ mapped) in
      record {
        same = record { table = b.same.table; count = b.same.count; heap = b.same.heap };
        held = record {
          stopped = poked.stopped;
          mapped = λ a. poked.mapped a ∙ b'.held.mapped a;
          byte = λ a. poke_tail_byte i a s mapped le lt b;
        };
      }

  -- The last word, after the loop.
  replace_rest-Returns :
      (n i : ℕ) (s : State)
      → i ≡ 8 * n
      → i ≤ length src
      → length src < i + 8
      → Covers v s0.world p dest (length src)
      → Progress i s
      → Returns (λ _ s'. Progress (length src) s') (replace_rest p src dest i s)
  unfolding replace_rest
  replace_rest-Returns n i s e le lt mapped b = elim (Bool-cases (ltb i (length src))) [
    | inr none_left ↦ let e' : i ≡ length src = ground arith in rw none_left (returns (rw (← e') b))
    | inl some_left ↦
        let here : v.mapped s0.world p (dest + i) ≡ true = rw e (mapped n (ground arith)) in
        let there : v.mapped s.world p (dest + i) ≡ true = b.held.mapped _ ∙ here in
        let b' = peeked-Between i s b in
        rw
          (
            some_left,
            address_eq laws p src dest bytes s0 i s there,
            laws.peek s.world p (dest + i) b.held.stopped there,
            and_false,
            ptrace_return-ok (k.pokedata p (dest + i) (tail_word i s)) tt (pure tt)
                (in_world s (peeked i s))
                (laws.poke (peeked i s) p (dest + i) (tail_word i s) b'.held.stopped
                  (b'.held.mapped _ ∙ here)),
          )
          (returns (poke_tail i s here le lt b))
  ]

  -- On a stopped tracee where each word of the destination is mapped, `replace_buf` returns and
  -- leaves the buffer, of any length, in the memory of the tracee, every other byte as it was, and
  -- the variables of the tracer as they were.
  pub replace_buf-overlay :
      v.Stopped s0.world p
      → Covers v s0.world p dest (length src)
      → Returns
          (λ _ s'. SameTables s0 s' × Holds v p s0.world (overlay m dest src) s'.world)
          (replace_buf p src dest s0)
  unfolding replace_buf
  replace_buf-overlay stopped mapped =
      Outcome.mono
        (replace_words-Returns laws p src dest bytes s0 (λ _ s'. Progress (length src) s')
          (replace_rest p src dest) (λ i s le lt n e b. replace_rest-Returns n i s e le lt mapped b)
          mapped (suc (length src)) 0 0 s0 (omega arith) (omega arith) (omega arith) start)
        (λ _ s' b. (b.same, b.held))
    where
      start : Progress 0 s0
      start = record {
        same = record { table = refl; count = refl; heap = refl };
        held = record { stopped = stopped; mapped = λ a. refl; byte = λ a. ground arith };
      }
