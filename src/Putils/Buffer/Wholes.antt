-- ===== src/Putils/Buffer/Wholes.antt =====
-- The first loop of `replace_buf`, which writes whole words.
use reproduce.Prelude.{
  ℕ, zero, suc, ◌+◌, ◌*◌, ◌-◌, ◌≤◌, ◌<◌, ◌≡◌, true, ◌&&◌, List, ltb, leb, if◌then◌else◌, length,
  get_or, take, drop, arith, get_or-take, get_or-drop, ◌∙◌, Bool-cases, inl, inr,
}
use reproduce.Prelude.Bytes.{byte_of, AreBytes, byte_of-from_le, take-AreBytes, drop-AreBytes}
use reproduce.Kernel.{Kernel}
use reproduce.Kernel.Laws.{View, Covers, Ptrace, Holds, overlay_first}
use reproduce.Uthash.{Uthash}
use reproduce.Tracer.Outcome.{Returns, SameTables}
use reproduce.Tracer.Macros.{ptrace_return-ok}
use reproduce.Tracer.{State, Cmd}
use reproduce.Putils.Buffer.{address, load_word, replace_words}

byte_of-load_word :
    (src : List ℕ) (i j : ℕ)
    → AreBytes src
    → j < 8
    → byte_of j (load_word src i) ≡ get_or src (i + j) 0
byte_of-load_word src i j h lt =
    byte_of-from_le j (take 8 (drop i src)) (take-AreBytes 8 _ (drop-AreBytes i src h))
    ∙ get_or-take 8 j (drop i src) 0 lt
    ∙ get_or-drop i j src 0

module _ ⦃k : Kernel⦄ ⦃u : Uthash⦄ {v : View k.World} (laws : Ptrace v) (p : ℕ) (src : List ℕ)
    (dest : ℕ) (bytes : AreBytes src) (s0 : State) where
  abbrev m : ℕ → ℕ
  m = v.byte s0.world p

  -- Between two rounds of the first loop.
  pub record Between (i : ℕ) (s : State) : Type 0 where
    pub same : SameTables s0 s
    pub held : Holds v p s0.world (overlay_first i m dest src) s.world

  pub address_eq :
      (i : ℕ) (s : State) → v.mapped s.world p (dest + i) ≡ true → address dest i ≡ dest + i
  address_eq i s h = let fits = laws.mapped-lt s.world p (dest + i) h in omega arith

  poke_byte :
      (i a : ℕ) (s : State)
      → v.mapped s0.world p (dest + i) ≡ true
      → i + 8 ≤ length src
      → Between i s
      → v.byte (k.pokedata p (dest + i) (load_word src i) s.world).1 p a
        ≡ overlay_first (i + 8) m dest src a
  poke_byte i a s mapped fits b = elim (Bool-cases (leb (dest + i) a && ltb a (dest + i + 8))) [
    | inl inside ↦
        let e : i + (a - (dest + i)) ≡ a - dest = ground arith in
        let t : (leb dest a && ltb a (dest + (i + 8))) ≡ true = ground arith in
        poked.byte a
        ∙ rw (inside, t, ← e) (byte_of-load_word src i (a - (dest + i)) bytes (ground arith))
    | inr outside ↦ poked.byte a ∙ rw outside (b.held.byte a ∙ ground arith)
  ]
    where
      poked :
          Holds v p s.world
            (λ c.
              if leb (dest + i) c && ltb c (dest + i + 8)
              then byte_of (c - (dest + i)) (load_word src i)
              else v.byte s.world p c)
            (k.pokedata p (dest + i) (load_word src i) s.world).1
      poked =
          laws.poke-memory s.world p (dest + i) (load_word src i) b.held.stopped
            (b.held.mapped _ ∙ mapped)

  poke_word :
      (i : ℕ) (s : State)
      → v.mapped s0.world p (dest + i) ≡ true
      → i + 8 ≤ length src
      → Between i s
      → Between (i + 8) (record s { world = (k.pokedata p (dest + i) (load_word src i) s.world).1 })
  poke_word i s mapped fits b = record {
    same = record { table = b.same.table; count = b.same.count; heap = b.same.heap };
    held = record {
      stopped = poked.stopped;
      mapped = λ a. poked.mapped a ∙ b.held.mapped a;
      byte = λ a. poke_byte i a s mapped fits b;
    };
  }
    where
      poked :
          Holds v p s.world
            (λ c.
              if leb (dest + i) c && ltb c (dest + i + 8)
              then byte_of (c - (dest + i)) (load_word src i)
              else v.byte s.world p c)
            (k.pokedata p (dest + i) (load_word src i) s.world).1
      poked =
          laws.poke-memory s.world p (dest + i) (load_word src i) b.held.stopped
            (b.held.mapped _ ∙ mapped)

  pub replace_words-Returns :
      (Q : Unit {0} → State → Type 0) (rest : ℕ → Cmd (Unit {0}))
      → ((i : ℕ) (s : State)
          → i ≤ length src
          → length src < i + 8
          → (n : ℕ) → i ≡ 8 * n
          → Between i s
          → Returns Q (rest i s))
      → Covers v s0.world p dest (length src)
      → (fuel n i : ℕ) (s : State) → i ≡ 8 * n
      → i ≤ length src
      → length src < i + 8 * fuel
      → Between i s
      → Returns Q (replace_words fuel p src dest i rest s)
  unfolding replace_words
  replace_words-Returns Q rest after mapped zero n i s e le lt b = absurd (omega arith)
  replace_words-Returns Q rest after mapped (suc fuel) n i s e le lt b =
      elim (Bool-cases (leb (i + 8) (length src))) [
        | inr last ↦ rw last (after i s le (ground arith) n e b)
        | inl more ↦
            let here : v.mapped s0.world p (dest + i) ≡ true = rw e (mapped n (ground arith)) in
            let there : v.mapped s.world p (dest + i) ≡ true = b.held.mapped _ ∙ here in
            rw
              (
                more,
                address_eq i s there,
                ptrace_return-ok (k.pokedata p (dest + i) (load_word src i)) _ _ s
                    (laws.poke s.world p (dest + i) (load_word src i) b.held.stopped there),
              )
              (replace_words-Returns Q rest after mapped fuel (suc n) (i + 8) _ (omega arith)
                (ground arith) (omega arith) (poke_word i s here (ground arith) b))
      ]
