-- ===== src/Vdso/Stack.antt =====
-- What `remove_vdso` does to the stack of a new program.
pub mod Walk
use reproduce.Prelude.{
  ℕ, zero, suc, ◌+◌, ◌-◌, ◌*◌, ◌≤◌, ◌<◌, ◌≡◌, refl, Bool, true, false, ◌&&◌, List, [], ◌∷◌, ◌∙◌, ap,
  sym, subst, ◌==◌, ltb, leb, if◌then◌else◌, length, arith, Bool-cases, inl, inr,
}
use reproduce.Prelude.Bytes.{from_le, to_le, get_or-to_le}
use reproduce.Kernel.{Kernel, minus_one}
use reproduce.Kernel.Laws.{View, Ptrace, SameMemory, Holds, overlay, word_at, bytes_at, reply}
use reproduce.Uthash.{Uthash}
use reproduce.Tracer.{State, Cmd, ok, pure}
use reproduce.Tracer.Outcome.{Returns, returns, SameTables}
use reproduce.Tracer.Macros.{in_world}
use reproduce.Vdso.{
  at_null, at_ignore, at_sysinfo_ehdr, advance, peek_then, search_auxv, skip_to_auxv, remove_vdso,
}

-- An entry of the auxiliary vector at which the search ends.
abbrev pub ends : ℕ → Bool
ends type = if type == at_null then true else type == at_sysinfo_ehdr

module _ {W : Type 0} (v : View W) (w : W) (p : ℕ) where
  -- The word at an address can be read, and is x, which is not taken for an error.
  pub record WordAt (a x : ℕ) : Type 0 where
    pub mapped : v.mapped w p a ≡ true
    pub word : word_at v w p a ≡ x
    pub clear : (x == minus_one) ≡ false

  -- The words from an address on, none of them 0, and a 0 behind them; and what follows.
  abbrev pub StringsAt : ℕ → List ℕ → (ℕ → Type 0) → Type 0
  StringsAt a [] rest = WordAt a 0 × rest (a + 8)
  StringsAt a (x ∷ xs) rest = WordAt a x × ((x == 0) ≡ false) × StringsAt (a + 8) xs rest

  -- The auxiliary vector, pairs of a type and a value, up to where the search ends.
  abbrev pub AuxvAt : ℕ → List (ℕ × ℕ) → Type 0
  AuxvAt a [] = ⊥
  AuxvAt a ((type, value) ∷ aux) =
      WordAt a type × (if ends type then Unit {0} else AuxvAt (a + 16) aux)

  -- The stack of a new program above its first word: arguments, environment, auxiliary vector.
  abbrev pub StackAt : ℕ → (args env : List ℕ) → List (ℕ × ℕ) → Type 0
  StackAt a args env aux = StringsAt a args (λ b. StringsAt b env (λ c. AuxvAt c aux))

not_ended :
    (A : Type 0) (type : ℕ)
    → (type == at_null) ≡ false
    → (type == at_sysinfo_ehdr) ≡ false
    → (if ends type then Unit {0} else A)
    → A
not_ended A type other miss h =
    let e : ends type ≡ false = rw (other, miss) refl in
    subst (λ (b : Bool). if b then Unit {0} else A) e h

-- The memory with the first entry for the vDSO made one to ignore, if it stands before the end.
pub hide : ℕ → List (ℕ × ℕ) → (ℕ → ℕ) → ℕ → ℕ
hide a [] m = m
hide a ((type, value) ∷ aux) m =
    if type == at_null
    then m
    else if type == at_sysinfo_ehdr
    then overlay m a (to_le 8 at_ignore)
    else hide (a + 16) aux m

-- where the auxiliary vector begins
abbrev pub auxv_start : ℕ → (args env : List ℕ) → ℕ
auxv_start a args env = a + 8 * (length args + 1) + 8 * (length env + 1)

module _ ⦃k : Kernel⦄ ⦃u : Uthash⦄ {v : View k.World} (laws : Ptrace v) (p : ℕ) (s0 : State) where
  abbrev m : ℕ → ℕ
  m = v.byte s0.world p

  pub record Same (s : State) : Type 0 where
    pub same : SameTables s0 s
    pub kept : SameMemory v p s0.world s.world

  abbrev pub Leaves : (ℕ → ℕ) → State → Type 0
  Leaves m' s' = SameTables s0 s' × Holds v p s0.world m' s'.world

  bytes_at_eq :
      (w : k.World) (b n : ℕ)
      → SameMemory v p s0.world w
      → bytes_at v w p b n ≡ bytes_at v s0.world p b n
  bytes_at_eq w b zero h = refl
  bytes_at_eq w b (suc n) h = rw (h.byte b, bytes_at_eq w (b + 1) n h)

  pub after_peek : (a : ℕ) (s : State) → Same s → Same (in_world s (k.peekdata p a s.world).1)
  after_peek a s c =
      let kept = laws.peek-memory s.world p a c.kept.stopped in
      record {
        same = record { table = c.same.table; count = c.same.count; heap = c.same.heap };
        kept = record {
          stopped = kept.stopped;
          mapped = λ b. kept.mapped b ∙ c.kept.mapped b;
          byte = λ b. kept.byte b ∙ c.kept.byte b;
        };
      }

  -- A word of the stack is read, and the code goes on with it.
  pub peek_step :
      (pos n x : ℕ) (s : State) (rest : ℕ → Cmd (Unit {0}))
      → WordAt v s0.world p (pos + n) x
      → Same s
      → peek_then (k.peekdata p (advance pos n)) rest s
        ≡ rest x (in_world s (k.peekdata p (pos + n) s.world).1)
  unfolding peek_then
  peek_step pos n x s rest word c =
      let there : v.mapped s.world p (pos + n) ≡ true = c.kept.mapped _ ∙ word.mapped in
      let fits = laws.mapped-lt s.world p (pos + n) there in
      let address : advance pos n ≡ pos + n = omega arith in
      let read : (k.peekdata p (pos + n) s.world).0 ≡ reply x 0 =
        laws.peek s.world p (pos + n) c.kept.stopped there
        ∙ ap (λ (y : ℕ). reply y 0)
            (ap from_le (bytes_at_eq s.world (pos + n) 8 c.kept) ∙ word.word) in
      rw (address, read, word.clear)

  poked :
      (a : ℕ) (s : State)
      → v.mapped s0.world p a ≡ true
      → Same s
      → Leaves (overlay m a (to_le 8 at_ignore)) (in_world s (k.pokedata p a at_ignore s.world).1)
  poked a s mapped c =
      let h = laws.poke-memory s.world p a at_ignore c.kept.stopped (c.kept.mapped _ ∙ mapped) in
      (
        record { table = c.same.table; count = c.same.count; heap = c.same.heap },
        record {
          stopped = h.stopped;
          mapped = λ b. h.mapped b ∙ c.kept.mapped b;
          byte = λ b. h.byte b ∙ elim (Bool-cases (leb a b && ltb b (a + 8))) [
            | inl e ↦ rw e (sym (get_or-to_le 8 (b - a) at_ignore (ground arith)))
            | inr e ↦ rw e (c.kept.byte b)
          ];
        },
      )

  pub address_eq : (pos n x : ℕ) → WordAt v s0.world p (pos + n) x → advance pos n ≡ pos + n
  address_eq pos n x word =
      let fits = laws.mapped-lt s0.world p (pos + n) word.mapped in omega arith

  poke_step :
      (a : ℕ) (s : State)
      → v.mapped s0.world p a ≡ true
      → Same s
      → peek_then (k.pokedata p a at_ignore) (λ _. pure tt) s
        ≡ ok tt (in_world s (k.pokedata p a at_ignore s.world).1)
  unfolding peek_then
  poke_step a s mapped c =
      rw (laws.poke s.world p a at_ignore c.kept.stopped (c.kept.mapped _ ∙ mapped))

  unchanged : (s : State) → Same s → Leaves m s
  unchanged s c =
      (c.same, record { stopped = c.kept.stopped; mapped = c.kept.mapped; byte = c.kept.byte })

  pub search_auxv-Returns :
      (fuel pos type value : ℕ) (aux : List (ℕ × ℕ)) (s : State)
      → AuxvAt v s0.world p pos ((type, value) ∷ aux)
      → length aux < fuel
      → Same s
      → Returns
          (λ _ s'. Leaves (hide pos ((type, value) ∷ aux) m) s')
          (search_auxv fuel p pos type s)
  unfolding search_auxv hide
  search_auxv-Returns zero pos type value aux s at lt c = absurd (omega arith)
  search_auxv-Returns (suc fuel) pos type value [] s (word, more) lt c =
      elim (Bool-cases (type == at_null)) [
        | inl null ↦ rw null (returns (unchanged s c))
        | inr other ↦ elim (Bool-cases (type == at_sysinfo_ehdr)) [
          | inl hit ↦
              rw (other, hit, poke_step pos s word.mapped c) (returns (poked pos s word.mapped c))
          | inr miss ↦ absurd (not_ended ⊥ type other miss more)
        ]
      ]
  search_auxv-Returns (suc fuel) pos type value ((type', value') ∷ aux) s (word, more) lt c =
      elim (Bool-cases (type == at_null)) [
        | inl null ↦ rw null (returns (unchanged s c))
        | inr other ↦ elim (Bool-cases (type == at_sysinfo_ehdr)) [
          | inl hit ↦
              rw (other, hit, poke_step pos s word.mapped c) (returns (poked pos s word.mapped c))
          | inr miss ↦
              let at =
                not_ended (AuxvAt v s0.world p (pos + 16) ((type', value') ∷ aux)) type other miss
                  more in
              rw
                (
                  other,
                  miss,
                  peek_step pos 16 type' s (λ next. search_auxv fuel p (advance pos 16) next) at.0
                      c,
                  address_eq pos 16 type' at.0,
                )
                (search_auxv-Returns fuel (pos + 16) type' value' aux _ at (omega arith)
                  (after_peek (pos + 16) s c))
        ]
      ]
