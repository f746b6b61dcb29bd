-- ===== src/Vdso/Stack/Walk.antt =====
-- The walk of `remove_vdso` from the stack pointer to the auxiliary vector.
use reproduce.Prelude.{
  ℕ, zero, suc, ◌+◌, ◌-◌, ◌*◌, ◌≤◌, ◌<◌, ◌≡◌, refl, true, false, List, [], ◌∷◌, subst, ◌==◌, ltb,
  if◌then◌else◌, length, arith,
}
use reproduce.Kernel.{Kernel, minus_one}
use reproduce.Kernel.Laws.{View, Ptrace, Holds}
use reproduce.Uthash.{Uthash}
use reproduce.Tracer.{State}
use reproduce.Tracer.Outcome.{Returns, SameTables}
use reproduce.Tracer.Macros.{in_world}
use reproduce.Vdso.{at_null, advance, peek_then, search_auxv, skip_to_auxv, remove_vdso}
use reproduce.Vdso.Stack.{
  StringsAt, AuxvAt, StackAt, hide, auxv_start, Same, Leaves, peek_step, address_eq, after_peek,
  search_auxv-Returns,
}

module _ ⦃k : Kernel⦄ ⦃u : Uthash⦄ {v : View k.World} (laws : Ptrace v) (p : ℕ) (s0 : State) where
  abbrev m : ℕ → ℕ
  m = v.byte s0.world p

  -- The words up to the next 0 are skipped.
  skip_strings :
      (Q : Unit {0} → State → Type 0) (R : ℕ → Type 0) (f seen : ℕ)
      → ltb seen 2 ≡ true
      → (xs : List ℕ) (fuel pos : ℕ) (s : State) → fuel ≡ suc (length xs + f)
      → StringsAt v s0.world p (pos + 8) xs R
      → Same laws p s0 s
      → ((q : ℕ) (s' : State)
          → q ≡ pos + 8 * (length xs + 1)
          → R (q + 8)
          → Same laws p s0 s'
          → Returns Q (skip_to_auxv f p q (seen + 1) s'))
      → Returns Q (skip_to_auxv fuel p pos seen s)
  unfolding skip_to_auxv
  skip_strings Q R f seen first xs zero pos s e at c next = absurd (omega arith)
  skip_strings Q R f seen first [] (suc fuel) pos s e (word, rest) c next =
      let same : fuel ≡ f = omega arith in
      rw
        (
          first,
          peek_step laws p s0 pos 8 0 s
              (λ val.
                skip_to_auxv fuel p (advance pos 8) (if val == at_null then seen + 1 else seen))
              word c,
          address_eq laws p s0 pos 8 0 word,
          same,
        )
        (next (pos + 8) _ (omega arith) rest (after_peek laws p s0 (pos + 8) s c))
  skip_strings Q R f seen first (x ∷ xs) (suc fuel) pos s e (word, nonzero, rest) c next =
      rw
        (
          first,
          peek_step laws p s0 pos 8 x s
              (λ val.
                skip_to_auxv fuel p (advance pos 8) (if val == at_null then seen + 1 else seen))
              word c,
          address_eq laws p s0 pos 8 x word,
          nonzero,
        )
        (skip_strings Q R f seen first xs fuel (pos + 8) _ (omega arith) rest
          (after_peek laws p s0 (pos + 8) s c) (λ q s' eq. next q s' (omega arith)))

  abbrev sp : ℕ
  sp = (v.regs s0.world p).rsp

  search_from :
      (f q type value : ℕ) (aux : List (ℕ × ℕ)) (s : State)
      → AuxvAt v s0.world p (q + 8) ((type, value) ∷ aux)
      → length aux < f
      → Same laws p s0 s
      → Returns
          (λ _ s'. Leaves laws p s0 (hide (q + 8) ((type, value) ∷ aux) m) s')
          (skip_to_auxv (suc f) p q 2 s)
  unfolding skip_to_auxv
  search_from f q type value aux s at lt c =
      rw
        (
          peek_step laws p s0 q 8 type s (λ val. search_auxv f p (advance q 8) val) at.0 c,
          address_eq laws p s0 q 8 type at.0,
        )
        (search_auxv-Returns laws p s0 f (q + 8) type value aux _ at lt
          (after_peek laws p s0 (q + 8) s c))

  started : v.Stopped s0.world p → Same laws p s0 (in_world s0 (k.peekuser p (8 * 19) s0.world).1)
  started stopped = record {
    same = record { table = refl; count = refl; heap = refl };
    kept = laws.peekuser-memory s0.world p (8 * 19) stopped;
  }

  -- On the readable stack of a stopped new program, none of whose words read is -1, with enough
  -- fuel, `remove_vdso` returns; the first entry for the vDSO of the auxiliary vector, if there is
  -- one before the end, has become one to ignore, and every other byte and the variables of the
  -- tracer are as they were.
  pub remove_vdso-hide :
      (fuel type value : ℕ) (args env : List ℕ) (aux : List (ℕ × ℕ))
      → v.Stopped s0.world p
      → (sp == minus_one) ≡ false
      → StackAt v s0.world p (sp + 8) args env ((type, value) ∷ aux)
      → length args + length env + length aux + 4 ≤ fuel
      → Returns
          (λ _ s'.
            SameTables s0 s'
            × Holds v p s0.world
                (hide (auxv_start (sp + 8) args env) ((type, value) ∷ aux) (v.byte s0.world p))
                s'.world)
          (remove_vdso fuel p s0)
  unfolding remove_vdso peek_then
  remove_vdso-hide fuel type value args env aux stopped clear at enough =
      let f : ℕ = fuel - (length args + length env + 3) in
      let C : ℕ → Type 0 = λ b. AuxvAt v s0.world p b ((type, value) ∷ aux) in
      rw (laws.peekuser_rsp s0.world p stopped, clear)
        (skip_strings _ (λ b. StringsAt v s0.world p b env C) (suc (length env + suc f)) 0 refl args
          fuel sp _ (omega arith) at (started stopped)
          λ q s1 eq at1 c1.
            skip_strings _ C (suc f) 1 refl env _ q s1 refl at1 c1 λ q2 s2 eq2 at2 c2.
              let there : q2 + 8 ≡ auxv_start (sp + 8) args env = omega arith in
              subst
                (λ (b : ℕ).
                  Returns (λ _ s'. Leaves laws p s0 (hide b ((type, value) ∷ aux) m) s')
                    (skip_to_auxv (suc f) p q2 2 s2))
                there (search_from f q2 type value aux s2 at2 (omega arith) c2))
