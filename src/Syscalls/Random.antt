-- ===== src/Syscalls/Random.antt =====
-- `getrandom`, answered with a constant.
use reproduce.Prelude.{
  ℕ, ◌+◌, ◌-◌, ◌≡◌, ◌≢◌, false, refl, List, ◌∙◌, ap, sym, subst, some, ◌==◌, ◌&&◌, ltb, leb,
  if◌then◌else◌, arith, replicate, length, length-replicate, get_or-replicate, Bool-cases, inl, inr,
}
use reproduce.Prelude.Assoc
use reproduce.Prelude.Bytes.{replicate-AreBytes}
use reproduce.Kernel.{Kernel, Regs, minus_one}
use reproduce.Kernel.Laws.{View, Ptrace, AtEntry, Covers, overlay}
use reproduce.Uthash.{Uthash}
use reproduce.Tracer.{ChildProcess, State}
use reproduce.Tracer.Outcome
use reproduce.Tracer.Outcome.{Returns, returns}
use reproduce.Putils.Registers.{w_syscall, w_return, r_syscall, r_arg1, r_arg2}
use reproduce.Syscalls.{nr_getrandom, fill_buffer, hook_getrandom, dispatch, handle_syscall}
use reproduce.Syscalls.Steps.{handle_syscall-dispatch, At, cancelled, returned, allocated, written}
use reproduce.Syscalls.Clock.{Served}

-- A memory with the len bytes from an address on filled with one byte.
abbrev pub filled : ℕ → (ℕ → ℕ) → (dest len : ℕ) → ℕ → ℕ
filled b m dest len a = if leb dest a && ltb a (dest + len) then b else m a

overlay-replicate :
    (b : ℕ) (m : ℕ → ℕ) (dest len a : ℕ)
    → overlay m dest (replicate len b) a ≡ filled b m dest len a
overlay-replicate b m dest len a =
    rw (length-replicate len b) (elim (Bool-cases (leb dest a && ltb a (dest + len))) [
      | inl e ↦ rw e (get_or-replicate len (a - dest) b 0 (ground arith))
      | inr e ↦ rw e refl
    ])

module _ ⦃k : Kernel⦄ ⦃u : Uthash⦄ {v : View k.World} (laws : Ptrace v) (p child : ℕ)
    (c : ChildProcess) (regs : Regs) (s : State) where
  -- `malloc` has room for the buffer that is copied.
  abbrev HasRoom : Type 0
  HasRoom = (w : k.World) → (k.malloc (Assoc.addresses s.heap) (r_arg2 regs) w).0 ≢ 0

  abbrev Filled : State → Type 0
  Filled s' =
      Served v p s s.heap (filled 0x22 (v.byte s.world p) (r_arg1 regs) (r_arg2 regs))
        (w_return (w_syscall regs minus_one) (r_arg2 regs)) s'

  filled-At :
      {s1 : State}
      → At v p s s.heap (overlay (v.byte s.world p) (r_arg1 regs) (replicate (r_arg2 regs) 0x22)) s1
      → At v p s s.heap (filled 0x22 (v.byte s.world p) (r_arg1 regs) (r_arg2 regs)) s1
  filled-At at = record {
    table = at.table;
    count = at.count;
    heap = at.heap;
    held = record {
      stopped = at.held.stopped;
      mapped = at.held.mapped;
      byte = λ a.
          at.held.byte a ∙ overlay-replicate 0x22 (v.byte s.world p) (r_arg1 regs) (r_arg2 regs) a;
    };
  }

  buffer-Filled :
      (x : ℕ) (r : Regs) {s1 : State}
      → x ≢ 0
      → r ≡ w_syscall regs minus_one
      → Covers v s.world p (r_arg1 regs) (r_arg2 regs)
      → At v p s s.heap (v.byte s.world p) s1
      → Returns (λ _ s'. Filled s') (fill_buffer p r (r_arg1 regs) (r_arg2 regs) x s1)
  unfolding fill_buffer
  buffer-Filled x r {s1} ne e covers at =
      let given : (x == 0) ≡ false = ground arith in
      let src : List ℕ = replicate (r_arg2 regs) 0x22 in
      let bytes = replicate-AreBytes (r_arg2 regs) 0x22 (omega arith) in
      let covers' : Covers v s.world p (r_arg1 regs) (length src) =
        λ n lt. covers n (omega (arith, length-replicate {A = ℕ} (r_arg2 regs) 0x22)) in
      rw given (
        Outcome.bind (written laws p s at src (r_arg1 regs) bytes covers') λ _ s2 a2.
          Outcome.mono (returned laws p s (filled-At a2) r (r_arg2 regs)) (λ _ s3 (a3, q). record {
            at = a3;
            regs = q ∙ ap (λ (y : Regs). w_return y (r_arg2 regs)) e;
          }))

  getrandom_fills :
      AtEntry v p s.world
      → Covers v s.world p (r_arg1 regs) (r_arg2 regs)
      → HasRoom
      → Returns (λ _ s'. Filled s') (hook_getrandom p regs s)
  unfolding hook_getrandom
  getrandom_fills entry covers room = Outcome.bind (cancelled laws p s regs entry) λ r s1 (e, a1).
      Outcome.bind (allocated laws p s a1 (r_arg2 regs))
        λ x s2 (got, a2). buffer-Filled x r (rw got (room s1.world)) e covers a2

  -- For a tracee that is stopped at the entry of `getrandom`, and not killed, with memory that nothing
  -- else writes to, before the exit, whose struct `child` points to, whose buffer is mapped,
  -- and for whose buffer `malloc` has room, `handle_syscall` returns; then every byte of the
  -- buffer is 0x22 and every other byte as it was, the table and the structs are as they were, and
  -- the registers are those of the stop with the number -1 and the length of the buffer as the
  -- result.
  pub handle_syscall-getrandom :
      Assoc.lookup child s.heap ≡ some c
      → c.pid ≡ p
      → r_syscall regs ≡ nr_getrandom
      → AtEntry v p s.world
      → Covers v s.world p (r_arg1 regs) (r_arg2 regs)
      → HasRoom
      → Returns (λ _ s'. Filled s') (handle_syscall child regs s)
  unfolding dispatch
  handle_syscall-getrandom here own n entry covers room =
      subst (Returns (λ _ s'. Filled s'))
        (sym (handle_syscall-dispatch child regs s c p nr_getrandom here own n))
        (getrandom_fills entry covers room)
