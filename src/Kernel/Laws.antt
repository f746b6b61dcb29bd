-- ===== src/Kernel/Laws.antt =====
-- What ptrace(2) documents of a tracee that is stopped: its memory and registers are read and
-- written by the requests, and by nothing else. `View` names what can be seen of a tracee, and
-- `Ptrace` is the list of the documented facts, a hypothesis of the theorems that need them.
use reproduce.Prelude.{
  ℕ, zero, suc, ◌+◌, ◌*◌, ◌^◌, ◌≤◌, ◌<◌, ◌≡◌, Bool, true, false, List, [], ◌∷◌, leb, ltb, ◌&&◌,
  ◌||◌, ◌-◌, if◌then◌else◌, get_or, length, ◌∙◌,
}
use reproduce.Prelude.Bytes.{from_le, byte_of}
use reproduce.Kernel.{Kernel, Regs, Reply, changed, only, minus_one, eio, wifexited, wifsignaled}

pub record View (World : Type 0) : Type 1 where
  -- the process is a tracee in a ptrace stop
  pub Stopped : World → ℕ → Type 0
  -- the stop is the one at the entry of a system call, not at its exit nor of another kind
  pub Entering : World → ℕ → Type 0
  -- until its next stop the process is not killed, and nothing else writes to its memory
  pub Undisturbed : World → ℕ → Type 0
  -- the word from this address on lies in its address space
  pub mapped : World → (pid addr : ℕ) → Bool
  pub byte : World → (pid addr : ℕ) → ℕ
  pub regs : World → (pid : ℕ) → Regs

abbrev pub reply : ℕ → ℕ → Reply
reply r e = record { ret = r; errno = e }

-- A memory with the first n bytes of a buffer written from an address on.
abbrev pub overlay_first : ℕ → (ℕ → ℕ) → ℕ → List ℕ → ℕ → ℕ
overlay_first n m dest src a =
    if leb dest a && ltb a (dest + n) then get_or src (a - dest) 0 else m a

-- A memory with a whole buffer written from an address on.
abbrev pub overlay : (ℕ → ℕ) → ℕ → List ℕ → ℕ → ℕ
overlay m dest src = overlay_first (length src) m dest src

module _ {W : Type 0} (v : View W) where
  abbrev pub bytes_at : W → ℕ → ℕ → ℕ → List ℕ
  bytes_at w p a zero = []
  bytes_at w p a (suc n) = v.byte w p a ∷ bytes_at w p (a + 1) n

  abbrev pub word_at : W → ℕ → ℕ → ℕ
  word_at w p a = from_le (bytes_at w p a 8)

  -- Each word of a buffer lies in the address space.
  abbrev pub Covers : W → (pid dest len : ℕ) → Type 0
  Covers w p dest len = (n : ℕ) → 8 * n < len → v.mapped w p (dest + 8 * n) ≡ true

  -- The tracee is stopped at the entry of a system call, and comes to the exit by itself.
  pub record AtEntry (p : ℕ) (w : W) : Type 0 where
    pub stopped : v.Stopped w p
    pub entering : v.Entering w p
    pub undisturbed : v.Undisturbed w p

  -- The tracee is still stopped, over the same memory.
  pub record SameMemory (p : ℕ) (w w' : W) : Type 0 where
    pub stopped : v.Stopped w' p
    pub mapped : (a : ℕ) → v.mapped w' p a ≡ v.mapped w p a
    pub byte : (a : ℕ) → v.byte w' p a ≡ v.byte w p a

  -- The tracee is still stopped, over memory that agrees with `m`.
  pub record Holds (p : ℕ) (w : W) (m : ℕ → ℕ) (w' : W) : Type 0 where
    pub stopped : v.Stopped w' p
    pub mapped : (a : ℕ) → v.mapped w' p a ≡ v.mapped w p a
    pub byte : (a : ℕ) → v.byte w' p a ≡ m a

pub SameMemory-trans :
    {W : Type 0} {v : View W} {p : ℕ} {w w' w'' : W}
    → SameMemory v p w w'
    → SameMemory v p w' w''
    → SameMemory v p w w''
SameMemory-trans h g = record {
  stopped = g.stopped;
  mapped = λ a. g.mapped a ∙ h.mapped a;
  byte = λ a. g.byte a ∙ h.byte a;
}

pub record Ptrace ⦃k : Kernel⦄ (v : View k.World) : Type 1 where
  pub byte-lt : (w : k.World) (p a : ℕ) → v.byte w p a < 256
  -- a mapped word lies below the end of the address space
  pub mapped-lt : (w : k.World) (p a : ℕ) → v.mapped w p a ≡ true → a + 8 ≤ 2 ^ 64
  pub peek :
      (w : k.World) (p a : ℕ)
      → v.Stopped w p
      → v.mapped w p a ≡ true
      → (k.peekdata p a w).0 ≡ reply (word_at v w p a) 0
  pub peek_unmapped :
      (w : k.World) (p a : ℕ)
      → v.Stopped w p
      → v.mapped w p a ≡ false
      → (k.peekdata p a w).0 ≡ reply minus_one eio
  pub peek-memory : (w : k.World) (p a : ℕ) → v.Stopped w p → SameMemory v p w (k.peekdata p a w).1
  pub peek-regs :
      (w : k.World) (p a : ℕ) → v.Stopped w p → v.regs (k.peekdata p a w).1 p ≡ v.regs w p
  pub poke :
      (w : k.World) (p a x : ℕ)
      → v.Stopped w p
      → v.mapped w p a ≡ true
      → (k.pokedata p a x w).0 ≡ reply 0 0
  pub poke-memory :
      (w : k.World) (p a x : ℕ)
      → v.Stopped w p
      → v.mapped w p a ≡ true
      → Holds v p w
          (λ b. if leb a b && ltb b (a + 8) then byte_of (b - a) x else v.byte w p b)
          (k.pokedata p a x w).1
  pub poke_unmapped :
      (w : k.World) (p a x : ℕ)
      → v.Stopped w p
      → v.mapped w p a ≡ false
      → (k.pokedata p a x w).0 ≡ reply minus_one eio
  pub peekuser_rsp :
      (w : k.World) (p : ℕ) → v.Stopped w p → (k.peekuser p (8 * 19) w).0 ≡ reply (v.regs w p).rsp 0
  pub peekuser-memory :
      (w : k.World) (p a : ℕ) → v.Stopped w p → SameMemory v p w (k.peekuser p a w).1
  pub setregs : (w : k.World) (p : ℕ) (r : Regs) → v.Stopped w p → (k.setregs p r w).0 ≡ reply 0 0
  pub setregs-memory :
      (w : k.World) (p : ℕ) (r : Regs) → v.Stopped w p → SameMemory v p w (k.setregs p r w).1
  pub setregs-regs :
      (w : k.World) (p : ℕ) (r : Regs) → v.Stopped w p → v.regs (k.setregs p r w).1 p ≡ r
  -- the tracer's own memory is no tracee's
  pub malloc-memory :
      (live : List ℕ) (size : ℕ) (w : k.World) (p : ℕ)
      → v.Stopped w p
      → SameMemory v p w (k.malloc live size w).1
  pub getregs : (w : k.World) (p : ℕ) → v.Stopped w p → (k.getregs p w).0 ≡ (reply 0 0, v.regs w p)
  pub getregs-memory : (w : k.World) (p : ℕ) → v.Stopped w p → SameMemory v p w (k.getregs p w).1
  pub getregs-regs : (w : k.World) (p : ℕ) → v.Stopped w p → v.regs (k.getregs p w).1 p ≡ v.regs w p
  -- a stopped tracee is resumed
  pub resume : (w : k.World) (p : ℕ) → v.Stopped w p → (k.syscall p w).0 ≡ reply 0 0
  -- Requests that read or write registers or read memory do not move the tracee on.
  pub getregs-entry : (w : k.World) (p : ℕ) → AtEntry v p w → AtEntry v p (k.getregs p w).1
  pub setregs-entry :
      (w : k.World) (p : ℕ) (r : Regs) → AtEntry v p w → AtEntry v p (k.setregs p r w).1
  pub peek-entry : (w : k.World) (p a : ℕ) → AtEntry v p w → AtEntry v p (k.peekdata p a w).1
  -- A tracee that is resumed at the entry of a system call with the number -1 runs no system call,
  -- and none of its own code, before the stop at the exit.
  pub cancel_wait :
      (w : k.World) (p : ℕ)
      → AtEntry v p w
      → (v.regs w p).orig_rax ≡ minus_one
      → (st : ℕ) × ((k.waitpid (only p) (k.syscall p w).1).0 ≡ changed p st)
        × ((wifexited st || wifsignaled st) ≡ false)
  pub cancel-memory :
      (w : k.World) (p : ℕ)
      → AtEntry v p w
      → (v.regs w p).orig_rax ≡ minus_one
      → SameMemory v p w (k.waitpid (only p) (k.syscall p w).1).1
