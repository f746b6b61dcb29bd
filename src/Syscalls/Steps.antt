-- ===== src/Syscalls/Steps.antt =====
-- The steps of which the hooks are made, each with what it does to the tracee and to the tracer.
use reproduce.Prelude.{
  Bool, false, ◌||◌, ◌==◌, ℕ, ◌+◌, ◌*◌, ◌≡◌, refl, List, ◌∙◌, ap, none, some, length, arith,
}
use reproduce.Prelude.Assoc
use reproduce.Prelude.Bytes.{AreBytes, to_le, append-AreBytes, to_le-AreBytes}
use reproduce.Kernel.{Kernel, Regs, minus_one}
use reproduce.Kernel.Laws.{View, Ptrace, AtEntry, SameMemory, Holds, Covers, overlay}
use reproduce.Uthash.{Uthash}
use reproduce.Tracer.{ChildProcess, Heap, State, Cmd, ok, fault, ◌>>=◌, load, malloc}
use reproduce.Tracer.Outcome
use reproduce.Tracer.Outcome.{Returns, returns, SameTables}
use reproduce.Putils.Registers.{r_syscall, w_syscall, w_return}
use reproduce.Putils.Child.{child_cancel_syscall, child_returns}
use reproduce.Putils.Child.Calls.{child_cancel_syscall-memory, child_returns-regs}
use reproduce.Putils.Buffer.{replace_buf}
use reproduce.Putils.Buffer.Overlay.{replace_buf-overlay}
use reproduce.Syscalls.{
  nr_open, nr_openat, nr_openat2, nr_getrandom, nr_gettimeofday, nr_time, nr_clock_gettime,
  dispatch, handle_syscall, advance_clock, write_clock, tick, timespec_bytes,
}

-- The numbers of the system calls that `handle_syscall` looks at.
abbrev pub is_hooked : ℕ → Bool
is_hooked n =
    n == nr_getrandom
    || n == nr_gettimeofday
    || n == nr_time
    || n == nr_clock_gettime
    || n == nr_openat
    || n == nr_open
    || n == nr_openat2

module _ ⦃k : Kernel⦄ ⦃u : Uthash⦄ (v : View k.World) (p : ℕ) (s : State) where
  -- From `s` on, the structs have become `h`, and the memory of the tracee `m`.
  pub record At (h : Heap) (m : ℕ → ℕ) (s' : State) : Type 0 where
    pub table : s'.process_table ≡ s.process_table
    pub count : s'.entry_count ≡ s.entry_count
    pub heap : s'.heap ≡ h
    pub held : Holds v p s.world m s'.world

module _ ⦃k : Kernel⦄ ⦃u : Uthash⦄ (child : ℕ) (regs : Regs) (s : State) where
  -- A struct that has been given back is used.
  pub handle_syscall-dangling :
      Assoc.lookup child s.heap ≡ none → handle_syscall child regs s ≡ fault
  unfolding handle_syscall
  handle_syscall-dangling e = rw e

  -- The call is dispatched for the process whose struct `child` points to.
  pub handle_syscall-dispatch :
      (c : ChildProcess) (p n : ℕ)
      → Assoc.lookup child s.heap ≡ some c
      → c.pid ≡ p
      → r_syscall regs ≡ n
      → handle_syscall child regs s ≡ dispatch n child p regs s
  unfolding handle_syscall
  handle_syscall-dispatch c p n here own e = rw here (
      ap (λ (q : ℕ). dispatch (r_syscall regs) child q regs s) own
      ∙ ap (λ (m : ℕ). dispatch m child p regs s) e)

  -- Any other number than the hooked ones does nothing.
  pub handle_syscall-unhooked :
      (c : ChildProcess)
      → Assoc.lookup child s.heap ≡ some c
      → is_hooked (r_syscall regs) ≡ false
      → handle_syscall child regs s ≡ ok tt s
  unfolding handle_syscall dispatch
  handle_syscall-unhooked c here other = rw here (ground arith)

module _ ⦃k : Kernel⦄ ⦃u : Uthash⦄ {v : View k.World} (laws : Ptrace v) (p : ℕ) (s : State) where
  pub start : v.Stopped s.world p → At v p s s.heap (v.byte s.world p) s
  start stopped = record {
    table = refl;
    count = refl;
    heap = refl;
    held = record { stopped = stopped; mapped = λ a. refl; byte = λ a. refl };
  }

  module _ {h : Heap} {m : ℕ → ℕ} {s1 : State} (at : At v p s h m s1) where
    same_memory :
        (s2 : State) → SameTables s1 s2 → SameMemory v p s1.world s2.world → At v p s h m s2
    same_memory s2 same kept = record {
      table = same.table ∙ at.table;
      count = same.count ∙ at.count;
      heap = same.heap ∙ at.heap;
      held = record {
        stopped = kept.stopped;
        mapped = λ a. kept.mapped a ∙ at.held.mapped a;
        byte = λ a. kept.byte a ∙ at.held.byte a;
      };
    }

    cancelled_from :
        (regs : Regs)
        → AtEntry v p s1.world
        → Returns
            (λ r s2. (r ≡ w_syscall regs minus_one) × At v p s h m s2)
            (child_cancel_syscall p regs s1)
    cancelled_from regs entry =
        Outcome.mono (child_cancel_syscall-memory laws p regs s1 entry)
          (λ r s2 (e, same, kept). (e, same_memory s2 same kept))

    pub returned :
        (regs : Regs) (x : ℕ)
        → Returns
            (λ _ s2. At v p s h m s2 × (v.regs s2.world p ≡ w_return regs x))
            (child_returns p regs x s1)
    returned regs x =
        Outcome.mono (child_returns-regs laws p regs s1 at.held.stopped x)
          (λ _ s2 (same, kept, e). (same_memory s2 same kept, e))

    pub allocated :
        (size : ℕ)
        → Returns
            (λ a s2. (a ≡ (k.malloc (Assoc.addresses h) size s1.world).0) × At v p s h m s2)
            (malloc size s1)
    allocated size = returns (
      ap (λ (g : Heap). (k.malloc (Assoc.addresses g) size s1.world).0) at.heap,
      same_memory _ (record { table = refl; count = refl; heap = refl })
          (laws.malloc-memory (Assoc.addresses s1.heap) size s1.world p at.held.stopped),
    )

    pub ticked :
        (child : ℕ) (c : ChildProcess)
        → Assoc.lookup child h ≡ some c
        → Returns
            (λ _ s2.
              At v p s (Assoc.write child (record c { gettime_data = tick c.gettime_data }) h) m s2)
            (advance_clock child s1)
    unfolding advance_clock
    ticked child c e =
        let there : Assoc.lookup child s1.heap ≡ some c = ap (Assoc.lookup child) at.heap ∙ e in
        rw there (
          returns (record {
            table = at.table;
            count = at.count;
            heap = ap (Assoc.write child (record c { gettime_data = tick c.gettime_data })) at.heap;
            held = at.held;
          }))

    pub written :
        (src : List ℕ) (dest : ℕ)
        → AreBytes src
        → Covers v s.world p dest (length src)
        → Returns (λ _ s2. At v p s h (overlay m dest src) s2) (replace_buf p src dest s1)
    written src dest bytes covers =
        Outcome.mono
          (replace_buf-overlay laws p src dest bytes s1 at.held.stopped
            (λ n lt. at.held.mapped (dest + 8 * n) ∙ covers n lt))
          (λ _ s2 (same, held). record {
            table = same.table ∙ at.table;
            count = same.count ∙ at.count;
            heap = same.heap ∙ at.heap;
            held = record {
              stopped = held.stopped;
              mapped = λ a. held.mapped a ∙ at.held.mapped a;
              byte = λ a. held.byte a ∙ ground (arith, at.held.byte a);
            };
          })

    pub clock_written :
        (child addr : ℕ) (c : ChildProcess)
        → Assoc.lookup child h ≡ some c
        → Covers v s.world p addr 16
        → Returns
            (λ _ s2. At v p s h (overlay m addr (timespec_bytes c.gettime_data)) s2)
            (write_clock child p addr s1)
    unfolding write_clock
    clock_written child addr c e covers =
        let there : Assoc.lookup child s1.heap ≡ some c = ap (Assoc.lookup child) at.heap ∙ e in
        rw there (
          written (timespec_bytes c.gettime_data) addr
            (append-AreBytes (to_le 8 c.gettime_data.tv_sec) (to_le 8 c.gettime_data.tv_nsec)
              (to_le-AreBytes 8 c.gettime_data.tv_sec) (to_le-AreBytes 8 c.gettime_data.tv_nsec))
            covers)

    pub loaded :
        {A : Type 0} {Q : A → State → Type 0} (child : ℕ) (c : ChildProcess)
        (f : ChildProcess → Cmd A)
        → Assoc.lookup child h ≡ some c
        → Returns Q (f c s1)
        → Returns Q ((load child >>= f) s1)
    loaded child c f e r =
        let there : Assoc.lookup child s1.heap ≡ some c = ap (Assoc.lookup child) at.heap ∙ e in
        rw there r

  -- The call is cancelled before anything else is done.
  pub cancelled :
      (regs : Regs)
      → AtEntry v p s.world
      → Returns
          (λ r s2. (r ≡ w_syscall regs minus_one) × At v p s s.heap (v.byte s.world p) s2)
          (child_cancel_syscall p regs s)
  cancelled regs entry = cancelled_from (start entry.stopped) regs entry
