-- ===== src/Tracer/Macros.antt =====
-- PTRACE_RETURN (reproduce/include/putils.h) on each kind of reply.
use reproduce.Prelude.{ℕ, ◌≡◌, false, ◌==◌}
use reproduce.Kernel.{Kernel, Reply, minus_one, esrch, exit_failure}
use reproduce.Kernel.Laws.{reply}
use reproduce.Uthash.{Uthash}
use reproduce.Tracer.{State, Cmd, ok, exit, ptrace_return}

module _ ⦃k : Kernel⦄ ⦃u : Uthash⦄ where
  abbrev pub in_world : State → k.World → State
  in_world s w = record s { world = w }

  module _ {A : Type 0} (call : k.World → Reply × k.World) (a : A) (rest : Cmd A) (s : State) where
    pub ptrace_return-ok :
        (call s.world).0 ≡ reply 0 0
        → ptrace_return call a rest s ≡ rest (in_world s (call s.world).1)
    unfolding ptrace_return
    ptrace_return-ok h = rw h

    pub ptrace_return-gone :
        (call s.world).0 ≡ reply minus_one esrch
        → ptrace_return call a rest s ≡ ok a (in_world s (call s.world).1)
    unfolding ptrace_return
    ptrace_return-gone h = rw h

    pub ptrace_return-error :
        (e : ℕ)
        → (e == esrch) ≡ false
        → (call s.world).0 ≡ reply minus_one e
        → ptrace_return call a rest s ≡ exit exit_failure (in_world s (call s.world).1)
    unfolding ptrace_return
    ptrace_return-error e ne h = rw (h, ne)
