-- ===== src/Tracer/Keeps.antt =====
-- Invariants of computations, one rule for each way to build a computation.
use reproduce.Prelude.{ℕ, Bool, true, false, if◌then◌else◌, ◌==◌}
use reproduce.Kernel.{Kernel, Reply, minus_one, esrch}
use reproduce.Uthash.{Uthash}
use reproduce.Tracer.{
  State, Cmd, Run, ok, exit, fault, out_of_fuel, pure, stop, crash, and_then, ◌>>=◌, request,
  malloc, check_reply, ptrace_return, ptrace_return_out,
}
use reproduce.Tracer.Outcome.{LeavesOr}
use reproduce.Tracer.Macros.{in_world}

module _ ⦃k : Kernel⦄ ⦃u : Uthash⦄ where
  -- Whatever the kernel replies, a state that `m` leaves has the property, if the first one had it;
  -- with ⊥ for F it does not fault.
  pub record KeepsOr {A : Type 0} (F : Type 0) (P : State → Type 0) (m : Cmd A) : Type 0 where
    pub at : (s : State) → P s → LeavesOr F P (m s)

  abbrev pub Keeps : {A : Type 0} → (P : State → Type 0) → Cmd A → Type 0
  Keeps P m = KeepsOr Unit P m

  -- It does not fault either.
  abbrev pub Safe : {A : Type 0} → (P : State → Type 0) → Cmd A → Type 0
  Safe P m = KeepsOr ⊥ P m

  -- The property does not speak of the machine.
  pub record IsOwn (P : State → Type 0) : Type 0 where
    pub move : (s : State) (w : k.World) → P s → P (in_world s w)

  pub Keeps-crash : {P : State → Type 0} (A : Type 0) → Keeps P (crash {A = A})
  Keeps-crash A = record { at = λ s h. tt }

  module _ {F : Type 0} {P : State → Type 0} where
    pub Keeps-pure : {A : Type 0} (a : A) → KeepsOr F P (pure a)
    Keeps-pure a = record { at = λ s h. h }

    pub Keeps-stop : {A : Type 0} (code : ℕ) → KeepsOr F P (stop {A = A} code)
    Keeps-stop code = record { at = λ s h. h }

    pub Keeps-fuel : (A : Type 0) → KeepsOr {A = A} F P (λ _. out_of_fuel)
    Keeps-fuel A = record { at = λ s h. tt }

    pub Keeps-if :
        {A : Type 0} (b : Bool) (m n : Cmd A)
        → KeepsOr F P m
        → KeepsOr F P n
        → KeepsOr F P (if b then m else n)
    Keeps-if true m n km kn = km
    Keeps-if false m n km kn = kn

    pub Leaves-bind :
        {A B : Type 0} (r : Run State A) (f : A → Cmd B)
        → LeavesOr F P r
        → ((a : A) → KeepsOr F P (f a))
        → LeavesOr F P (and_then r f)
    Leaves-bind (ok a s) f h kf = (kf a).at s h
    Leaves-bind (exit c s) f h kf = h
    Leaves-bind fault f h kf = h
    Leaves-bind out_of_fuel f h kf = tt

    pub Keeps-bind :
        {A B : Type 0} (m : Cmd A) (f : A → Cmd B)
        → KeepsOr F P m
        → ((a : A) → KeepsOr F P (f a))
        → KeepsOr F P (m >>= f)
    Keeps-bind m f km kf = record { at = λ s h. Leaves-bind (m s) f (km.at s h) kf }

    pub Keeps-request : {A : Type 0} (f : k.World → A × k.World) → IsOwn P → KeepsOr F P (request f)
    Keeps-request f own = record { at = λ s h. own.move s (f s.world).1 h }

    pub Keeps-malloc : (size : ℕ) → IsOwn P → KeepsOr F P (malloc size)
    Keeps-malloc size own = record { at = λ s h. own.move s _ h }

    pub Keeps-check_reply :
        {A : Type 0} (r : Reply) (gone rest : Cmd A)
        → KeepsOr F P gone
        → KeepsOr F P rest
        → KeepsOr F P (check_reply r gone rest)
    unfolding check_reply
    Keeps-check_reply r gone rest kg kr =
        Keeps-if (r.ret == minus_one) _ _ (Keeps-if (r.errno == esrch) _ _ kg (Keeps-stop 1)) kr

    pub Keeps-ptrace_return :
        {A : Type 0} (call : k.World → Reply × k.World) (a : A) (rest : Cmd A)
        → IsOwn P
        → KeepsOr F P rest
        → KeepsOr F P (ptrace_return call a rest)
    unfolding ptrace_return
    Keeps-ptrace_return call a rest own kr =
        Keeps-bind (request call) _ (Keeps-request call own)
          (λ r. Keeps-check_reply r (pure a) rest (Keeps-pure a) kr)

    pub Keeps-ptrace_return_out :
        {A B : Type 0} (call : k.World → (Reply × B) × k.World) (a : A) (rest : B → Cmd A)
        → IsOwn P
        → ((b : B) → KeepsOr F P (rest b))
        → KeepsOr F P (ptrace_return_out call a rest)
    unfolding ptrace_return_out
    Keeps-ptrace_return_out call a rest own kr =
        Keeps-bind (request call) _ (Keeps-request call own)
          (λ x. Keeps-check_reply x.0 (pure a) (rest x.1) (Keeps-pure a) (kr x.1))

pub ruleset keeps_rules = (
  Keeps-pure, Keeps-stop, Keeps-crash, Keeps-if, Keeps-bind, Keeps-request, Keeps-malloc,
  Keeps-check_reply, Keeps-ptrace_return, Keeps-ptrace_return_out,
)
