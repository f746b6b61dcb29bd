-- ===== src/Tracer/Outcome.antt =====
-- Postconditions of computations. `Returns` asks that the computation returns, `Ends` that it
-- returns or exits; `Leaves` speaks of every way to end, but for the ones that leave no state behind.
use reproduce.Prelude.{subst, refl, ℕ, ◌≡◌}
use reproduce.Kernel.{Kernel}
use reproduce.Uthash.{Uthash}
use reproduce.Tracer.{State, Run, ok, exit, fault, out_of_fuel, M, and_then}

pub data Returns {S A : Type 0} (P : A → S → Type 0) : Run S A → Type 0 where
  returns : {a : A} {s : S} → P a s → Returns P (ok a s)

module _ {S A B : Type 0} {P : A → S → Type 0} {Q : B → S → Type 0} where
  pub bind :
      {r : Run S A} {k : A → M S B}
      → Returns P r
      → ((a : A) (s : S) → P a s → Returns Q (k a s))
      → Returns Q (and_then r k)
  bind (returns p) next = next _ _ p

module _ {S A : Type 0} {P Q : A → S → Type 0} where
  pub mono : {r : Run S A} → Returns P r → ((a : A) (s : S) → P a s → Q a s) → Returns Q r
  mono (returns p) weaken = returns (weaken _ _ p)

-- The state that a run leaves, if it leaves one, has the property; F says when it may fault.
abbrev pub LeavesOr : {S A : Type 0} → (F : Type 0) → (S → Type 0) → Run S A → Type 0
LeavesOr F P (ok a s) = P s
LeavesOr F P (exit c s) = P s
LeavesOr F P fault = F
LeavesOr F P out_of_fuel = Unit

abbrev pub Leaves : {S A : Type 0} → (S → Type 0) → Run S A → Type 0
Leaves P r = LeavesOr Unit P r

module _ {S A : Type 0} (P Q : S → Type 0) where
  pub LeavesOr-mono :
      (F : Type 0) (r : Run S A) → LeavesOr F P r → ((s : S) → P s → Q s) → LeavesOr F Q r
  LeavesOr-mono F (ok a s) h weaken = weaken s h
  LeavesOr-mono F (exit c s) h weaken = weaken s h
  LeavesOr-mono F fault h weaken = h
  LeavesOr-mono F out_of_fuel h weaken = tt

  pub Leaves-mono : (r : Run S A) → Leaves P r → ((s : S) → P s → Q s) → Leaves Q r
  Leaves-mono r = LeavesOr-mono Unit r

module _ {S A : Type 0} (P Q R : S → Type 0) where
  pub Leaves-both :
      (r : Run S A) → Leaves P r → Leaves Q r → ((s : S) → P s → Q s → R s) → Leaves R r
  Leaves-both (ok a s) h g both = both s h g
  Leaves-both (exit c s) h g both = both s h g
  Leaves-both fault h g both = tt
  Leaves-both out_of_fuel h g both = tt

-- The run returns with P or exits with E, and does nothing that C leaves undefined.
abbrev pub Ends : {S A : Type 0} → (A → S → Type 0) → (ℕ → S → Type 0) → Run S A → Type 0
Ends P E (ok a s) = P a s
Ends P E (exit c s) = E c s
Ends P E fault = ⊥
Ends P E out_of_fuel = ⊥

module _ {S A B : Type 0} (P : A → S → Type 0) (Q : B → S → Type 0) (E F : ℕ → S → Type 0) where
  pub Ends-bind :
      (r : Run S A) (k : A → M S B)
      → Ends P E r
      → ((a : A) (s : S) → P a s → Ends Q F (k a s))
      → ((c : ℕ) (s : S) → E c s → F c s)
      → Ends Q F (and_then r k)
  Ends-bind (ok a s) k h next stopped = next a s h
  Ends-bind (exit c s) k h next stopped = stopped c s h
  Ends-bind fault k h next stopped = h
  Ends-bind out_of_fuel k h next stopped = h

module _ {S A : Type 0} (P : A → S → Type 0) (E F : ℕ → S → Type 0) where
  pub Ends-weaken : (r : Run S A) → Ends P E r → ((c : ℕ) (s : S) → E c s → F c s) → Ends P F r
  Ends-weaken (ok a s) h stopped = h
  Ends-weaken (exit c s) h stopped = stopped c s h
  Ends-weaken fault h stopped = h
  Ends-weaken out_of_fuel h stopped = h

module _ {S A : Type 0} (P Q : A → S → Type 0) (E F : ℕ → S → Type 0) where
  pub Ends-mono :
      (r : Run S A)
      → Ends P E r
      → ((a : A) (s : S) → P a s → Q a s)
      → ((c : ℕ) (s : S) → E c s → F c s)
      → Ends Q F r
  Ends-mono (ok a s) h returned stopped = returned a s h
  Ends-mono (exit c s) h returned stopped = stopped c s h
  Ends-mono fault h returned stopped = h
  Ends-mono out_of_fuel h returned stopped = h

module _ {S A : Type 0} {P : A → S → Type 0} (E : ℕ → S → Type 0) where
  pub Ends-of_Returns : {r : Run S A} → Returns P r → Ends P E r
  Ends-of_Returns (returns p) = p

-- What a run that returns comes to.
pub at_ok :
    {S A : Type 0} {P : A → S → Type 0} {r : Run S A} {a : A} {s : S}
    → Returns P r
    → r ≡ ok a s
    → P a s
at_ok {P} returned e = subst (Ends P (λ c s. ⊥)) e (Ends-of_Returns (λ c s. ⊥) returned)

pub run_of :
    {S : Type 0} {P : Unit {0} → S → Type 0} {r : Run S (Unit {0})}
    → Returns P r
    → (s : S) × (r ≡ ok tt s)
run_of (returns p) = (_, refl)

module _ ⦃k : Kernel⦄ ⦃u : Uthash⦄ where
  -- The variables of the tracer are as before; the world may have changed.
  pub record SameTables (s s' : State) : Type 0 where
    pub table : s'.process_table ≡ s.process_table
    pub count : s'.entry_count ≡ s.entry_count
    pub heap : s'.heap ≡ s.heap
