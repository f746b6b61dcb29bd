-- ===== src/HashTable/Keeps.antt =====
-- What the operations of the table keep: that it is well formed, whatever the kernel replies, and any
-- property where they only read.
use reproduce.Prelude.{ℕ, ◌≡◌, refl, Option, none, some, inl, inr, ◌==◌, arith, Bool-cases}
use reproduce.Prelude.Assoc
use reproduce.Kernel.{Kernel}
use reproduce.Uthash.{Uthash}
use reproduce.Tracer.{
  ChildProcess, Timespec, Heap, State, Cmd, Run, ok, exit, fault, out_of_fuel, load, ◌>>=◌,
}
use reproduce.Tracer.Outcome.{Ends, Leaves, LeavesOr}
use reproduce.Tracer.Keeps.{Keeps, KeepsOr}
use reproduce.HashTable.{insert_process, delete_process, find_process, is_hash_table_empty}
use reproduce.HashTable.View.{IsTable}
use reproduce.HashTable.Changes.{insert_process-view, delete_process-view}

module _ ⦃k : Kernel⦄ ⦃u : Uthash⦄ where
  pub Leaves-of_Ends :
      (F : Type 0) {A : Type 0} {P : A → State → Type 0} {E : ℕ → State → Type 0}
      {Q : State → Type 0} (r : Run State A)
      → Ends P E r
      → ((a : A) (s : State) → P a s → Q s)
      → ((c : ℕ) (s : State) → E c s → Q s)
      → LeavesOr F Q r
  Leaves-of_Ends F (ok a s) h f g = f a s h
  Leaves-of_Ends F (exit c s) h f g = g c s h
  Leaves-of_Ends F fault h f g = absurd h
  Leaves-of_Ends F out_of_fuel h f g = tt

  pub find_process_lem :
      (pid : ℕ) (s : State) → find_process pid s ≡ ok (u.find s.process_table pid) s
  unfolding find_process
  find_process_lem pid s = refl

  module _ {F : Type 0} {P : State → Type 0} where
    pub find_process-Keeps : (pid : ℕ) → KeepsOr F P (find_process pid)
    unfolding find_process
    find_process-Keeps pid = record { at = λ s h. h }

    pub empty-Keeps : KeepsOr F P is_hash_table_empty
    unfolding is_hash_table_empty
    empty-Keeps = record { at = λ s h. h }

  pub insert_process-Keeps : {F : Type 0} (pid : ℕ) → KeepsOr F IsTable (insert_process pid)
  insert_process-Keeps pid = record {
    at = λ s t.
        Leaves-of_Ends _ (insert_process pid s) (insert_process-view t pid) (λ a s' h. h.0)
          (λ c s' h. h.0);
  }

  pub delete_process-Keeps : {F : Type 0} (pid : ℕ) → KeepsOr F IsTable (delete_process pid)
  delete_process-Keeps pid = record {
    at = λ s t.
        Leaves-of_Ends _ (delete_process pid s) (delete_process-view t pid) (λ a s' h. h.0)
          (λ c s' h. absurd h);
  }

  rewritten :
      (p q : ℕ) (c : ChildProcess) (time : Timespec) (heap : Heap) (pid : ℕ)
      → Assoc.lookup p heap ≡ some c
      → (d : ChildProcess) × (Assoc.lookup q heap ≡ some d) × (d.pid ≡ pid)
      → (d : ChildProcess) × (Assoc.lookup q (Assoc.write p (record c { gettime_data = time }) heap)
          ≡ some d)
        × (d.pid ≡ pid)
  rewritten p q c time heap pid e (d, f, own) = elim (Bool-cases (p == q)) [
    | inl same ↦ (
      record c { gettime_data = time },
      rw (Assoc.lookup-write p q (record c { gettime_data = time }) heap) (ground arith),
      ground arith,
    )
    | inr other ↦
        (d, rw (Assoc.lookup-write p q (record c { gettime_data = time }) heap) (ground arith), own)
  ]

  pub timed-IsTable :
      (p : ℕ) (time : Timespec) (s : State) (c : ChildProcess)
      → IsTable s
      → Assoc.lookup p s.heap ≡ some c
      → IsTable (record s { heap = Assoc.write p (record c { gettime_data = time }) s.heap })
  timed-IsTable p time s c t e = record {
    valid = t.valid;
    found = λ pid q f. rewritten p q c time s.heap pid e (t.found pid q f);
    counted = t.counted;
  }

  module _ {P : State → Type 0} where
    load_then :
        {A : Type 0} (p : ℕ) (f : ChildProcess → Cmd A) (s : State)
        → ((c : ChildProcess) → Keeps P (f c))
        → P s
        → (o : Option ChildProcess) → Assoc.lookup p s.heap ≡ o
        → Leaves P ((load p >>= f) s)
    load_then p f s kf h none e = rw e tt
    load_then p f s kf h (some c) e = rw e ((kf c).at s h)

    pub load-Keeps :
        {A : Type 0} (p : ℕ) (f : ChildProcess → Cmd A)
        → ((c : ChildProcess) → Keeps P (f c))
        → Keeps P (load p >>= f)
    load-Keeps p f kf = record { at = λ s h. load_then p f s kf h (Assoc.lookup p s.heap) refl }
