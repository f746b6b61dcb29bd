-- ===== src/HashTable/View.antt =====
-- What the table stands for: a finite map from process ids to their structs.
use reproduce.Prelude.{
  ℕ, ◌%◌, ◌^◌, ◌<◌, ◌≡◌, ◌↔◌, Bool, true, false, refl, Option, none, some, length, arith,
  Option-cases, inl, inr, ◌∙◌, [], ◌∷◌, List,
}
use reproduce.Prelude.Assoc
use reproduce.Kernel.{Kernel}
use reproduce.Uthash.{Uthash, holds}
use reproduce.Tracer.{ChildProcess, Heap, State, ok}
use reproduce.HashTable.{is_hash_table_empty}

abbrev pub behind : Heap → Option ℕ → Option ChildProcess
behind heap none = none
behind heap (some p) = Assoc.lookup p heap

-- A write to another struct is not seen.
pub behind-write :
    (heap : Heap) (o : Option ℕ) (q : ℕ) (d : ChildProcess)
    → holds o q ≡ false
    → behind (Assoc.write q d heap) o ≡ behind heap o
behind-write heap none q d h = refl
behind-write heap (some r) q d h = rw (Assoc.lookup-write q r d heap) (ground arith)

abbrev pub is_some {ℓ} : {A : Type ℓ} → Option A → Bool
is_some none = false
is_some (some a) = true

module _ ⦃k : Kernel⦄ ⦃u : Uthash⦄ where
  -- the struct that the tracer keeps for a process
  abbrev pub view : State → (pid : ℕ) → Option ChildProcess
  view s pid = behind s.heap (u.find s.process_table pid)

  -- The well-formed states: the table holds allocated structs under their own ids, and the counter
  -- counts them.
  pub record IsTable (s : State) : Type 0 where
    pub valid : u.Valid s.process_table
    pub found :
        (pid p : ℕ)
        → u.find s.process_table pid ≡ some p
        → (c : ChildProcess) × (Assoc.lookup p s.heap ≡ some c) × (c.pid ≡ pid)
    pub counted : s.entry_count ≡ length (u.iter s.process_table) % 2 ^ 32

  module _ {s : State} (t : IsTable s) where
    -- Two ids never share a struct.
    pub found-injective :
        (i j p : ℕ) → u.find s.process_table i ≡ some p → u.find s.process_table j ≡ some p → i ≡ j
    found-injective i j p e f =
        let (c, ec, ei) = t.found i p e in let (d, ed, ej) = t.found j p f in ground arith

    pub view-of_find :
        (pid p : ℕ)
        → u.find s.process_table pid ≡ some p
        → (c : ChildProcess) × (view s pid ≡ some c) × (c.pid ≡ pid)
    view-of_find pid p e = let (c, ec, ei) = t.found pid p e in (c, rw e ec, ei)

    find-of_view-none : (pid : ℕ) → view s pid ≡ none → u.find s.process_table pid ≡ none
    find-of_view-none pid h = elim (Option-cases (u.find s.process_table pid)) [
      | inl e ↦ e
      | inr (p, e) ↦ let (c, ec, ei) = view-of_find pid p e in cc
    ]

    -- On a well-formed table of fewer than 2^32 entries, `is_hash_table_empty` says true exactly
    -- when no process is traced.
    pub is_hash_table_empty_iff :
        length (u.iter s.process_table) < 2 ^ 32
        → (is_hash_table_empty s ≡ ok true s) ↔ ((pid : ℕ) → view s pid ≡ none)
    unfolding is_hash_table_empty
    is_hash_table_empty_iff small = (to, from)
      where
        nil_of_length : (xs : List ℕ) → length xs ≡ 0 → xs ≡ []
        nil_of_length [] e = refl
        nil_of_length (x ∷ xs) e = absurd (omega arith)

        to : is_hash_table_empty s ≡ ok true s → (pid : ℕ) → view s pid ≡ none
        to e pid =
            let zero_count : s.entry_count ≡ 0 = ground arith in
            let c = t.counted in
            let none_left : length (u.iter s.process_table) ≡ 0 = omega arith in
            rw (u.find-of_nil s.process_table pid t.valid (nil_of_length _ none_left))

        from : ((pid : ℕ) → view s pid ≡ none) → is_hash_table_empty s ≡ ok true s
        from h =
            let e = u.iter-eq-nil s.process_table t.valid (λ pid. find-of_view-none pid (h pid)) in
            let z : s.entry_count ≡ 0 = t.counted ∙ rw e in rw z
