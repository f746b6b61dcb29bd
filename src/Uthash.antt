-- ===== src/Uthash.antt =====
-- The hash table of reproduce/include/uthash.h, a copy of another project's library, as an interface: what
-- HASH_FIND_INT, HASH_ADD_INT, HASH_DEL and HASH_ITER do for a table of pointers keyed by a number.
use reproduce.Prelude.{
  ℕ, suc, ◌≡◌, ◌==◌, if◌then◌else◌, Bool, false, Option, none, some, List, [], length, contains,
  true,
}

abbrev pub holds : Option ℕ → ℕ → Bool
holds none p = false
holds (some q) p = q == p

pub record Uthash : Type 1 where
  pub Table : Type 0
  -- the tables that the macros build from an empty one
  pub Valid : Table → Type 0
  pub empty : Table
  pub find : (t : Table) (key : ℕ) → Option ℕ
  pub add : (t : Table) (key ptr : ℕ) → Table
  pub del : (t : Table) (ptr : ℕ) → Table
  pub iter : Table → List ℕ
  pub empty-Valid : Valid empty
  pub find-empty : (key : ℕ) → find empty key ≡ none
  pub iter-empty : iter empty ≡ []
  -- a key or an element that is in the table must not be added again
  pub add-Valid :
      (t : Table) (key ptr : ℕ)
      → Valid t
      → find t key ≡ none
      → ((k : ℕ) → holds (find t k) ptr ≡ false)
      → Valid (add t key ptr)
  pub find-add :
      (t : Table) (key ptr k : ℕ)
      → Valid t
      → find (add t key ptr) k ≡ (if key == k then some ptr else find t k)
  pub iter-add :
      (t : Table) (key ptr : ℕ) → Valid t → length (iter (add t key ptr)) ≡ suc (length (iter t))
  pub del-Valid : (t : Table) (ptr : ℕ) → Valid t → Valid (del t ptr)
  pub find-del :
      (t : Table) (ptr k : ℕ)
      → Valid t
      → find (del t ptr) k ≡ (if holds (find t k) ptr then none else find t k)
  pub iter-del :
      (t : Table) (key ptr : ℕ)
      → Valid t
      → find t key ≡ some ptr
      → suc (length (iter (del t ptr))) ≡ length (iter t)
  pub iter-eq-nil : (t : Table) → Valid t → ((k : ℕ) → find t k ≡ none) → iter t ≡ []
  pub find-of_nil : (t : Table) (k : ℕ) → Valid t → iter t ≡ [] → find t k ≡ none
  -- HASH_ITER walks over the elements that can be found, and no other
  pub contains-iter-of_find :
      (t : Table) (key ptr : ℕ) → Valid t → find t key ≡ some ptr → contains (iter t) ptr ≡ true
  pub find-of_contains-iter :
      (t : Table) (ptr : ℕ)
      → Valid t
      → contains (iter t) ptr ≡ true
      → (key : ℕ) × (find t key ≡ some ptr)
