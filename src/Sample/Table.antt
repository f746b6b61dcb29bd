-- ===== src/Sample/Table.antt =====
-- A hash table of one bucket: an association list in which neither a key nor a pointer occurs
-- twice.
use reproduce.Prelude.{
  ℕ, suc, ◌≡◌, refl, true, false, Option, none, some, List, [], ◌∷◌, ◌==◌, if◌then◌else◌, length,
  contains, arith, Bool-cases, inl, inr,
}
use reproduce.Uthash.{Uthash, holds}

abbrev pub Entries : Type 0
Entries = List (ℕ × ℕ)

abbrev pub find : Entries → ℕ → Option ℕ
find [] k = none
find ((i, q) ∷ t) k = if i == k then some q else find t k

abbrev pub iter : Entries → List ℕ
iter [] = []
iter ((i, q) ∷ t) = q ∷ iter t

abbrev pub del : Entries → ℕ → Entries
del [] p = []
del ((i, q) ∷ t) p = let rest = del t p in if q == p then rest else (i, q) ∷ rest

abbrev pub Valid : Entries → Type 0
Valid [] = Unit
Valid ((i, q) ∷ t) = (find t i ≡ none) × (contains (iter t) q ≡ false) × Valid t

not_contains :
    (t : Entries) (p : ℕ)
    → Valid t
    → ((k : ℕ) → holds (find t k) p ≡ false)
    → contains (iter t) p ≡ false
not_contains [] p h f = refl
not_contains ((i, q) ∷ t) p (new, fresh, h) f =
    let here : (q == p) ≡ false = ground (arith, f i) in
    rw here (
      not_contains t p h (λ k. elim (Bool-cases (i == k)) [
        | inl e ↦ let same : i ≡ k = ground arith in rw (← same) (rw new refl)
        | inr e ↦ ground (arith, f k)
      ]))

pub find-del :
    (t : Entries) (p k : ℕ)
    → Valid t
    → find (del t p) k ≡ (if holds (find t k) p then none else find t k)
find-del [] p k h = refl
find-del ((i, q) ∷ t) p k (new, fresh, h) = elim (Bool-cases (i == k)) [
  | inl e ↦
      let same : i ≡ k = ground arith in
      let gone : find t k ≡ none = rw (← same) new in ground (arith, find-del t p k h)
  | inr e ↦ ground (arith, find-del t p k h)
]

contains-del :
    (t : Entries) (p q : ℕ) → contains (iter t) q ≡ false → contains (iter (del t p)) q ≡ false
contains-del [] p q h = refl
contains-del ((i, r) ∷ t) p q h = ground (arith, contains-del t p q)

pub del-Valid : (t : Entries) (p : ℕ) → Valid t → Valid (del t p)
del-Valid [] p h = tt
del-Valid ((i, q) ∷ t) p (new, fresh, h) = elim (Bool-cases (q == p)) [
  | inl e ↦ rw e (del-Valid t p h)
  | inr e ↦ rw e (ground (arith, find-del t p i h), contains-del t p q fresh, del-Valid t p h)
]

del_absent : (t : Entries) (p : ℕ) → contains (iter t) p ≡ false → del t p ≡ t
del_absent [] p h = refl
del_absent ((i, q) ∷ t) p h = ground (arith, del_absent t p)

pub contains-of_find : (t : Entries) (k p : ℕ) → find t k ≡ some p → contains (iter t) p ≡ true
contains-of_find [] k p h = ground arith
contains-of_find ((i, q) ∷ t) k p h = ground (arith, contains-of_find t k p)

pub iter-del :
    (t : Entries) (k p : ℕ)
    → Valid t
    → find t k ≡ some p
    → suc (length (iter (del t p))) ≡ length (iter t)
iter-del [] k p h e = absurd (ground arith)
iter-del ((i, q) ∷ t) k p (new, fresh, h) e =
    ground (arith, iter-del t k p h, del_absent t p, contains-of_find t k p)

pub iter-eq-nil : (t : Entries) → ((k : ℕ) → find t k ≡ none) → iter t ≡ []
iter-eq-nil [] f = refl
iter-eq-nil ((i, q) ∷ t) f = absurd (ground (arith, f i))

pub find-of_nil : (t : Entries) (k : ℕ) → iter t ≡ [] → find t k ≡ none
find-of_nil [] k e = refl
find-of_nil ((i, q) ∷ t) k e = absurd (ground arith)

-- What is found behind an entry is found in the whole table.
find-cons :
    (i q k p : ℕ) (t : Entries) → find t i ≡ none → find t k ≡ some p → find ((i, q) ∷ t) k ≡ some p
find-cons i q k p t new e = elim (Bool-cases (i == k)) [
  | inl eq ↦ let same : i ≡ k = ground arith in absurd (cc)
  | inr ne ↦ rw ne e
]

pub find-of_contains :
    (t : Entries) (p : ℕ) → Valid t → contains (iter t) p ≡ true → (k : ℕ) × (find t k ≡ some p)
find-of_contains [] p h e = absurd (ground arith)
find-of_contains ((i, q) ∷ t) p (new, fresh, h) e = elim (Bool-cases (q == p)) [
  | inl eq ↦ (i, ground arith)
  | inr ne ↦ let (k, f) = find-of_contains t p h (ground arith) in (k, find-cons i q k p t new f)
]

pub add-Valid :
    (t : Entries) (key ptr : ℕ)
    → Valid t
    → find t key ≡ none
    → ((k : ℕ) → holds (find t k) ptr ≡ false)
    → Valid ((key, ptr) ∷ t)
add-Valid t key ptr h new fresh = (new, not_contains t ptr h fresh, h)

instance abbrev pub one_bucket : Uthash
one_bucket = record {
  Table = Entries;
  Valid = Valid;
  empty = [];
  find = find;
  add = λ t key ptr. (key, ptr) ∷ t;
  del = del;
  iter = iter;
  empty-Valid = tt;
  find-empty = λ key. refl;
  iter-empty = refl;
  add-Valid = add-Valid;
  find-add = λ t key ptr k h. refl;
  iter-add = λ t key ptr h. refl;
  del-Valid = del-Valid;
  find-del = find-del;
  iter-del = iter-del;
  iter-eq-nil = λ t h f. iter-eq-nil t f;
  find-of_nil = λ t k h e. find-of_nil t k e;
  contains-iter-of_find = λ t key p h e. contains-of_find t key p e;
  find-of_contains-iter = find-of_contains;
}
