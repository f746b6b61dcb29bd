-- ===== src/Diagnostics/Listing.antt =====
-- What `print_hashtable` lists.
use reproduce.Prelude.{
  ℕ, ◌%◌, ◌^◌, ◌≡◌, refl, Bool, true, false, Option, none, some, List, [], ◌∷◌, ◌++◌, ◌==◌,
  if◌then◌else◌, contains, length, arith, Option-cases, Bool-cases, inl, inr, ap, suc, ◌∙◌, sym,
  subst,
}
use reproduce.Prelude.Assoc
use reproduce.Kernel.{Kernel}
use reproduce.Uthash.{Uthash}
use reproduce.Tracer.{ChildProcess, Heap, State, ok}
use reproduce.HashTable.View.{IsTable, view, is_some}
use reproduce.Diagnostics.{Build, pid_line, print_struct, print_structs, print_hashtable}

-- The lines for some processes, one after the other.
abbrev pub listing : (pids : List ℕ) → List ℕ
listing [] = []
listing (pid ∷ pids) = pid_line pid ++ listing pids

abbrev pid_of : Option ChildProcess → ℕ
pid_of none = 0
pid_of (some c) = c.pid

abbrev pids_of : Heap → (procs : List ℕ) → List ℕ
pids_of heap [] = []
pids_of heap (p ∷ ps) = pid_of (Assoc.lookup p heap) ∷ pids_of heap ps

length-pids_of : (heap : Heap) (ps : List ℕ) → length (pids_of heap ps) ≡ length ps
length-pids_of heap [] = refl
length-pids_of heap (p ∷ ps) = ap suc (length-pids_of heap ps)

contains-pids_of :
    (heap : Heap) (ps : List ℕ) (p : ℕ)
    → contains ps p ≡ true
    → contains (pids_of heap ps) (pid_of (Assoc.lookup p heap)) ≡ true
contains-pids_of heap [] p e = absurd (ground arith)
contains-pids_of heap (q ∷ ps) p e = elim (Bool-cases (q == p)) [
  | inl eq ↦ let same : q ≡ p = ground arith in rw same (ground arith)
  | inr ne ↦ let more = contains-pids_of heap ps p (ground arith) in ground arith
]

of_contains-pids_of :
    (heap : Heap) (ps : List ℕ) (j : ℕ)
    → contains (pids_of heap ps) j ≡ true
    → (p : ℕ) × (contains ps p ≡ true) × (pid_of (Assoc.lookup p heap) ≡ j)
of_contains-pids_of heap [] j e = absurd (ground arith)
of_contains-pids_of heap (q ∷ ps) j e = elim (Bool-cases (pid_of (Assoc.lookup q heap) == j)) [
  | inl eq ↦ (q, ground arith, ground arith)
  | inr ne ↦ let (p, h, f) = of_contains-pids_of heap ps j (ground arith) in (p, ground arith, f)
]

same_test : (a b : Bool) → (a ≡ true → b ≡ true) → (b ≡ true → a ≡ true) → a ≡ b
same_test true b f g = sym (f refl)
same_test false true f g = g refl
same_test false false f g = refl

module _ ⦃k : Kernel⦄ ⦃u : Uthash⦄ (b : Build) (s : State) where
  print_structs-listing :
      b.debug_build ≡ true
      → (ps : List ℕ)
      → ((p : ℕ) → contains ps p ≡ true → (c : ChildProcess) × (Assoc.lookup p s.heap ≡ some c))
      → print_structs b ps s ≡ ok (listing (pids_of s.heap ps)) s
  unfolding print_structs print_struct
  print_structs-listing on [] h = refl
  print_structs-listing on (p ∷ ps) h =
      let (c, e) = h p (ground arith) in
      let rest = print_structs-listing on ps (λ q f. h q (ground arith)) in rw (on, e, rest)

  print_structs-silent : b.debug_build ≡ false → (ps : List ℕ) → print_structs b ps s ≡ ok [] s
  unfolding print_structs print_struct
  print_structs-silent off [] = refl
  print_structs-silent off (p ∷ ps) = rw (off, print_structs-silent off ps)

  print_structs-writes :
      (ps : List ℕ)
      → ((p : ℕ) → contains ps p ≡ true → (c : ChildProcess) × (Assoc.lookup p s.heap ≡ some c))
      → print_structs b ps s ≡ ok (if b.debug_build then listing (pids_of s.heap ps) else []) s
  print_structs-writes ps h = elim (Bool-cases b.debug_build) [
    | inl on ↦ print_structs-listing on ps h ∙ rw on
    | inr off ↦ print_structs-silent off ps ∙ rw off
  ]

  module _ (t : IsTable s) where
    allocated :
        (p : ℕ)
        → contains (u.iter s.process_table) p ≡ true
        → (c : ChildProcess) × (Assoc.lookup p s.heap ≡ some c)
    allocated p h =
        let (key, f) = u.find-of_contains-iter s.process_table p t.valid h in
        let (c, e, own) = t.found key p f in (c, e)

    listed :
        (j : ℕ)
        → contains (pids_of s.heap (u.iter s.process_table)) j ≡ true
        → is_some (view s j) ≡ true
    listed j e =
        let (p, h, own) = of_contains-pids_of s.heap (u.iter s.process_table) j e in
        let (key, f) = u.find-of_contains-iter s.process_table p t.valid h in
        let (c, found, same) = t.found key p f in
        let i : key ≡ j = sym same ∙ ap pid_of (sym found) ∙ own in
        let g : u.find s.process_table j ≡ some p = ap (u.find s.process_table) (sym i) ∙ f in
        rw (g, found)

    traced :
        (j : ℕ)
        → is_some (view s j) ≡ true
        → contains (pids_of s.heap (u.iter s.process_table)) j ≡ true
    traced j e = elim (Option-cases (u.find s.process_table j)) [
      | inl none_there ↦ absurd (ground arith)
      | inr (p, f) ↦
          let (c, found, same) = t.found j p f in
          let h = u.contains-iter-of_find s.process_table j p t.valid f in
          let i : pid_of (Assoc.lookup p s.heap) ≡ j = ap pid_of found ∙ same in
          subst (λ x. contains (pids_of s.heap (u.iter s.process_table)) x ≡ true) i
            (contains-pids_of s.heap (u.iter s.process_table) p h)
    ]

    -- On a well-formed table `print_hashtable` returns and changes nothing. With DEBUG_BUILD it writes
    -- one line for each of some process ids, and without it nothing. These are the ids of the traced
    -- processes and no other, and the counter is their number modulo 2^32.
    pub print_hashtable-lists :
        (pids : List ℕ) × (print_hashtable b s ≡ ok (if b.debug_build then listing pids else []) s)
        × ((j : ℕ) → contains pids j ≡ is_some (view s j))
        × (s.entry_count ≡ length pids % 2 ^ 32)
    unfolding print_hashtable
    print_hashtable-lists = (
      pids_of s.heap (u.iter s.process_table),
      print_structs-writes (u.iter s.process_table) allocated,
      λ j. same_test _ _ (listed j) (traced j),
      t.counted ∙ ap (λ n. n % 2 ^ 32) (sym (length-pids_of s.heap (u.iter s.process_table))),
    )
