-- ===== src/Events/Ends.antt =====
-- The end of the event loop of reproduce/src/events.c, when `waitpid` reports the exits of the traced
-- processes.
pub mod Arrivals
pub mod Lives
pub mod Rounds
pub mod Tracking
use reproduce.Prelude.{
  ℕ, suc, ◌%◌, ◌^◌, ◌≡◌, refl, true, false, ◌||◌, Option, none, some, ◌==◌, if◌then◌else◌, List, [],
  ◌∷◌, length, contains, Bool-cases, Option-cases, arith, ◌+◌, ◌<◌, inl, inr, ap, subst, ◌∙◌, ◌-◌,
}
use reproduce.Prelude.Assoc
use reproduce.Kernel.{Kernel, changed, any, wifexited, wifsignaled}
use reproduce.Uthash.{Uthash}
use reproduce.Tracer.{State, ok}
use reproduce.Tracer.Outcome.{Ends, Returns, returns}
use reproduce.Tracer.Macros.{in_world}
use reproduce.HashTable.{is_hash_table_empty}
use reproduce.HashTable.View.{IsTable, view, is_some, is_hash_table_empty_iff}
use reproduce.HashTable.Changes.{IsTable-IsOwn, delete_process-view, delete_process-found}
use reproduce.Events.{serve, round, handle_event}

abbrev pub AreDistinct : List ℕ → Type 0
AreDistinct [] = Unit
AreDistinct (p ∷ ps) = (contains ps p ≡ false) × AreDistinct ps

module _ ⦃k : Kernel⦄ where
  -- The next reports of `waitpid` are that these processes have exited or were killed.
  abbrev pub ExitsReported : List ℕ → k.World → Type 0
  ExitsReported [] w = Unit
  ExitsReported (p ∷ ps) w =
      ((status : ℕ) × ((k.waitpid any w).0 ≡ changed p status)
        × ((wifexited status || wifsignaled status) ≡ true))
      × ExitsReported ps (k.waitpid any w).1

module _ ⦃k : Kernel⦄ ⦃u : Uthash⦄ (fuel : ℕ) where
  abbrev Tracks : List ℕ → State → Type 0
  Tracks pids s = (j : ℕ) → is_some (view s j) ≡ contains pids j

  none_of_is_some : {A : Type 0} (o : Option A) → is_some o ≡ false → o ≡ none
  none_of_is_some none e = refl
  none_of_is_some (some a) e = absurd (ground arith)

  -- the state after a process behind q was deleted at its exit
  abbrev without : State → (p q : ℕ) → State
  without s p q = record {
    world = (k.waitpid any s.world).1;
    process_table = u.del s.process_table q;
    entry_count = (s.entry_count + 2 ^ 32 - 1) % 2 ^ 32;
    heap = Assoc.remove q s.heap;
  }

  -- While a process is traced, the counter is not 0.
  counts :
      {s : State}
      → IsTable s
      → length (u.iter s.process_table) < 2 ^ 32
      → (p : ℕ) → is_some (view s p) ≡ true
      → (s.entry_count == 0) ≡ false
  unfolding is_hash_table_empty
  counts {s} t small p there = elim (Bool-cases (s.entry_count == 0)) [
    | inr nonzero ↦ nonzero
    | inl z ↦
        let gone : view s p ≡ none = (is_hash_table_empty_iff t small).0 (rw z refl) p in
        absurd (ground arith)
  ]

  no_counts :
      {s : State}
      → IsTable s
      → length (u.iter s.process_table) < 2 ^ 32
      → ((j : ℕ) → view s j ≡ none)
      → (s.entry_count == 0) ≡ true
  unfolding is_hash_table_empty
  no_counts {s} t small gone =
      let empty : is_hash_table_empty s ≡ ok true s = (is_hash_table_empty_iff t small).1 gone in
      ground arith

  after_exit :
      (p : ℕ) (ps : List ℕ) (s : State)
      → IsTable s
      → contains ps p ≡ false
      → Tracks (p ∷ ps) s
      → (q : ℕ) → u.find s.process_table p ≡ some q
      → IsTable (without s p q) × Tracks ps (without s p q)
  after_exit p ps s t fresh tracks q f =
      let s1 : State = in_world s (k.waitpid any s.world).1 in
      let (t', v) =
        subst
          (Ends (λ _ s'. IsTable s' × ((j : ℕ) → view s' j ≡ (if p == j then none else view s j)))
            (λ code s'. ⊥))
          (delete_process-found s1 p q f)
          (delete_process-view (IsTable-IsOwn.move s (k.waitpid any s.world).1 t) p) in
      (
        t',
        λ j. ap is_some (v j) ∙ elim (Bool-cases (p == j)) [
          | inl same ↦ let here : p ≡ j = ground arith in rw (same, ← here, fresh) refl
          | inr other ↦ rw other (tracks j ∙ rw other refl)
        ],
      )

  -- If the table is well formed and tracks the processes of a list of distinct ids and no others,
  -- fewer than 2^32, and `waitpid` reports one after the other that they have exited or were killed,
  -- `handle_event` returns within one round more than there are processes, and no process is traced.
  handle_event-all_exit :
      (pids : List ℕ) (s : State)
      → IsTable s
      → length (u.iter s.process_table) < 2 ^ 32
      → AreDistinct pids
      → ((j : ℕ) → is_some (view s j) ≡ contains pids j)
      → ExitsReported pids s.world
      → Returns
          (λ _ s'. IsTable s' × ((j : ℕ) → view s' j ≡ none))
          (handle_event (suc (length pids)) fuel s)
  unfolding handle_event round serve is_hash_table_empty
  handle_event-all_exit [] s t small distinct tracks reported =
      let gone : (j : ℕ) → view s j ≡ none = λ j. none_of_is_some (view s j) (tracks j) in
      rw (no_counts t small gone) (returns (t, gone))
  handle_event-all_exit (p ∷ ps) s t small (fresh, distinct) tracks ((status, e, ended), reported) =
      elim (Option-cases (u.find s.process_table p)) [
        | inl f ↦ let untracked : view s p ≡ none = rw f refl in absurd (ground (arith, tracks p))
        | inr (q, f) ↦
            let (t', tracks') = after_exit p ps s t fresh tracks q f in
            let left : length (u.iter (u.del s.process_table q)) < 2 ^ 32 =
              omega (arith, u.iter-del s.process_table p q t.valid f) in
            rw
              (
                counts t small p (tracks p ∙ ground arith),
                e,
                ended,
                delete_process-found (in_world s (k.waitpid any s.world).1) p q f,
              )
              (handle_event-all_exit ps (without s p q) t' left distinct tracks' reported)
      ]
