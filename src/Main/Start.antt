-- ===== src/Main/Start.antt =====
-- How the tracer comes to its event loop.
use reproduce.Prelude.{
  ℕ, ◌^◌, ◌<◌, ◌≤◌, ◌≡◌, refl, true, false, ◌||◌, Option, none, some, List, [], ltb, ◌==◌,
  if◌then◌else◌, length, arith, ◌∙◌, ◌↔◌, ap, sym,
}
use reproduce.Kernel.{Kernel, changed, only, minus_one, wifexited, wifsignaled}
use reproduce.Uthash.{Uthash}
use reproduce.Tracer.{State, Run, ok, exit, fault, out_of_fuel, and_then, pure, ◌>>◌}
use reproduce.Tracer.Macros.{in_world}
use reproduce.HashTable.Fresh.{address_of_new, with_new, insert_process-absent, with_new-IsTable}
use reproduce.HashTable.View.{IsTable, view}
use reproduce.HashTable.Changes.{IsTable-IsOwn, new_process}
use reproduce.Events.Runs.{Loops, handle_event_iff}
use reproduce.Events.{handle_event}
use reproduce.Main.{status, seed_of, trace_options, initialize_seed, start_trace, run_parent, main}

module _ ⦃k : Kernel⦄ ⦃u : Uthash⦄ where
  -- The state in which a program starts: no process is traced.
  pub record IsInitial (s : State) : Type 0 where
    pub table : s.process_table ≡ u.empty
    pub count : s.entry_count ≡ 0
    pub heap : s.heap ≡ []

  pub IsInitial-IsTable : (s : State) → IsInitial s → IsTable s × ((j : ℕ) → view s j ≡ none)
  IsInitial-IsTable s i = (
    record {
      valid = rw i.table u.empty-Valid;
      found = λ pid p e. absurd (none_found pid p e);
      counted = i.count ∙ rw (i.table, u.iter-empty) refl;
    },
    λ j. rw (i.table, u.find-empty j) refl,
  )
    where
      none_found : (pid p : ℕ) → u.find s.process_table pid ≡ some p → ⊥
      none_found pid p e =
          let no : u.find s.process_table pid ≡ none = rw i.table (u.find-empty pid) in cc

  module _ (p seed : ℕ) (s : State) where
    -- The states behind the `waitpid` for the child and behind the setting of its options.
    abbrev pub waited : State
    waited = in_world s (k.waitpid (only p) (k.srandom seed (k.fork s.world).1)).1

    abbrev pub options_set : State
    options_set = in_world s (k.setoptions p trace_options waited.world).1

    -- the state with the child in the table, and the child resumed
    abbrev pub launched : State
    launched = let s' = with_new options_set p in in_world s' (k.syscall p s'.world).1

    -- What the kernel replies when the traced program is started: the tracer is the parent of the
    -- process p, which stops, and every request succeeds.
    pub record Launches : Type 0 where
      pub forked : (k.fork s.world).0 ≡ p
      pub positive : 0 < p
      pub in_range : p < 2 ^ 31
      pub who : ℕ
      pub stop : ℕ
      pub stopped : (k.waitpid (only p) (k.srandom seed (k.fork s.world).1)).0 ≡ changed who stop
      pub alive : (wifexited stop || wifsignaled stop) ≡ false
      pub set : ((k.setoptions p trace_options waited.world).0.ret == minus_one) ≡ false
      pub room : (address_of_new options_set p == 0) ≡ false
      pub resumed : ((k.syscall p (with_new options_set p).world).0.ret == minus_one) ≡ false

  pub main-launched :
      (rounds fuel p : ℕ) (seed_str : Option (List ℕ)) (argv : List (List ℕ)) (s : State)
      → IsInitial s
      → 2 ≤ length argv
      → Launches p (seed_of seed_str) s
      → (main rounds fuel seed_str argv s
          ≡ (handle_event rounds fuel >> pure (status 0)) (launched p (seed_of seed_str) s))
        × IsTable (launched p (seed_of seed_str) s)
        × ((j : ℕ)
            → view (launched p (seed_of seed_str) s) j
              ≡ (if p == j then some (new_process p) else none))
  unfolding main run_parent start_trace initialize_seed
  main-launched rounds fuel p seed_str argv s i named l =
      let enough : ltb (length argv) 2 ≡ false = ground arith in
      let pos = l.positive in
      let below = l.in_range in
      let parent : (p == 0) ≡ false = ground arith in
      let signed : ltb p (2 ^ 31) ≡ true = ground arith in
      let (t, none_yet) = IsInitial-IsTable s i in
      let absent : u.find s.process_table p ≡ none = rw i.table (u.find-empty p) in
      let s2 = options_set p (seed_of seed_str) s in
      let (t', v') = with_new-IsTable s2 p absent l.room (IsTable-IsOwn.move s s2.world t) in
      (
        rw (
          enough,
          l.forked,
          parent,
          signed,
          l.stopped,
          l.alive,
          l.set,
          insert_process-absent s2 p absent l.room,
          l.resumed,
        ),
        IsTable-IsOwn.move _ _ t',
        λ j. v' j ∙ rw (none_yet j) refl,
      )

  -- `main` returns 0 with the states that the loop returns with.
  then_status :
      (r : Run State (Unit {0})) (s' : State)
      → (and_then r (λ _. pure (status 0)) ≡ ok (status 0) s') ↔ (r ≡ ok tt s')
  then_status (ok _ s) s' = (
    λ e. let same : s ≡ s' = ground arith in ap (ok tt) same,
    λ e. let same : s ≡ s' = ground arith in ap (ok (status 0)) same,
  )
  then_status (exit c s) s' = (λ e. absurd (ground arith), λ e. absurd (ground arith))
  then_status fault s' = (λ e. absurd (ground arith), λ e. absurd (ground arith))
  then_status out_of_fuel s' = (λ e. absurd (ground arith), λ e. absurd (ground arith))

  -- Started with no process in the table, with a program to trace, and where the kernel grants every
  -- request of the parent: `main` returns the status 0 with a state exactly when the loop without a
  -- bound goes there, in fewer rounds than the bound, from a state in which the table is well formed
  -- and the new process, with the first time, is the only one traced.
  pub main-Loops :
      (rounds fuel p : ℕ) (seed_str : Option (List ℕ)) (argv : List (List ℕ)) (s : State)
      → IsInitial s
      → 2 ≤ length argv
      → Launches p (seed_of seed_str) s
      → ((s' : State)
          → (main rounds fuel seed_str argv s ≡ ok (status 0) s')
            ↔ ((n : ℕ) × (n < rounds) × Loops fuel n (launched p (seed_of seed_str) s) s'))
        × IsTable (launched p (seed_of seed_str) s)
        × ((j : ℕ)
            → view (launched p (seed_of seed_str) s) j
              ≡ (if p == j then some (new_process p) else none))
  main-Loops rounds fuel p seed_str argv s i named l =
      let (e, t, v) = main-launched rounds fuel p seed_str argv s i named l in
      let s1 = launched p (seed_of seed_str) s in
      (
        λ s'.
            let (to, from) = then_status (handle_event rounds fuel s1) s' in
            let (runs, back) = handle_event_iff fuel rounds s1 s' in
            (λ done. runs (to (sym e ∙ done)), λ looped. e ∙ from (back looped)),
        t,
        v,
      )
