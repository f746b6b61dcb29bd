-- ===== src/Events/Ends/Lives.antt =====
-- The event loop while the traced processes make system calls, execute programs and exit, to its end.
use reproduce.Prelude.{
  ℕ, zero, suc, ◌≡◌, refl, Bool, true, false, ◌||◌, Option, none, ◌==◌, if◌then◌else◌, ◌∙◌,
}
use reproduce.Kernel.{Kernel, Regs, changed, any, wifexited, wifsignaled}
use reproduce.Kernel.Laws.{View, Ptrace}
use reproduce.Uthash.{Uthash}
use reproduce.Tracer.{State, ok}
use reproduce.Tracer.Outcome.{Returns, returns}
use reproduce.HashTable.{is_hash_table_empty}
use reproduce.HashTable.View.{IsTable, view}
use reproduce.Syscalls.Reproducible.{AnsweredCall}
use reproduce.Events.{serve, round, handle_event}
use reproduce.Events.Runs.{reported}
use reproduce.Events.Stops.{StopStatus}
use reproduce.Events.Histories.{StandsAt}
use reproduce.Events.Histories.Execs.{Image, ExecsAt}
use reproduce.Kernel.Frames.{Frames}
use reproduce.Events.Stops.Forked.{new_child}
use reproduce.Events.Ends.{none_of_is_some, counts, no_counts}
use reproduce.Events.Ends.Tracking.{IsTracking, reported-IsTracking}
use reproduce.Events.Ends.Rounds.{
  ForksAt, Served, exit-Served, call-Served, exec-Served, fork-Served,
}
use reproduce.Events.Ends.Arrivals.{ArrivesAt, ForkedAt, arrival-Served, known-Served}

module _ ⦃k : Kernel⦄ ⦃u : Uthash⦄ where
  module _ (v : View k.World) (fuel : ℕ) where
    -- What `waitpid` reports in the rounds to come, until no process of the set is traced: that one of
    -- them has exited or was killed, that one stops at a system call that the tracer can serve or does
    -- not look at, that one executes a program, that one has forked a child, which is traced from then
    -- on, or, while some process is traced, that another stops first, which is traced from then on, and
    -- that one of them has forked a child that is traced already.
    pub data Lives : (rounds : ℕ) → (tracked : ℕ → Bool) → State → Type 0 where
      over : {tracked : ℕ → Bool} {s : State} → ((j : ℕ) → tracked j ≡ false) → Lives zero tracked s
      exits :
          {n : ℕ} {tracked : ℕ → Bool} {s : State} (p status : ℕ)
          → tracked p ≡ true
          → (k.waitpid any s.world).0 ≡ changed p status
          → (wifexited status || wifsignaled status) ≡ true
          → ((s' : State)
              → serve fuel p status (reported fuel s) ≡ ok tt s'
              → Lives n (λ j. if p == j then false else tracked j) s')
          → Lives (suc n) tracked s
      calls :
          {n : ℕ} {tracked : ℕ → Bool} {s : State} (p status : ℕ) (call : Option AnsweredCall)
          (r : Regs) (m : ℕ → ℕ)
          → tracked p ≡ true
          → (k.waitpid any s.world).0 ≡ changed p status
          → StopStatus 0 status
          → StandsAt v p call r m (reported fuel s)
          → ((s' : State) → serve fuel p status (reported fuel s) ≡ ok tt s' → Lives n tracked s')
          → Lives (suc n) tracked s
      executes :
          {n : ℕ} {tracked : ℕ → Bool} {s : State} (p status : ℕ) (i : Image)
          → tracked p ≡ true
          → (k.waitpid any s.world).0 ≡ changed p status
          → ExecsAt v fuel p i status (reported fuel s)
          → ((s' : State) → serve fuel p status (reported fuel s) ≡ ok tt s' → Lives n tracked s')
          → Lives (suc n) tracked s
      forks :
          {n : ℕ} {tracked : ℕ → Bool} {s : State} (p status : ℕ)
          → tracked p ≡ true
          → (k.waitpid any s.world).0 ≡ changed p status
          → ForksAt v p status tracked (reported fuel s)
          → ((s' : State)
              → serve fuel p status (reported fuel s) ≡ ok tt s'
              → Lives n (λ j. if new_child p (reported fuel s) == j then true else tracked j) s')
          → Lives (suc n) tracked s
      arrives :
          {n : ℕ} {tracked : ℕ → Bool} {s : State} (p status q : ℕ)
          → tracked q ≡ true
          → (k.waitpid any s.world).0 ≡ changed p status
          → ArrivesAt v fuel p status tracked (reported fuel s)
          → ((s' : State)
              → serve fuel p status (reported fuel s) ≡ ok tt s'
              → Lives n (λ j. if p == j then true else tracked j) s')
          → Lives (suc n) tracked s
      announces :
          {n : ℕ} {tracked : ℕ → Bool} {s : State} (p status : ℕ)
          → tracked p ≡ true
          → (k.waitpid any s.world).0 ≡ changed p status
          → ForkedAt v p status tracked (reported fuel s)
          → ((s' : State) → serve fuel p status (reported fuel s) ≡ ok tt s' → Lives n tracked s')
          → Lives (suc n) tracked s

  -- A round that returns, in a loop that tracks a process.
  handle_event-step :
      (n fuel p status : ℕ) (s s' : State)
      → (s.entry_count == 0) ≡ false
      → (k.waitpid any s.world).0 ≡ changed p status
      → serve fuel p status (reported fuel s) ≡ ok tt s'
      → handle_event (suc n) fuel s ≡ handle_event n fuel s'
  unfolding handle_event round is_hash_table_empty
  handle_event-step n fuel p status s s' nonzero e served = rw (nonzero, e, served) refl

  module _ {v : View k.World} (laws : Ptrace v) where
    -- What holds when the loop has ended.
    abbrev Ended : State → Type 0
    Ended s' = IsTable s' × ((j : ℕ) → view s' j ≡ none)

    -- One round, and the rest of the loop.
    Returns-Served :
        (fuel n p status q : ℕ) (tracked after : ℕ → Bool) (s : State)
        → IsTracking tracked s
        → tracked q ≡ true
        → (k.waitpid any s.world).0 ≡ changed p status
        → Served fuel p status after (reported fuel s)
        → ((s' : State)
            → serve fuel p status (reported fuel s) ≡ ok tt s'
            → IsTracking after s'
            → Returns (λ _ s2. Ended s2) (handle_event (suc n) fuel s'))
        → Returns (λ _ s2. Ended s2) (handle_event (suc (suc n)) fuel s)
    Returns-Served fuel n p status q tracked after s h there e (s', served, h') rest =
        let nonzero = counts fuel h.table h.small q (h.tracks q ∙ there) in
        rw (handle_event-step (suc n) fuel p status s s' nonzero e served) (rest s' served h')

    -- When the table is well formed, with fewer than 2^32 entries, and exactly the processes of a
    -- set are traced, and in each of a number of rounds `waitpid` reports that one of those still
    -- traced has exited or was killed, stops with no event at a system call that the tracer can
    -- serve or does not look at, executes a program with a stack that can be read and fuel enough
    -- for it, or forks, by a call that is not hooked, a child that is not traced yet, for which
    -- there is room, and which is traced from then on, or that, while one is traced, a process that
    -- is not stops with no event, with a stack that can be read, fuel enough for it, and room for
    -- it in memory and in the table, and is traced from then on, or that one of those traced has
    -- forked, by a call that is not hooked, a child that is traced already, so that none is left
    -- after them: the event loop returns within one round more, and no process is traced. The
    -- tracer can serve a call of a clock or for random bytes at its entry, if the process is not
    -- disturbed before the exit (killed, or its memory written to by others), the memory for the
    -- answer is mapped, and there is room for the random bytes; and one that opens a file, if its
    -- path can be read, and, for a random device, it is also at its entry, not disturbed, and run
    -- by the kernel without a write to the memory of the process.
    pub handle_event-Lives :
        (frames : Frames v) (fuel n : ℕ) (tracked : ℕ → Bool) (s : State)
        → IsTracking tracked s
        → Lives v fuel n tracked s
        → Returns (λ _ s'. IsTable s' × ((j : ℕ) → view s' j ≡ none)) (handle_event (suc n) fuel s)
    unfolding handle_event round is_hash_table_empty
    handle_event-Lives frames fuel zero tracked s h (over none_left) =
        let gone : (j : ℕ) → view s j ≡ none =
          λ j. none_of_is_some fuel (view s j) (h.tracks j ∙ none_left j) in
        rw (no_counts fuel h.table h.small gone) (returns (h.table, gone))
    handle_event-Lives frames fuel (suc n) tracked s h (exits p status there e ended more) =
        Returns-Served fuel n p status p tracked (λ j. if p == j then false else tracked j) s h
          there e
          (exit-Served fuel p status tracked (reported fuel s)
            (reported-IsTracking fuel tracked s h) there ended)
          (λ s' served h'. handle_event-Lives frames fuel n _ s' h' (more s' served))
    handle_event-Lives frames fuel (suc n) tracked s h
          (calls p status call r m there e st at more) =
        Returns-Served fuel n p status p tracked tracked s h there e
          (call-Served laws fuel p status tracked (reported fuel s) call r m
            (reported-IsTracking fuel tracked s h) there st at)
          (λ s' served h'. handle_event-Lives frames fuel n tracked s' h' (more s' served))
    handle_event-Lives frames fuel (suc n) tracked s h (executes p status i there e at more) =
        Returns-Served fuel n p status p tracked tracked s h there e
          (exec-Served laws fuel p status tracked (reported fuel s) i
            (reported-IsTracking fuel tracked s h) there at)
          (λ s' served h'. handle_event-Lives frames fuel n tracked s' h' (more s' served))
    handle_event-Lives frames fuel (suc n) tracked s h (forks p status there e at more) =
        Returns-Served fuel n p status p tracked
          (λ j. if new_child p (reported fuel s) == j then true else tracked j) s h there e
          (fork-Served laws frames fuel p status tracked (reported fuel s)
            (reported-IsTracking fuel tracked s h) there at)
          (λ s' served h'. handle_event-Lives frames fuel n _ s' h' (more s' served))
    handle_event-Lives frames fuel (suc n) tracked s h (arrives p status q there e at more) =
        Returns-Served fuel n p status q tracked (λ j. if p == j then true else tracked j) s h there
          e
          (arrival-Served laws fuel p status tracked (reported fuel s)
            (reported-IsTracking fuel tracked s h) at)
          (λ s' served h'. handle_event-Lives frames fuel n _ s' h' (more s' served))
    handle_event-Lives frames fuel (suc n) tracked s h (announces p status there e at more) =
        Returns-Served fuel n p status p tracked tracked s h there e
          (known-Served laws frames fuel p status tracked (reported fuel s)
            (reported-IsTracking fuel tracked s h) there at)
          (λ s' served h'. handle_event-Lives frames fuel n tracked s' h' (more s' served))
