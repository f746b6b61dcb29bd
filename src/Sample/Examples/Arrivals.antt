-- ===== src/Sample/Examples/Arrivals.antt =====
-- The process 7 has forked the process 9, which stops before the fork of 7 is reported.
use reproduce.Prelude.{refl, true, [], ◌∷◌, ◌==◌, if◌then◌else◌, Bool-cases, inl, inr, arith}
use reproduce.Prelude.Assoc
use reproduce.Tracer.{State}
use reproduce.HashTable.Fresh.{with_new, with_new-IsTable}
use reproduce.Events.Ends.Tracking.{IsTracking, IsTracking-added}
use reproduce.Events.Ends.Rounds.{Served}
use reproduce.Events.Ends.Arrivals.{ArrivesAt, ForkedAt, arrival-Served, known-Served}
use reproduce.Sample.Machine as Sample
use reproduce.Sample.Machine.{machine, laws, frames}
use reproduce.Sample.Table.{one_bucket}
use reproduce.Sample.Examples.{tracing-IsTable, started, started-StackAt}

seven : IsTracking (λ j. 7 == j) started
unfolding Assoc.lookup
seven = record {
  table = tracing-IsTable _ _ _;
  small = omega arith;
  tracks = λ j. elim (Bool-cases (7 == j)) [ inl e ↦ rw e refl | inr e ↦ rw e refl ];
}

first_stop : ArrivesAt Sample.view 6 9 0x857f (λ j. 7 == j) started
first_stop = record {
  event = record { stopped = refl; event = refl };
  there = tt;
  clear = refl;
  args = 6000 ∷ [];
  env = [];
  type = 6;
  value = 4096;
  aux = (33, 61440) ∷ [];
  stack = started-StackAt 9;
  enough = omega arith;
  fresh = refl;
  memory = λ w. refl;
  room = omega arith;
}

child_first : Served 6 9 0x857f (λ j. if 9 == j then true else (7 == j)) started
child_first = arrival-Served laws 6 9 0x857f (λ j. 7 == j) started seven first_stop

-- The event of 7 is reported when 9 is in the table.
abbrev with_both : State
with_both = with_new started 9

both : IsTracking (λ j. if 9 == j then true else (7 == j)) with_both
both =
    let (t, w) = with_new-IsTable started 9 refl refl (tracing-IsTable _ _ _) in
    IsTracking-added (λ j. 7 == j) started with_both 9 2 seven (omega arith) t refl w

event : ForkedAt Sample.view 7 0x1057f (λ j. if 9 == j then true else (7 == j)) with_both
event = record {
  stopped = refl;
  event = refl;
  there = tt;
  unhooked = refl;
  named = refl;
  known = refl;
}

parent_second : Served 6 7 0x1057f (λ j. if 9 == j then true else (7 == j)) with_both
parent_second =
    known-Served laws frames 6 7 0x1057f (λ j. if 9 == j then true else (7 == j)) with_both both
      refl event
