-- ===== src/Sample/Examples/Histories.antt =====
-- The program of process 7 that calls `time(NULL)` again and again, alone and beside process 9, whose
-- exit is reported in between.
use reproduce.Prelude.{ℕ, suc, ◌%◌, ◌≡◌, refl, some, [], ◌∷◌, arith, ◌∙◌}
use reproduce.Prelude.Assoc
use reproduce.Kernel.{Regs}
use reproduce.Tracer.{State, ok}
use reproduce.HashTable.{first_time}
use reproduce.HashTable.Fresh.{with_new, with_new-IsTable}
use reproduce.HashTable.Changes.{delete_process-found}
use reproduce.Syscalls.{nr_time, nr_openat}
use reproduce.Syscalls.Open.{openat}
use reproduce.Syscalls.Clock.{time}
use reproduce.Syscalls.Reproducible.{Seen, clock, opening}
use reproduce.Syscalls.Programs.{Program, play}
use reproduce.Events.{serve}
use reproduce.Events.Children.{serve-at_exit}
use reproduce.Events.Isolation.{HasProcess}
use reproduce.Events.Histories.{struct_of, StandsAt, Plays, History, begins, other}
use reproduce.Events.Stops.Unexpected.{Adopted}
use reproduce.Events.Histories.Played.{History-goes_on, History-independent}
use reproduce.Events.Histories.Forks.{forked, History-forks}
use reproduce.Sample.Machine.{at_entry, World, machine, view, laws, frames}
use reproduce.Sample.Table.{one_bucket}
use reproduce.Sample.Examples.{
  entry, process, tracing, tracing-IsTable, mem_of, at_device, at_device-Readable,
}

abbrev pub regs : Regs
regs = entry nr_time 0 0

abbrev pub program : Program
program r m = (regs, m)

abbrev pub seen : (ℕ → ℕ) → Seen
seen m = record { regs = regs; memory = m; time = first_time }

abbrev blank : Seen
blank = seen (λ a. mem_of [] a % 256)

pub mod_mod : (n : ℕ) → n % 256 % 256 ≡ n % 256
mod_mod n = omega arith

-- the machine where the program has come to its next stop
abbrev at_stop : (ℕ → ℕ) → World
at_stop m = record { mem = m; regs = regs; reports = [] }

stands :
    (j : ℕ) (m : ℕ → ℕ) (s : State)
    → ((a : ℕ) → m a % 256 ≡ m a)
    → StandsAt view j (some (clock time)) regs m (record s { world = at_stop m })
stands j m s bytes = record {
  stopped = tt;
  regs = refl;
  memory = bytes;
  called = refl;
  can_answer = (at_entry j _, λ given. absurd (ground arith));
}

-- How far the program of the process has come, from where it would first stop with the memory.
pub record Reached (fuel j : ℕ) (m0 : ℕ → ℕ) (s0 : State) (n : ℕ) : Type 0 where
  pub memory : ℕ → ℕ
  pub state : State
  pub bytes : (a : ℕ) → memory a % 256 ≡ memory a
  pub history : History view fuel j program (seen m0) s0 n regs memory state

pub one_more :
    (fuel j : ℕ) (m0 : ℕ → ℕ) (s0 : State) (n : ℕ)
    → HasProcess j (struct_of j first_time) s0
    → Reached fuel j m0 s0 n
    → Reached fuel j m0 s0 (suc n)
one_more fuel j m0 s0 n h x =
    let (answered, served, longer) =
      History-goes_on view fuel j program laws (seen m0) s0 h x.history (at_stop x.memory) 0x857f
        (some (clock time)) (record { stopped = refl; event = refl })
        (stands j x.memory x.state x.bytes) in
    record {
      memory = view.byte answered.world j;
      state = record answered { world = answered.world };
      bytes = λ a. mod_mod (answered.world.mem a);
      history = longer;
    }

abbrev alone : State
alone = tracing (mem_of []) regs []

-- Process 9 is traced, too.
abbrev beside : State
beside = with_new alone 9

alone-HasProcess : HasProcess 7 (struct_of 7 first_time) alone
unfolding Assoc.lookup
alone-HasProcess = record { table = tracing-IsTable _ _ _; struct = refl }

beside-HasProcess : HasProcess 7 (struct_of 7 first_time) beside
unfolding Assoc.lookup
beside-HasProcess =
    let (t, v) = with_new-IsTable alone 9 refl refl (tracing-IsTable _ _ _) in
    record { table = t; struct = v 7 }

two_alone : Reached 0 7 blank.memory alone 2
two_alone = one_more 0 7 blank.memory alone 1 alone-HasProcess (
    one_more 0 7 blank.memory alone 0 alone-HasProcess (record {
      memory = blank.memory;
      state = alone;
      bytes = λ a. mod_mod (mem_of [] a);
      history = begins;
    }))

-- The state after process 9 has exited.
abbrev left : State
left = record beside { process_table = (7, 1) ∷ []; entry_count = 1; heap = (1, process) ∷ [] }

exit_of_nine : serve 0 9 0 beside ≡ ok tt left
unfolding Assoc.remove Assoc.write
exit_of_nine = serve-at_exit 0 9 0 beside refl ∙ delete_process-found beside 9 2 refl

two_beside : Reached 0 7 blank.memory beside 2
two_beside = one_more 0 7 blank.memory beside 1 beside-HasProcess (
    one_more 0 7 blank.memory beside 0 beside-HasProcess (record {
      memory = blank.memory;
      state = left;
      bytes = λ a. mod_mod (mem_of [] a);
      history = other 9 0 beside.world refl begins exit_of_nine;
    }))

History-independent_example :
    Plays 7 (play program 2 blank) regs two_alone.memory two_alone.state
    × Plays 7 (play program 2 blank) regs two_beside.memory two_beside.state
History-independent_example =
    History-independent machine machine one_bucket one_bucket view view laws laws 0 0 7 7 program 2
      blank alone beside alone-HasProcess beside-HasProcess two_alone.history two_beside.history

-- The program that opens /dev/urandom again and again, beside process 9.
abbrev open_regs : Regs
open_regs = entry nr_openat 0 5000

abbrev path_memory : ℕ → ℕ
path_memory = view.byte at_device.world 7

abbrev open_seen : Seen
open_seen = record { regs = open_regs; memory = path_memory; time = first_time }

StandsAt-open :
    StandsAt view 7
      (some (opening openat))
      open_regs
      path_memory
      (record beside { world = at_device.world })
StandsAt-open = record {
  stopped = tt;
  regs = refl;
  memory = λ a. refl;
  called = refl;
  can_answer = (
    at_device-Readable,
    λ device. (
      at_entry 7 _,
      λ w at kept same. (
        (refl, (0x057f, refl, refl), tt),
        record { stopped = tt; mapped = λ a. refl; byte = λ a. refl },
      ),
    ),
  );
}

History-goes_on_example :
    (answered : State) × (serve 0 7 0x857f (record beside { world = at_device.world })
      ≡ ok tt (record answered { world = (machine.syscall 7 answered.world).1 }))
    × History view 0 7
        (λ r m. (open_regs, m))
        open_seen
        beside
        1
        open_regs
        (view.byte answered.world 7)
        (record answered { world = (machine.syscall 7 answered.world).1 })
History-goes_on_example =
    History-goes_on view 0 7 (λ r m. (open_regs, m)) laws open_seen beside beside-HasProcess begins
      at_device.world 0x857f (some (opening openat)) (record { stopped = refl; event = refl })
      StandsAt-open

-- The program that forks again and again; the new process is always 9.
abbrev fork_seen : Seen
fork_seen = record { regs = entry 57 0 0; memory = λ a. mem_of [] a % 256; time = first_time }

abbrev forking : State
forking = record alone { world = record { mem = mem_of []; regs = entry 57 0 0; reports = [] } }

abbrev resumed_fork : State
resumed_fork = forked 7 forking

History-forks_example :
    (serve 0 7 0x1057f forking
      ≡ ok tt (record resumed_fork { world = (machine.syscall 7 resumed_fork.world).1 }))
    × Adopted 9 forking resumed_fork
    × History view 0 7
        (λ r m. (entry 57 0 0, m))
        fork_seen
        alone
        1
        (entry 57 0 0)
        (view.byte resumed_fork.world 7)
        (record resumed_fork { world = (machine.syscall 7 resumed_fork.world).1 })
History-forks_example =
    History-forks view 0 7 (λ r m. (entry 57 0 0, m)) laws frames fork_seen alone alone-HasProcess
      begins forking.world 0x1057f
      (record {
        signalled = refl;
        event = refl;
        stopped = tt;
        regs = refl;
        unhooked = refl;
        forks = record { named = refl; room = refl; stop = 0x057f; stopped = refl; resumed = refl };
        fresh = refl;
        memory = λ a. refl;
      })
