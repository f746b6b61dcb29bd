-- ===== src/Sample/Examples/Stops.antt =====
-- Rounds of the event loop for stops of process 7, which is traced, and of process 9, which is not.
use reproduce.Prelude.{refl, [], ◌∷◌, arith}
use reproduce.Prelude.Assoc
use reproduce.Kernel.{Regs, minus_one}
use reproduce.Kernel.Laws.{overlay}
use reproduce.Tracer.{State}
use reproduce.Tracer.Outcome.{Returns}
use reproduce.Putils.Registers.{w_return, w_syscall}
use reproduce.ProcInit.Stack.{Resumed, Hidden}
use reproduce.HashTable.{first_time}
use reproduce.Syscalls.{nr_getrandom, nr_time, tick, timespec_bytes}
use reproduce.Syscalls.Random.{filled}
use reproduce.Syscalls.Clock.{Served, time, ticked_struct}
use reproduce.Events.{serve}
use reproduce.Events.Stops.{StopStatus, serve-exec}
use reproduce.Events.Stops.Answers.{serve-getrandom, serve-clock}
use reproduce.Events.Stops.Passes.{Untouched, serve-unhooked}
use reproduce.Events.Stops.Forked.{Parted, serve-forked}
use reproduce.Sample.Machine.{at_entry, machine, view, laws, frames}
use reproduce.Sample.Table.{one_bucket}
use reproduce.Sample.Examples.{
  entry, process, tracing, mem_of, tracing-IsTable, started, started-StackAt,
}

abbrev call_stop : StopStatus 0 0x857f
call_stop = record { stopped = refl; event = refl }

abbrev random_regs : Regs
random_regs = entry nr_getrandom 5000 20

abbrev at_random : State
at_random = tracing (mem_of []) random_regs []

serve-getrandom_example :
    Returns
      (λ _ s'.
        Resumed 7
          (λ s1.
            Served view 7 at_random at_random.heap
              (filled 0x22 (view.byte at_random.world 7) 5000 20)
              (w_return (w_syscall random_regs minus_one) 20)
              s1)
          s')
      (serve 0 7 0x857f at_random)
unfolding Assoc.lookup
serve-getrandom_example =
    serve-getrandom laws 0 7 1 process 0x857f at_random refl refl refl call_stop (at_entry 7 _) refl
      (λ n lt. ground arith) (λ w e. omega arith)

abbrev time_regs : Regs
time_regs = entry nr_time 5000 0

abbrev at_time : State
at_time = tracing (mem_of []) time_regs []

serve-clock_example :
    Returns
      (λ _ s'.
        Resumed 7
          (λ s1.
            Served view 7 at_time
              ((1, ticked_struct process) ∷ [])
              (overlay (view.byte at_time.world 7) 5000 (timespec_bytes (tick first_time)))
              (w_return (w_syscall time_regs minus_one) 1718099107)
              s1)
          s')
      (serve 0 7 0x857f at_time)
unfolding Assoc.lookup Assoc.write
serve-clock_example =
    serve-clock laws 0 7 1 process 0x857f at_time time refl refl refl call_stop (at_entry 7 _) refl
      (λ given n lt. ground arith)

-- getpid()
abbrev at_getpid : State
at_getpid = tracing (mem_of []) (entry 39 0 0) []

serve-unhooked_example :
    Returns
      (λ _ s'. Resumed 7 (Untouched laws 0 7 1 process 0x857f at_getpid) s')
      (serve 0 7 0x857f at_getpid)
unfolding Assoc.lookup
serve-unhooked_example =
    serve-unhooked laws 0 7 1 process 0x857f at_getpid refl refl call_stop tt refl

serve-exec_example :
    Returns
      (λ _ s'. Resumed 7 (Hidden laws 7 started (6000 ∷ []) [] ((6, 4096) ∷ (33, 61440) ∷ [])) s')
      (serve 6 7 0x4057f started)
serve-exec_example =
    serve-exec laws 6 7 started tt 0x4057f 6 4096 (6000 ∷ []) [] ((33, 61440) ∷ [])
      (record { stopped = refl; event = refl }) refl (started-StackAt 7) (omega arith)

-- fork(): the machine names the new process 9.
abbrev at_fork : State
at_fork = tracing (mem_of []) (entry 57 0 0) []

serve-forked_example :
    Returns (λ _ s'. Resumed 7 (Parted view 7 at_fork) s') (serve 0 7 0x1057f at_fork)
unfolding Assoc.lookup
serve-forked_example =
    serve-forked laws frames 0 7 1 process at_fork (tracing-IsTable _ _ _) refl refl 0x1057f refl
      refl refl tt refl
      (record { named = refl; room = refl; stop = 0x057f; stopped = refl; resumed = refl })
