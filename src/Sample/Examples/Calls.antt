-- ===== src/Sample/Examples/Calls.antt =====
-- The system calls that the tracer answers, at process 7 of the small machine.
use reproduce.Prelude.{refl, [], ◌∷◌, arith}
use reproduce.Prelude.Assoc
use reproduce.Kernel.{Regs, minus_one}
use reproduce.Kernel.Laws.{overlay}
use reproduce.Tracer.{State}
use reproduce.Tracer.Outcome.{Returns}
use reproduce.Putils.Registers.{w_return, w_syscall}
use reproduce.HashTable.{first_time}
use reproduce.Syscalls.{nr_getrandom, nr_time, tick, timespec_bytes, handle_syscall}
use reproduce.Syscalls.Clock.{Served, handle_syscall-clock, time, ticked_struct}
use reproduce.Syscalls.Random.{filled, handle_syscall-getrandom}
use reproduce.Syscalls.Clock.Micros.{handle_syscall-usec}
use reproduce.Syscalls.{nr_gettimeofday}
use reproduce.Kernel.Laws.{word_at}
use reproduce.Prelude.{◌≤◌, ◌≡◌, sym}
use reproduce.Syscalls.Clock.Times.{ticks-first_time}
use reproduce.Sample.Machine.{at_entry, machine, view, laws}
use reproduce.Sample.Table.{one_bucket}
use reproduce.Sample.Examples.{entry, process, tracing, mem_of}

abbrev random_entry : Regs
random_entry = entry nr_getrandom 5000 20

abbrev at_random : State
at_random = tracing (mem_of []) random_entry []

handle_syscall-getrandom_example :
    Returns
      (λ _ s'.
        Served view 7 at_random at_random.heap
          (filled 0x22 (view.byte at_random.world 7) 5000 20)
          (w_return (w_syscall random_entry minus_one) 20)
          s')
      (handle_syscall 1 random_entry at_random)
unfolding Assoc.lookup Assoc.write
handle_syscall-getrandom_example =
    handle_syscall-getrandom laws 7 1 process random_entry at_random refl refl refl (at_entry 7 _)
      (λ n lt. ground arith) (λ w e. omega arith)

abbrev time_entry : Regs
time_entry = entry nr_time 5000 0

abbrev at_time : State
at_time = tracing (mem_of []) time_entry []

handle_syscall-clock_example :
    Returns
      (λ _ s'.
        Served view 7 at_time
          ((1, ticked_struct process) ∷ [])
          (overlay (view.byte at_time.world 7) 5000 (timespec_bytes (tick first_time)))
          (w_return (w_syscall time_entry minus_one) 1718099107)
          s')
      (handle_syscall 1 time_entry at_time)
unfolding Assoc.lookup Assoc.write
handle_syscall-clock_example =
    handle_syscall-clock laws 7 1 process time_entry at_time (at_entry 7 _) refl time refl refl
      (λ given n lt. ground arith)

abbrev day_entry : Regs
day_entry = entry nr_gettimeofday 5000 0

abbrev at_day : State
at_day = tracing (mem_of []) day_entry []

handle_syscall-usec_example :
    Returns
      (λ _ s'.
        (word_at view s'.world 7 5008 ≡ 516453925) × (1_000_000 ≤ word_at view s'.world 7 5008))
      (handle_syscall 1 day_entry at_day)
unfolding Assoc.lookup
handle_syscall-usec_example =
    handle_syscall-usec laws 7 1 process day_entry at_day (at_entry 7 _) refl 0 (omega arith)
      (sym (ticks-first_time 0 first_time (omega arith) (omega arith))) refl refl
      (λ n lt. ground arith)
