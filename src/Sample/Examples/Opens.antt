-- ===== src/Sample/Examples/Opens.antt =====
-- Opening files, and processes that have gone.
use reproduce.Prelude.{◌≡◌, refl, []}
use reproduce.Prelude.Assoc
use reproduce.Prelude.Bytes.{codes}
use reproduce.Kernel.{exit_failure}
use reproduce.Tracer.{State, exit, fault}
use reproduce.Tracer.Outcome.{Returns, Ends, SameTables}
use reproduce.Tracer.Macros.{in_world}
use reproduce.Putils.Registers.{w_return}
use reproduce.Putils.Buffer.{replace_buf}
use reproduce.Putils.Buffer.Failures.{replace_buf-Ends}
use reproduce.Putils.Text.{read_child_c_string}
use reproduce.Putils.Text.Strings.{string_at}
use reproduce.Putils.Text.Failures.{read_child_c_string-IsString, IsString}
use reproduce.Syscalls.{nr_open, nr_openat, handle_syscall}
use reproduce.Syscalls.Open.{
  openat, handle_syscall-openat, handle_syscall-open_gone, handle_syscall-open_flags,
}
use reproduce.Events.{hook}
use reproduce.Events.Children.{hook-use_after_free}
use reproduce.Sample.Machine.{at_entry, machine, departed, laws}
use reproduce.Sample.Table.{one_bucket}
use reproduce.Sample.Examples.{entry, process, tracing, mem_of, at_device, at_device-Readable}

handle_syscall-openat_example :
    Returns
      (λ _ s'. SameTables at_device s' × (s'.world.regs ≡ w_return (entry nr_openat 0 5000) 0))
      (handle_syscall 1 (entry nr_openat 0 5000) at_device)
unfolding Assoc.lookup string_at
handle_syscall-openat_example =
    handle_syscall-openat 7 1 process (entry nr_openat 0 5000) at_device refl refl laws tt openat
      refl at_device-Readable
      (λ device. (at_entry 7 _, λ w at same regs. (refl, (0x057f, refl, refl), tt)))

-- open("/dev/urandom", O_RDONLY)
abbrev flagged : State
flagged = tracing (mem_of (codes "/dev/urandom")) (entry nr_open 5000 0) []

handle_syscall-open_flags_example :
    handle_syscall 1 (entry nr_open 5000 0) flagged
    ≡ exit exit_failure (in_world flagged flagged.world)
unfolding Assoc.lookup
handle_syscall-open_flags_example =
    handle_syscall-open_flags 7 1 process (entry nr_open 5000 0) flagged refl refl laws tt refl refl

handle_syscall-open_gone_example :
    handle_syscall ⦃k = departed⦄ 1 (entry nr_openat 0 5000) at_device ≡ fault
unfolding Assoc.lookup
handle_syscall-open_gone_example =
    handle_syscall-open_gone ⦃k = departed⦄ 7 1 process (entry nr_openat 0 5000) at_device refl refl
      openat refl refl

hook-use_after_free_example : hook ⦃k = departed⦄ 100 7 at_device ≡ fault
hook-use_after_free_example = hook-use_after_free ⦃k = departed⦄ at_device 100 7 1 refl refl

read_child_c_string-IsString_example :
    Ends
      (λ r s'. IsString r)
      (λ code s'. code ≡ exit_failure)
      (read_child_c_string 5000 7 at_device)
read_child_c_string-IsString_example = read_child_c_string-IsString 5000 7 at_device

replace_buf-Ends_example :
    Ends
      (λ _ s'. SameTables at_device s')
      (λ code s'. SameTables at_device s' × (code ≡ exit_failure))
      (replace_buf 7 (codes "abc") 70000 at_device)
replace_buf-Ends_example = replace_buf-Ends 7 (codes "abc") 70000 at_device
