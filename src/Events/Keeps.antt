-- ===== src/Events/Keeps.antt =====
-- What the parts of a round of the event loop keep, whatever the kernel replies: a property of the
-- tracer's variables that inserting a process keeps, and deleting the one that the round is about.
use reproduce.Prelude.{ℕ, Bool, true, false, ◌||◌, none, some, ◌==◌}
use reproduce.Kernel.{
  Kernel, Regs, Reply, Wait, changed, failed, only, wifexited, wifsignaled, wifstopped,
}
use reproduce.Uthash.{Uthash}
use reproduce.Tracer.{State, pure, request}
use reproduce.Tracer.Keeps.{
  IsOwn, KeepsOr, Keeps-if, Keeps-bind, Keeps-pure, Keeps-request, Keeps-check_reply,
  Keeps-ptrace_return, Keeps-ptrace_return_out, keeps_rules,
}
use reproduce.HashTable.{insert_process, delete_process}
use reproduce.Vdso.Keeps.{proc_init-Keeps}
use reproduce.ProcInit.{proc_init}
use reproduce.Syscalls.{handle_syscall}
use reproduce.Events.{
  event_of, event_exec, event_fork, event_vfork, event_clone, to_pid, ptrace_delete,
  ptrace_delete_getregs, wait_checked, track_child, register_new_child, hook_found, hook, serve,
}

module _ ⦃k : Kernel⦄ ⦃u : Uthash⦄ {F : Type 0} {P : State → Type 0} (own : IsOwn P) where
  wait_checked-Keeps : (w : Wait) → KeepsOr F P (wait_checked w)
  unfolding wait_checked
  wait_checked-Keeps (failed e) = search keeps_rules
  wait_checked-Keeps (changed pid status) = search keeps_rules

  track_child-Keeps : (n : ℕ) (b : Bool) → KeepsOr F P (track_child n b)
  unfolding track_child
  track_child-Keeps n false = Keeps-pure tt
  track_child-Keeps n true =
      Keeps-bind (request (k.waitpid (only (to_pid n)))) _ (Keeps-request _ own) (λ w.
        Keeps-bind (wait_checked w) _ (wait_checked-Keeps w)
          (λ _. Keeps-ptrace_return (k.syscall (to_pid n)) tt _ own (Keeps-pure tt)))

  init-Keeps : (fuel pid : ℕ) → KeepsOr F P (proc_init fuel pid)
  init-Keeps = proc_init-Keeps own

  module _ (pid : ℕ) (delete : KeepsOr F P (delete_process pid)) where
    pub ptrace_delete-Keeps :
        (call : k.World → Reply × k.World) → KeepsOr F P (ptrace_delete call pid)
    unfolding ptrace_delete
    ptrace_delete-Keeps call =
        Keeps-bind (request call) _ (Keeps-request call own)
          (λ r. Keeps-check_reply r _ _ delete (Keeps-pure tt))

    ptrace_delete_getregs-Keeps : KeepsOr F P (ptrace_delete_getregs pid)
    unfolding ptrace_delete_getregs
    ptrace_delete_getregs-Keeps =
        Keeps-bind (request (k.getregs pid)) _ (Keeps-request (k.getregs pid) own) (λ x.
          Keeps-bind _ _
            (Keeps-check_reply x.0 (delete_process pid) (pure tt) delete (Keeps-pure tt))
            (λ _. Keeps-pure x.1))

    pub hook_found-Keeps :
        (fuel child : ℕ)
        → ((regs : Regs) → KeepsOr F P (handle_syscall child regs))
        → KeepsOr F P (hook_found fuel pid (some child))
    unfolding hook_found
    hook_found-Keeps fuel child handle =
        search (keeps_rules, ptrace_delete_getregs-Keeps, handle, ptrace_delete-Keeps)

  module _ (insert : (pid : ℕ) → KeepsOr F P (insert_process pid)) where
    pub hook_new-Keeps : (fuel pid : ℕ) → KeepsOr F P (hook_found fuel pid none)
    unfolding hook_found
    hook_new-Keeps fuel pid = search (keeps_rules, init-Keeps, insert)

    pub register_new_child-Keeps : (pid : ℕ) → KeepsOr F P (register_new_child pid)
    unfolding register_new_child
    register_new_child-Keeps pid = Keeps-ptrace_return_out (k.geteventmsg pid) tt _ own (λ n.
        Keeps-bind (insert_process (to_pid n)) _ (insert (to_pid n)) (λ b. track_child-Keeps n b))

    pub serve-Keeps :
        (fuel pid status : ℕ)
        → KeepsOr F P (delete_process pid)
        → KeepsOr F P (hook fuel pid)
        → KeepsOr F P (serve fuel pid status)
    unfolding serve
    serve-Keeps fuel pid status delete hooked =
        Keeps-if (wifexited status || wifsignaled status) _ _ delete (
          Keeps-if (wifstopped status) _ _
            (Keeps-if (event_of status == event_exec) _ _ (init-Keeps fuel pid) (
              Keeps-if
                ((event_of status == event_fork || event_of status == event_vfork)
                  || event_of status == event_clone)
                _ _
                (Keeps-bind (register_new_child pid) _ (register_new_child-Keeps pid) (λ _. hooked))
                hooked))
            hooked)
