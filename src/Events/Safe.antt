-- ===== src/Events/Safe.antt =====
-- The event loop without a use of NULL or of a freed struct.
use reproduce.Prelude.{ℕ, ◌≡◌, false, some, Option-cases, Bool-cases, inl, inr, ◌==◌, arith}
use reproduce.Kernel.{Kernel, minus_one, esrch}
use reproduce.Kernel.Stays.{StaysThere}
use reproduce.Uthash.{Uthash}
use reproduce.Tracer.{State, check_reply}
use reproduce.Tracer.Outcome.{LeavesOr, LeavesOr-mono}
use reproduce.Tracer.Keeps.{Safe, Leaves-bind}
use reproduce.Tracer.Macros.{in_world}
use reproduce.HashTable.View.{IsTable}
use reproduce.HashTable.Changes.{IsTable-IsOwn}
use reproduce.HashTable.Keeps.{find_process_lem, insert_process-Keeps, delete_process-Keeps}
use reproduce.Syscalls.{handle_syscall}
use reproduce.Syscalls.Safe.{HasStruct, handle_syscall-Safe}
use reproduce.Events.Keeps.{hook_new-Keeps, ptrace_delete-Keeps}
use reproduce.Events.Loop.{IsKept}
use reproduce.Events.{ptrace_delete_getregs, hook_found, hook}

module _ ⦃k : Kernel⦄ ⦃u : Uthash⦄ (stays : StaysThere k) where
  hook_found-Safe :
      (fuel pid child : ℕ) (s : State)
      → IsTable s
      → u.find s.process_table pid ≡ some child
      → LeavesOr ⊥ IsTable (hook_found fuel pid (some child) s)
  unfolding hook_found ptrace_delete_getregs check_reply
  hook_found-Safe fuel pid child s t e =
      let reply = (k.getregs pid s.world).0.0 in
      let regs = (k.getregs pid s.world).0.1 in
      let s1 : State = in_world s (k.getregs pid s.world).1 in
      let there = stays.getregs pid s.world in
      let t1 = IsTable-IsOwn.move s s1.world t in
      elim (Bool-cases (reply.ret == minus_one)) [
        | inl error ↦
            let other : (reply.errno == esrch) ≡ false = ground (arith, there) in
            rw (error, other) t1
        | inr read ↦
            let (c, ec, own) = t.found pid child e in
            let has : HasStruct child s1 = record { table = t1; c = c; struct = ec } in
            rw read (
              Leaves-bind (handle_syscall child regs s1) _
                (LeavesOr-mono (HasStruct child) IsTable ⊥ (handle_syscall child regs s1)
                  ((handle_syscall-Safe stays child regs).at s1 has) (λ s2 h. h.table))
                (λ _.
                  ptrace_delete-Keeps IsTable-IsOwn pid (delete_process-Keeps pid) (k.syscall pid)))
      ]

  hook-Safe : (fuel pid : ℕ) → Safe IsTable (hook fuel pid)
  unfolding hook
  hook-Safe fuel pid = record {
    at = λ s t. elim (Option-cases (u.find s.process_table pid)) [
      | inl e ↦
          rw (find_process_lem pid s, e)
            ((hook_new-Keeps IsTable-IsOwn insert_process-Keeps fuel pid).at s t)
      | inr (child, e) ↦ rw (find_process_lem pid s, e) (hook_found-Safe fuel pid child s t e)
    ];
  }

  pub IsTable-IsKept : IsKept ⊥ IsTable
  IsTable-IsKept = record {
    own = IsTable-IsOwn;
    insert = insert_process-Keeps;
    delete = delete_process-Keeps;
    hooked = hook-Safe;
  }
