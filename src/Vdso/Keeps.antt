-- ===== src/Vdso/Keeps.antt =====
-- What `remove_vdso` and `proc_init` keep, whatever the kernel replies.
use reproduce.Prelude.{ℕ, zero, suc, ◌+◌, ◌*◌, ◌==◌, ltb, if◌then◌else◌}
use reproduce.Kernel.{Kernel, Reply}
use reproduce.Uthash.{Uthash}
use reproduce.Tracer.{State, Cmd, pure, request}
use reproduce.Tracer.Keeps.{
  KeepsOr, IsOwn, Keeps-if, Keeps-bind, Keeps-request, Keeps-pure, Keeps-fuel, Keeps-check_reply,
  Keeps-ptrace_return,
}
use reproduce.Vdso.{
  at_null, at_ignore, at_sysinfo_ehdr, rsp_index, advance, peek_then, search_auxv, skip_to_auxv,
  remove_vdso,
}
use reproduce.ProcInit.{proc_init}

module _ ⦃k : Kernel⦄ ⦃u : Uthash⦄ {F : Type 0} {P : State → Type 0} (own : IsOwn P) where
  peek_then-Keeps :
      (call : k.World → Reply × k.World) (rest : ℕ → Cmd (Unit {0}))
      → ((x : ℕ) → KeepsOr F P (rest x))
      → KeepsOr F P (peek_then call rest)
  unfolding peek_then
  peek_then-Keeps call rest kr =
      Keeps-bind (request call) _ (Keeps-request call own)
        (λ r. Keeps-check_reply r (pure tt) (rest r.ret) (Keeps-pure tt) (kr r.ret))

  search_auxv-Keeps : (fuel pid pos val : ℕ) → KeepsOr F P (search_auxv fuel pid pos val)
  unfolding search_auxv
  search_auxv-Keeps zero pid pos val = Keeps-fuel Unit
  search_auxv-Keeps (suc fuel) pid pos val = Keeps-if (val == at_null) _ _ (Keeps-pure tt) (
      Keeps-if (val == at_sysinfo_ehdr) _ _
        (peek_then-Keeps (k.pokedata pid pos at_ignore) _ (λ _. Keeps-pure tt))
        (peek_then-Keeps (k.peekdata pid (advance pos 16)) _
          (λ next. search_auxv-Keeps fuel pid (advance pos 16) next)))

  skip_to_auxv-Keeps : (fuel pid pos seen : ℕ) → KeepsOr F P (skip_to_auxv fuel pid pos seen)
  unfolding skip_to_auxv
  skip_to_auxv-Keeps zero pid pos seen = Keeps-fuel Unit
  skip_to_auxv-Keeps (suc fuel) pid pos seen =
      Keeps-if (ltb seen 2) _ _
        (peek_then-Keeps (k.peekdata pid (advance pos 8)) _ (λ val.
          skip_to_auxv-Keeps fuel pid (advance pos 8) (if val == at_null then seen + 1 else seen)))
        (peek_then-Keeps (k.peekdata pid (advance pos 8)) _
          (λ val. search_auxv-Keeps fuel pid (advance pos 8) val))

  pub remove_vdso-Keeps : (fuel pid : ℕ) → KeepsOr F P (remove_vdso fuel pid)
  unfolding remove_vdso
  remove_vdso-Keeps fuel pid =
      peek_then-Keeps (k.peekuser pid (8 * rsp_index)) _ (λ pos. skip_to_auxv-Keeps fuel pid pos 0)

  pub proc_init-Keeps : (fuel pid : ℕ) → KeepsOr F P (proc_init fuel pid)
  unfolding proc_init
  proc_init-Keeps fuel pid =
      Keeps-bind (remove_vdso fuel pid) _ (remove_vdso-Keeps fuel pid)
        (λ _. Keeps-ptrace_return (k.syscall pid) tt _ own (Keeps-pure tt))
