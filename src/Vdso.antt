-- ===== src/Vdso.antt =====
-- reproduce/src/vdso.c: hiding the vDSO from a new program, so that it asks the kernel for the time.
pub mod Stack
pub mod Keeps
use reproduce.Prelude.{ℕ, zero, suc, ◌+◌, ◌*◌, ◌%◌, ◌^◌, ltb, ◌==◌, if◌then◌else◌}
use reproduce.Kernel.{Kernel, Reply, minus_one, esrch, exit_failure}
use reproduce.Uthash.{Uthash}
use reproduce.Tracer.{Cmd, pure, stop, out_of_fuel, ◌>>=◌, request, check_reply}

abbrev pub at_null : ℕ
at_null = 0

abbrev pub at_ignore : ℕ
at_ignore = 1

abbrev pub at_sysinfo_ehdr : ℕ
at_sysinfo_ehdr = 33

-- RSP of <sys/reg.h>
abbrev pub rsp_index : ℕ
rsp_index = 19

-- `pos += n`
abbrev pub advance : ℕ → ℕ → ℕ
advance pos n = (pos + n) % 2 ^ 64

module _ ⦃k : Kernel⦄ ⦃u : Uthash⦄ where
  -- A request, with the test of the value for -1 that follows each one; `rest` has the value.
  pub peek_then : (k.World → Reply × k.World) → (ℕ → Cmd (Unit {0})) → Cmd (Unit {0})
  unfolding check_reply
  peek_then call rest = do reply ← request call; check_reply reply (pure tt) (rest reply.ret)

  -- The loop that searches the auxiliary vector, with `val` read at `pos`.
  pub search_auxv : (fuel child_pid pos val : ℕ) → Cmd (Unit {0})
  unfolding peek_then
  search_auxv zero child_pid pos val = λ _. out_of_fuel
  search_auxv (suc fuel) child_pid pos val =
      if val == at_null
      then pure tt
      else if val == at_sysinfo_ehdr
      then peek_then (k.pokedata child_pid pos at_ignore) (λ _. pure tt)
      else peek_then (k.peekdata child_pid (advance pos 16))
          (λ next. search_auxv fuel child_pid (advance pos 16) next)

  -- The loop that counts zero words, and the search that follows it.
  pub skip_to_auxv : (fuel child_pid pos zero_count : ℕ) → Cmd (Unit {0})
  unfolding peek_then
  skip_to_auxv zero child_pid pos zero_count = λ _. out_of_fuel
  skip_to_auxv (suc fuel) child_pid pos zero_count =
      if ltb zero_count 2
      then peek_then (k.peekdata child_pid (advance pos 8)) (λ val.
        skip_to_auxv fuel child_pid (advance pos 8)
          (if val == at_null then zero_count + 1 else zero_count))
      else peek_then (k.peekdata child_pid (advance pos 8))
          (λ val. search_auxv fuel child_pid (advance pos 8) val)

  pub remove_vdso : (fuel child_pid : ℕ) → Cmd (Unit {0})
  unfolding peek_then
  remove_vdso fuel child_pid =
      peek_then (k.peekuser child_pid (8 * rsp_index)) (λ pos. skip_to_auxv fuel child_pid pos 0)
