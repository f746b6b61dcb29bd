-- ===== src/Sample/Examples/Memory.antt =====
-- Reading and writing the memory of process 7 of the small machine.
use reproduce.Prelude.{ℕ, zero, suc, ◌≡◌, refl, List, [], ◌∷◌, arith, some}
use reproduce.Prelude.Bytes.{codes}
use reproduce.Kernel.{exit_failure}
use reproduce.Kernel.Laws.{overlay, Holds}
use reproduce.Tracer.{State, exit}
use reproduce.Tracer.Outcome.{Returns, SameTables}
use reproduce.Tracer.Macros.{in_world}
use reproduce.Putils.Buffer.{replace_buf}
use reproduce.Putils.Buffer.Overlay.{replace_buf-overlay}
use reproduce.Putils.Text.{read_child_c_string}
use reproduce.Putils.Text.Strings.{string_at}
use reproduce.Putils.Text.Reads.{read_child_c_string-string_at, Unchanged}
use reproduce.Putils.Text.Readable.{Readable}
use reproduce.Putils.Text.Failures.{read_child_c_string-all_ones}
use reproduce.Vdso.{remove_vdso}
use reproduce.Vdso.Stack.{hide}
use reproduce.Vdso.Stack.Walk.{remove_vdso-hide}
use reproduce.Sample.Machine.{machine, view, laws}
use reproduce.Sample.Table.{one_bucket}
use reproduce.Sample.Examples.{entry, tracing, mem_of, started, started-StackAt}

abbrev text : List ℕ
text = codes "/dev/random"

abbrev reading : State
reading = tracing (mem_of text) (entry 257 0 5000) []

replace_buf-overlay_example :
    Returns
      (λ _ s'.
        SameTables reading s'
        × Holds view 7 reading.world
            (overlay (view.byte reading.world 7) 5003 (codes "a short text"))
            s'.world)
      (replace_buf 7 (codes "a short text") 5003 reading)
replace_buf-overlay_example =
    replace_buf-overlay laws 7 (codes "a short text") 5003 (ground arith) reading tt
      (λ n lt. ground arith)

reading-Readable : Readable view reading.world 7 5000
unfolding string_at
reading-Readable zero lt within = (refl, λ e. absurd (omega arith))
reading-Readable (suc zero) lt within = (refl, λ e. absurd (omega arith))
reading-Readable (suc (suc n)) lt within = absurd (omega arith)

read_child_c_string-string_at_example :
    Returns
      (λ r s'. (r ≡ some text) × Unchanged laws 7 5000 reading s')
      (read_child_c_string 5000 7 reading)
unfolding string_at
read_child_c_string-string_at_example =
    read_child_c_string-string_at laws 7 5000 reading tt reading-Readable

abbrev ones : State
ones = tracing (λ a. 255) (entry 257 0 5000) []

read_child_c_string-all_ones_example :
    read_child_c_string 5000 7 ones ≡ exit exit_failure (in_world ones ones.world)
read_child_c_string-all_ones_example = read_child_c_string-all_ones 5000 7 ones laws tt refl refl

remove_vdso-hide_example :
    Returns
      (λ _ s'.
        SameTables started s'
        × Holds view 7 started.world
            (hide 5032 ((6, 4096) ∷ (33, 61440) ∷ []) (view.byte started.world 7))
            s'.world)
      (remove_vdso 6 7 started)
remove_vdso-hide_example =
    remove_vdso-hide laws 7 started 6 6 4096 (6000 ∷ []) [] ((33, 61440) ∷ []) tt refl
      (started-StackAt 7) (omega arith)
