-- ===== src/HookLibs/Samples/Tests.antt =====
-- The theorems of the samples' programs at a std that makes one write for everything that it does.
use zpoline_rs.Prelude.{ℕ, ◌≡◌, ◌≢◌, refl, [], ◌∷◌, some, arith, All}
use zpoline_rs.HookApi.Regs.{new}
use zpoline_rs.HookApi.Program.{Program, done, libc_call}
use zpoline_rs.HookApi.Process.{Process}
use zpoline_rs.HookApi.Sample.{counting_kernel, counting_kernel-FollowsAbi, started}
use zpoline_rs.HookLibs.Stats.{Counts}
use zpoline_rs.HookLibs.Samples.{Statistics, new_statistics}
use zpoline_rs.HookLibs.Samples.Demos.{
  Action, println, eprintln, show_number, write_line, process_id, read_to_string, metadata, create,
  open_file, remove_file, write_all, Io, calls_for, Shown,
}
use zpoline_rs.HookLibs.Samples.Demos.Mains.{
  simple_steps, simple_main, trait_steps, trait_main, sample_main,
}
use zpoline_rs.HookLibs.Samples.Demos.Shown.{Leads, history, numbers}
use zpoline_rs.HookLibs.Samples.Demos.Simple.{
  simple_number, expected_lines, Counted, simple_main-Counted,
}
use zpoline_rs.HookLibs.Samples.Demos.Trait.{Recorded, zeros, trait_main-Zeros}
use zpoline_rs.HookLibs.Samples.Demos.Traced.{
  sample_actions, then_calls, Tracing, sample_main-Tracing,
}

abbrev one_write : Io
one_write i a = new 1 1 0x8000 5 0 0 0 ∷ []

one_write-other : (i : ℕ) (a : Action) → All (λ regs. regs.rax ≢ 12) (calls_for one_write i a)
one_write-other i (println text) = (omega arith, tt)
one_write-other i (eprintln text) = (omega arith, tt)
one_write-other i (show_number text n) = (omega arith, tt)
one_write-other i (write_line msg len) = (omega arith, tt)
one_write-other i process_id = (omega arith, tt)
one_write-other i (read_to_string path) = (omega arith, tt)
one_write-other i (metadata path) = (omega arith, tt)
one_write-other i (create path) = (omega arith, tt)
one_write-other i (open_file path) = (omega arith, tt)
one_write-other i (remove_file path) = (omega arith, tt)
one_write-other i (write_all text) = (omega arith, tt)

abbrev prints_once : {M : Type 0} → M → Program (Unit {0})
prints_once m = libc_call (new 1 2 0x7000 9 0 0 0) (λ v. done tt)

abbrev counting_process : Process Counts ℕ
counting_process = started

abbrev idle_process : Process Statistics ℕ
idle_process = started

abbrev sample_process : Process (Unit {0}) ℕ
sample_process = started

-- 13 writes before the first number, and one more for each line after it.
simple_numbers_test :
    numbers one_write (simple_number 0 0) 0 (simple_steps 0x5000) []
    ≡ ("write() calls: ", 13)
      ∷ ("read() calls: ", 0)
      ∷ ("open() calls: ", 0)
      ∷ ("getpid() calls: ", 0)
      ∷ ("hook_entry() calls: ", 19)
      ∷ ("trait_based_hook() calls: ", 19)
      ∷ []
unfolding numbers
simple_numbers_test = refl

simple_main-Counted_example :
    Leads
      (λ lines q.
        (lines ≡ expected_lines one_write 0 0 0x5000)
        × Counted 0 0 (history one_write (simple_number 0 0) 0 (simple_steps 0x5000) []) q)
      (simple_main counting_kernel 2 one_write 0x5000 counting_process)
simple_main-Counted_example =
    simple_main-Counted counting_kernel counting_kernel-FollowsAbi 0 one_write 0x5000
      counting_process one_write-other refl refl refl (omega arith) (omega arith)

trait_main-Zeros_example :
    Leads
      (λ lines q.
        (lines ≡ zeros)
        × Recorded counting_kernel prints_once
            (λ a. [])
            (history one_write (λ n h. n) 2 (trait_steps (some new_statistics)) [])
            q)
      (trait_main counting_kernel 2 one_write prints_once (λ a. []) idle_process)
trait_main-Zeros_example =
    trait_main-Zeros counting_kernel counting_kernel-FollowsAbi prints_once (λ r v. tt) (λ a. []) 0
      one_write idle_process one_write-other
      (record { function_lem = refl; unpoisoned = refl; unlocked = refl; outside = refl })

sample_main-Tracing_example :
    Leads
      (λ (lines : Shown) q.
        (lines ≡ [])
        × Tracing counting_kernel prints_once 0 (then_calls one_write 0 sample_actions []) q)
      (sample_main counting_kernel 2 one_write prints_once sample_process)
sample_main-Tracing_example =
    sample_main-Tracing counting_kernel prints_once (λ l v. tt) 0 one_write sample_process refl
