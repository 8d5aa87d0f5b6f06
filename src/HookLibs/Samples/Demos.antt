-- ===== src/HookLibs/Samples/Demos.antt =====
-- The `main` functions of zpoline_samples: src/main.rs, examples/simple_hooks.rs and examples/trait_hooks.rs. What
-- std and libc do for a line that is printed, a file that is read and the like is a parameter: any list
-- of system calls of rewritten code. The statics of zpoline_hook_api are taken to be those that
-- the trampoline leads to.
pub mod Mains
pub mod Shown
pub mod Simple
pub mod Trait
pub mod Traced
use Prim.Native.String.{String}
use zpoline_rs.Prelude.{ℕ, suc, ◌+◌, List, [], ◌∷◌, ◌++◌, Option, none, some}
use zpoline_rs.HookApi.Regs.{SyscallRegs, new}
use zpoline_rs.HookApi.Program.{Program}
use zpoline_rs.HookApi.Process.{Kernel, custom, Process, Outcome, returned, exited, bind}
use zpoline_rs.HookApi.Entry.{
  hook_init, register_syscall_hooks, get_hook_entry_call_count, get_trait_hook_call_count,
}
use zpoline_rs.HookLibs.Observer.Calls.{make_calls}
use zpoline_rs.HookLibs.Stats.{Counts, zero_counts}
use zpoline_rs.HookLibs.Tracer.{TraceLine, trace_hook}
use zpoline_rs.HookLibs.Samples.{
  Statistics, new_statistics, Report, logging_hooks, statistics_hooks,
}

-- What a program asks std or libc for; where the code branches on its answer, what is not done makes
-- no system calls. A text in which std puts a value of its own stands for itself;
-- `write_line` is libc's write(1, msg, len).
pub data Action : Type 0 where
  println eprintln : String → Action
  show_number : String → ℕ → Action
  write_line : (msg len : ℕ) → Action
  process_id : Action
  read_to_string metadata create open_file remove_file : String → Action
  write_all : String → Action

-- One step of a `main`: an action, or a static that is loaded and printed. `show_both` loads two
-- before it prints the first.
pub data Step (F : Type 0) : Type 0 where
  act : Action → Step F
  show : String → F → Step F
  show_both : (String × F) → (String × F) → Step F

-- The system calls of an action, which may differ each time.
abbrev pub Io : Type 0
Io = ℕ → Action → List SyscallRegs

-- libc's write is one system call.
abbrev pub calls_for : Io → ℕ → Action → List SyscallRegs
calls_for io i (write_line msg len) = new 1 1 msg len 0 0 0 ∷ []
calls_for io i (println text) = io i (println text)
calls_for io i (eprintln text) = io i (eprintln text)
calls_for io i (show_number text n) = io i (show_number text n)
calls_for io i process_id = io i process_id
calls_for io i (read_to_string path) = io i (read_to_string path)
calls_for io i (metadata path) = io i (metadata path)
calls_for io i (create path) = io i (create path)
calls_for io i (open_file path) = io i (open_file path)
calls_for io i (remove_file path) = io i (remove_file path)
calls_for io i (write_all text) = io i (write_all text)

-- The numbers that are printed, with their texts.
abbrev pub Shown : Type 0
Shown = List (String × ℕ)

module _ {S K F : Type 0} (kernel : Kernel K) (depth : ℕ) (io : Io)
    (load : F → Process S K → ℕ) where
  abbrev pub act_then :
      ℕ → Action → (Process S K → Outcome S K Shown) → Process S K → Outcome S K Shown
  act_then i a rest p = bind (make_calls kernel depth (calls_for io i a) p) (λ vs q. rest q)

  abbrev pub shown_then : (String × ℕ) → Outcome S K Shown → Outcome S K Shown
  shown_then line o = bind o (λ lines q. returned (line ∷ lines) q)

  -- The steps from the one with number `i` on.
  unfoldable pub run_steps : ℕ → List (Step F) → Process S K → Outcome S K Shown
  run_steps i [] p = returned [] p
  run_steps i (act a ∷ steps) p = act_then i a (run_steps (i + 1) steps) p
  run_steps i (show text f ∷ steps) p =
      let n = load f p in
      shown_then (text, n) (act_then i (show_number text n) (run_steps (i + 1) steps) p)
  run_steps i (show_both (text, f) (text', g) ∷ steps) p =
      let n = load f p in
      let n' = load g p in
      shown_then (text, n)
        (shown_then (text', n')
          (act_then i (show_number text n)
            (act_then (i + 1) (show_number text' n') (run_steps (i + 2) steps)) p))
