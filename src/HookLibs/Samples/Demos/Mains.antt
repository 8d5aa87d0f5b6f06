-- ===== src/HookLibs/Samples/Demos/Mains.antt =====
-- The `main` functions of zpoline_samples/src/main.rs, zpoline_samples/examples/simple_hooks.rs and
-- zpoline_samples/examples/trait_hooks.rs.
use Prim.Native.String.{String}
use zpoline_rs.Prelude.{ℕ, List, [], ◌∷◌, ◌++◌, Option, none, some}
use zpoline_rs.HookApi.Program.{Program}
use zpoline_rs.HookApi.Process.{Kernel, custom, Process, Outcome, exited, bind}
use zpoline_rs.HookApi.Entry.{
  hook_init, register_syscall_hooks, get_hook_entry_call_count, get_trait_hook_call_count,
}
use zpoline_rs.HookLibs.Stats.{Counts, zero_counts}
use zpoline_rs.HookLibs.Tracer.{TraceLine, trace_hook}
use zpoline_rs.HookLibs.Samples.{
  Statistics, new_statistics, Report, logging_hooks, statistics_hooks,
}
use zpoline_rs.HookLibs.Samples.Demos.{
  println, eprintln, write_line, process_id, read_to_string, metadata, create, open_file,
  remove_file, write_all, Step, act, show, show_both, Io, Shown, run_steps,
}

-- examples/simple_hooks.rs: the statics that `main` loads.
pub data SimpleStatic : Type 0 where
  writes reads opens getpids entries trait_hooks : SimpleStatic

abbrev pub counts_of : {A : Type 0} → Option (A × Counts) → Counts
counts_of none = zero_counts
counts_of (some (hooks, s)) = s

abbrev pub load_simple : {K : Type 0} → SimpleStatic → Process Counts K → ℕ
load_simple writes p = (counts_of p.trait_object).write_count
load_simple reads p = (counts_of p.trait_object).read_count
load_simple opens p = (counts_of p.trait_object).open_count
load_simple getpids p = (counts_of p.trait_object).getpid_count
load_simple entries p = get_hook_entry_call_count p
load_simple trait_hooks p = get_trait_hook_call_count p

-- `main` behind the registration; the argument is where the message lies.
abbrev pub simple_steps : ℕ → List (Step SimpleStatic)
simple_steps msg =
    act (println "=== zpoline-rs Simple Hooks Example ===")
    ∷ act (println "")
    ∷ act (println "Hooks are registered. Performing operations...")
    ∷ act (println "")
    ∷ act (write_line msg 20)
    ∷ act (println "1. Hello, World!")
    ∷ act (println "2. This is a test message.")
    ∷ act process_id
    ∷ act (println "3. My process ID is: {}")
    ∷ act (read_to_string "/etc/hostname")
    ∷ act (println "4. Hostname: {}")
    ∷ act (println "")
    ∷ act (println "=== Syscall Statistics ===")
    ∷ show "write() calls: " writes
    ∷ show "read() calls: " reads
    ∷ show "open() calls: " opens
    ∷ show "getpid() calls: " getpids
    ∷ act (println "")
    ∷ act (println "=== Debug Info ===")
    ∷ show_both ("hook_entry() calls: ", entries) ("trait_based_hook() calls: ", trait_hooks)
    ∷ act (println "")
    ∷ act (println "Example completed successfully!")
    ∷ act (println "Note: The counts above include syscalls made by println! itself.")
    ∷ []

-- A registration that panics ends the program.
abbrev pub go_on :
    {S K A : Type 0} → Option (Process S K) → (Process S K → Outcome S K A) → Outcome S K A
go_on none f = exited
go_on (some p) f = f p

unfoldable pub simple_main :
    {K : Type 0} → Kernel K → ℕ → Io → ℕ → Process Counts K → Outcome Counts K Shown
simple_main kernel depth io msg p =
    go_on (register_syscall_hooks logging_hooks zero_counts p)
      (λ q. run_steps kernel depth io load_simple 0 (simple_steps msg) q)

-- examples/trait_hooks.rs: `print_statistics`; the number is one that is loaded.
abbrev pub print_statistics : Statistics → List (Step ℕ)
print_statistics s =
    act (eprintln "\n========== Syscall Statistics ==========")
    ∷ show "write() calls: " s.write_count
    ∷ show "  Total bytes written: " s.total_bytes_written
    ∷ show "read() calls: " s.read_count
    ∷ show "  Total bytes read: " s.total_bytes_read
    ∷ show "open() calls: " s.open_count
    ∷ act (eprintln "========================================\n")
    ∷ []

abbrev pub test_file : String
test_file = "/tmp/zpoline_test.txt"

abbrev pub perform_syscall_tests : List (Step ℕ)
perform_syscall_tests =
    act (eprintln "=== Test 1: Write to stdout ===")
    ∷ act (println "Hello from zpoline-rs!")
    ∷ act (println "This message goes through our custom write() hook.")
    ∷ act (eprintln "\n=== Test 2: Get process ID ===")
    ∷ act process_id
    ∷ act (println "Process ID: {}")
    ∷ act (eprintln "\n=== Test 3: File operations ===")
    ∷ act (create test_file)
    ∷ act (write_all "Test data from zpoline-rs\n")
    ∷ act (println "Successfully wrote to {}")
    ∷ act (eprintln "Failed to write: {}")
    ∷ act (eprintln "Failed to create file: {}")
    ∷ act (open_file test_file)
    ∷ act (read_to_string test_file)
    ∷ act (println "Read {} bytes from {}")
    ∷ act (println "Content: {}")
    ∷ act (eprintln "Failed to read: {}")
    ∷ act (eprintln "Failed to open file: {}")
    ∷ act (remove_file test_file)
    ∷ act (println "Cleaned up {}")
    ∷ act (eprintln "Failed to remove file: {}")
    ∷ act (eprintln "\n=== Test 4: Multiple writes ===")
    ∷ act (println "Message #1")
    ∷ act (println "Message #2")
    ∷ act (println "Message #3")
    ∷ act (println "Message #4")
    ∷ act (println "Message #5")
    ∷ []

-- `if let Some(ref stats) = STATS`.
abbrev pub print_if_set : Option Statistics → List (Step ℕ)
print_if_set none = []
print_if_set (some stats) = print_statistics stats

abbrev pub trait_banner : List (Step ℕ)
trait_banner =
    act (eprintln "zpoline-rs trait-based hooks demo")
    ∷ act (eprintln "==================================\n")
    ∷ []

-- `main` behind the registration, for what STATS has.
abbrev pub trait_steps : Option Statistics → List (Step ℕ)
trait_steps stats =
    act (eprintln "[INFO] Custom hooks registered using SyscallHooks trait\n")
      ∷ perform_syscall_tests
    ++ print_if_set stats
    ++ act (eprintln "[INFO] Demo completed successfully!") ∷ []

abbrev pub load_number : {S K : Type 0} → ℕ → Process S K → ℕ
load_number n p = n

unfoldable pub trait_main :
    {K : Type 0}
    → Kernel K
    → ℕ
    → Io
    → (Report → Program (Unit {0}))
    → (ℕ → List ℕ)
    → Process Statistics K
    → Outcome Statistics K Shown
trait_main kernel depth io print text_at p =
    bind (run_steps kernel depth io load_number 0 trait_banner p) (λ lines q.
      let stats = some new_statistics in
      go_on (register_syscall_hooks (statistics_hooks print text_at) new_statistics q)
        (λ r. run_steps kernel depth io load_number 2 (trait_steps stats) r))

-- src/main.rs.
abbrev pub sample_steps : List (Step ℕ)
sample_steps =
    act (println "zpoline-rs sample program")
    ∷ act (println "This program traces system calls made by the process.")
    ∷ act (println "")
    ∷ act (println "Executing some system calls...")
    ∷ act (println "1. Hello from zpoline-rs!")
    ∷ act process_id
    ∷ act (println "2. Process ID: {}")
    ∷ act (read_to_string "/proc/self/comm")
    ∷ act (println "3. Process name: {}")
    ∷ act (eprintln "3. Failed to read process name: {}")
    ∷ act (metadata "/tmp")
    ∷ act (println "4. /tmp is a directory: {}")
    ∷ act (eprintln "4. Failed to stat /tmp: {}")
    ∷ act (println "")
    ∷ act (println "Sample completed. Check stderr for syscall trace output.")
    ∷ []

unfoldable pub sample_main :
    {S K : Type 0}
    → Kernel K
    → ℕ
    → Io
    → (TraceLine → Program (Unit {0}))
    → Process S K
    → Outcome S K Shown
sample_main kernel depth io print p =
    run_steps kernel depth io load_number 0 sample_steps (hook_init (custom (trace_hook print)) p)
