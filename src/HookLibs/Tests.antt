-- ===== src/HookLibs/Tests.antt =====
-- The theorems of the hook libraries at a process that a kernel answers.
use zpoline_rs.Prelude.{none, ℕ, ◌-◌, ◌^◌, ◌≡◌, ◌≢◌, refl, List, [], ◌∷◌, some, arith, All}
use zpoline_rs.HookApi.Regs.{SyscallRegs, new}
use zpoline_rs.HookApi.Program.{Program, done, raw_call, libc_call}
use zpoline_rs.HookApi.Process.{Process, trait_based_hook}
use zpoline_rs.HookApi.Entry.{hook_init, register_syscall_hooks, hook_entry}
use zpoline_rs.HookApi.Dispatch.{dispatch_syscall_hooks}
use zpoline_rs.HookApi.Sample.{counting_kernel, counting_kernel-FollowsAbi, started}
use zpoline_rs.HookLibs.Observer.{Answered, hook_entry-Answered}
use zpoline_rs.HookLibs.Observer.Calls.{make_calls}
use zpoline_rs.HookLibs.Stats.{Counts, stats_hooks, zero_counts, init_hooks, zpoline_hook_init}
use zpoline_rs.HookLibs.Stats.Observing.{stats_observer, stats_hooks-Observes}
use zpoline_rs.HookLibs.Stats.Tally.{Counting, Tallied, make_calls-Tallied, loaded-Tallied}
use zpoline_rs.HookApi.Threads.{
  Object, Thread, outside, entered, holding, leaving, under_lock, System, registering, place,
}
use zpoline_rs.HookLibs.Samples.{Statistics, new_statistics, statistics_hooks, logging_hooks}
use zpoline_rs.HookLibs.Samples.Silent.{dispatch-logging_hooks}
use zpoline_rs.HookLibs.Samples.Totals.{AddedUp, make_calls-AddedUp}
use zpoline_rs.HookLibs.Tracer.{TraceLine, zpoline_hook_init as trace_init}
use zpoline_rs.HookLibs.Tracer.Traced.{Traced, zpoline_hook_function-Traced}
use zpoline_rs.HookLibs.Names.{syscall_name, trace_name}
use zpoline_rs.HookLibs.Names.Agreement.{trace_name-syscall_name}

-- A message is one write of rewritten code, and one that is not.
abbrev prints_twice : {M : Type 0} → M → Program (Unit {0})
prints_twice m =
    libc_call (new 1 2 0x7000 9 0 0 0) (λ v. raw_call (new 1 2 0x7000 9 0 0 0) (λ w. done tt))

abbrev no_counts : Counts
no_counts = record { write_count = 0; read_count = 0; open_count = 2 ^ 64 - 1; getpid_count = 0 }

abbrev stats_process : Process Counts ℕ
stats_process = record started {
  hook_function = trait_based_hook;
  trait_object = some (stats_hooks prints_twice, no_counts);
}

stats-Installed : Counting counting_kernel prints_twice no_counts stats_process
stats-Installed = record {
  function_lem = refl;
  object_lem = refl;
  unpoisoned = refl;
  unlocked = refl;
  outside = refl;
}

-- read, open, write and getpid.
abbrev some_calls : List SyscallRegs
some_calls =
    new 0 3 0x8000 100 0 0 0
    ∷ new 2 0x9000 0 0 0 0 0
    ∷ new 1 1 0x8000 100 0 0 0
    ∷ new 39 0 0 0 0 0 0
    ∷ []

some_calls-other : All (λ regs. regs.rax ≢ 12) some_calls
some_calls-other = (omega arith, (omega arith, (omega arith, (omega arith, tt))))

hook_entry-Answered_example :
    Answered counting_kernel
      (stats_hooks prints_twice)
      (stats_observer prints_twice)
      no_counts
      (new 1 1 0x8000 100 0 0 0)
      0
      (hook_entry counting_kernel 2 (new 1 1 0x8000 100 0 0 0) stats_process)
hook_entry-Answered_example =
    hook_entry-Answered counting_kernel (stats_hooks prints_twice) (stats_observer prints_twice)
      counting_kernel-FollowsAbi (stats_hooks-Observes prints_twice (λ m v w. tt)) 0 no_counts
      (new 1 1 0x8000 100 0 0 0) stats_process stats-Installed (omega arith)

make_calls-Tallied_example :
    Tallied counting_kernel prints_twice some_calls no_counts
      (make_calls counting_kernel 2 some_calls stats_process)
make_calls-Tallied_example =
    make_calls-Tallied counting_kernel prints_twice counting_kernel-FollowsAbi (λ m v w. tt) 0
      some_calls no_counts stats_process
      (record {
        write_fits = omega arith;
        read_fits = omega arith;
        open_fits = omega arith;
        getpid_fits = omega arith;
      })
      stats-Installed some_calls-other

abbrev loaded_process : Process Counts ℕ
loaded_process = record started {
  hook_function = trait_based_hook;
  trait_object = some (stats_hooks prints_twice, zero_counts);
}

object_registered : init_hooks prints_twice started ≡ some loaded_process
unfolding register_syscall_hooks
object_registered = refl

loaded_library_test :
    Tallied counting_kernel prints_twice some_calls zero_counts
      (make_calls counting_kernel 2 some_calls (hook_init zpoline_hook_init loaded_process))
loaded_library_test =
    loaded-Tallied counting_kernel prints_twice counting_kernel-FollowsAbi (λ m v w. tt) 0
      some_calls started loaded_process object_registered refl refl some_calls-other

abbrev no_text : ℕ → List ℕ
no_text a = []

abbrev watched_process : Process Statistics ℕ
watched_process = record started {
  hook_function = trait_based_hook;
  trait_object = some (statistics_hooks prints_twice no_text, new_statistics);
}

make_calls-AddedUp_example :
    AddedUp counting_kernel prints_twice no_text some_calls new_statistics
      (make_calls counting_kernel 2 some_calls watched_process)
make_calls-AddedUp_example =
    make_calls-AddedUp counting_kernel prints_twice no_text counting_kernel-FollowsAbi (λ m v w. tt)
      0 some_calls new_statistics watched_process
      (record {
        write_fits = omega arith;
        read_fits = omega arith;
        open_fits = omega arith;
        written_fits = omega arith;
        read_bytes_fit = omega arith;
      })
      (record {
        function_lem = refl;
        object_lem = refl;
        unpoisoned = refl;
        unlocked = refl;
        outside = refl;
      })
      some_calls-other

abbrev traced_process : Process (Unit {0}) ℕ
traced_process = record started { hook_function = trace_init prints_twice }

zpoline_hook_function-Traced_example :
    Traced counting_kernel
      (prints_twice {M = TraceLine} (record { name = syscall_name 12; regs = new 12 0 0 0 0 0 0 }))
      (new 12 0 0 0 0 0 0)
      traced_process
      (hook_entry counting_kernel 2 (new 12 0 0 0 0 0 0) traced_process)
zpoline_hook_function-Traced_example =
    zpoline_hook_function-Traced counting_kernel prints_twice (λ m v w. tt) 0 (new 12 0 0 0 0 0 0)
      traced_process refl refl

named_231 : trace_name 231 ≢ "<unknown>"
unfolding trace_name
named_231 = cc

named_231_test : trace_name 231 ≡ syscall_name 231
named_231_test = trace_name-syscall_name 231 named_231 (omega arith)

logging_write_test :
    dispatch_syscall_hooks logging_hooks no_counts (new 1 1 0x8000 100 0 0 0)
    ≡ dispatch_syscall_hooks (stats_hooks (λ m. done tt)) no_counts (new 1 1 0x8000 100 0 0 0)
logging_write_test = dispatch-logging_hooks no_counts (new 1 1 0x8000 100 0 0 0)

-- A thread registers `StatsHook` anew. Then another asks for its process id while a third one waits to
-- write: it takes the mutex, the kernel answers, and it gives the mutex back.
abbrev getpid_regs : SyscallRegs
getpid_regs = new 39 0 0 0 0 0 0

abbrev stats_object : Counts → Object Counts
stats_object s = some (stats_hooks prints_twice, s)

abbrev one_counted : Counts
one_counted = record no_counts { getpid_count = 1 }

abbrev all_outside : ℕ → Thread Counts
all_outside = place (place (λ i. outside) 3 registering) 3 outside

abbrev both_wait : ℕ → Thread Counts
both_wait = place (place all_outside 1 (entered (new 1 1 0x8000 5 0 0 0))) 2 (entered getpid_regs)

abbrev has_it : ℕ → Thread Counts
has_it = place both_wait 2 (holding getpid_regs (under_lock (stats_object no_counts) getpid_regs))

abbrev counted : System Counts ℕ
counted = record {
  shared = record {
    hook_function = trait_based_hook;
    object = stats_object one_counted;
    owner = none;
    kernel_state = 1;
    registered = stats_object no_counts;
    calls = getpid_regs ∷ [];
  };
  threads =
      place (place has_it 2 (holding getpid_regs (done (7, stats_object one_counted)))) 2
        (leaving 7);
}
