-- ===== src/HookApi/Threads/Tests.antt =====
-- Two threads at the trait object: one asks for its process id, one exits.
use zpoline_rs.Prelude.{[], ◌∷◌, ℕ, ◌≡◌, refl, none, some, arith}
use zpoline_rs.HookApi.Regs.{SyscallRegs, new}
use zpoline_rs.HookApi.Abi.{prototype_of}
use zpoline_rs.HookApi.Defaults.{default_getpid, default_exit}
use zpoline_rs.HookApi.Hooks.{default_hooks}
use zpoline_rs.HookApi.Sample.{counting_kernel, started}
use zpoline_rs.HookApi.Process.{Process, trait_based_hook, returned, exec, trap}
use zpoline_rs.HookApi.Entry.{call_trait_object, hook_entry}
use zpoline_rs.HookApi.Dispatch.{dispatch_syscall_hooks}
use zpoline_rs.HookApi.Threads.Alone.{hook_entry-Passes}
use zpoline_rs.HookApi.Threads.Alone.Running.{seen, Passes}
use zpoline_rs.HookApi.Threads.{
  Object, outside, entered, holding, under_lock, System, Steps, stay, later, pick, call, lock,
  place, at_rest,
}
use zpoline_rs.HookApi.Threads.Holder.{Guarded, Steps-Guarded, one_holder}
use zpoline_rs.HookApi.Threads.Ended.{gone_with, exit-blocks}
use zpoline_rs.HookApi.Threads.Inside.{at}
use zpoline_rs.HookApi.Threads.Finish.{Returns}
use zpoline_rs.HookApi.Threads.Waiting.{waiting-Returns}

abbrev asking : ℕ
asking = 1

abbrev exiting : ℕ
exiting = 2

abbrev getpid_regs : SyscallRegs
getpid_regs = new 39 0 0 0 0 0 0

abbrev exit_call : SyscallRegs
exit_call = new 60 3 0 0 0 0 0

abbrev sample_object : Object (Unit {0})
sample_object = some (default_hooks, tt)

abbrev both_wait : System (Unit {0}) ℕ
both_wait = record {
  shared = (at_rest trait_based_hook sample_object 0).shared;
  threads = place (place (λ i. outside) asking (entered getpid_regs)) exiting (entered exit_call);
}

both_come : Steps counting_kernel (at_rest trait_based_hook sample_object 0) both_wait
both_come =
    later (later stay (pick asking (call getpid_regs refl))) (pick exiting (call exit_call refl))

abbrev one_has_it : System (Unit {0}) ℕ
one_has_it = record {
  shared = record both_wait.shared { owner = some asking };
  threads =
      place both_wait.threads asking (holding getpid_regs (under_lock sample_object getpid_regs));
}

one_holder_example : asking ≡ asking
one_holder_example =
    one_holder trait_based_hook sample_object 0 one_has_it asking asking
      (later both_come (pick asking (lock getpid_regs refl))) refl refl

waiting-Returns_example : Returns counting_kernel one_has_it exiting exit_call
waiting-Returns_example =
    waiting-Returns counting_kernel trait_based_hook sample_object 0 one_has_it exiting exit_call
      (later both_come (pick asking (lock getpid_regs refl))) refl

exit_ends : (r : SyscallRegs) (k : ℕ) → r.rax ≡ 60 → counting_kernel r k ≡ none
unfolding prototype_of
exit_ends r k h = rw h

default_hooks_exit :
    (status : ℕ) → (default_hooks {S = Unit {0}}).hook_exit tt status ≡ default_exit status
unfolding default_hooks
default_hooks_exit status = refl

both_wait-Guarded : Guarded both_wait
both_wait-Guarded = Steps-Guarded {kernel = counting_kernel} (λ j. refl) both_come

exit-blocks_example :
    Steps counting_kernel both_wait (gone_with exiting both_wait)
    × ((gone_with exiting both_wait).shared.owner ≡ some exiting)
    × ((gone_with exiting both_wait).threads asking ≡ entered getpid_regs)
exit-blocks_example =
    exit-blocks default_hooks tt exiting asking exit_call getpid_regs both_wait
      (gone_with exiting both_wait) default_hooks_exit exit_ends both_wait-Guarded refl refl refl
      refl (omega arith) refl stay

-- A thread by itself asks for its process id.
abbrev alone_before : Process (Unit {0}) ℕ
alone_before = record started { hook_function = trait_based_hook; trait_object = sample_object }

abbrev alone_after : Process (Unit {0}) ℕ
alone_after = record alone_before { entry_count = 1; trait_count = 1; kernel_state = 1 }

alone_returns :
    hook_entry counting_kernel 2 getpid_regs alone_before ≡ returned (7, getpid_regs) alone_after
unfolding hook_entry call_trait_object dispatch_syscall_hooks default_hooks default_getpid exec trap
    prototype_of
alone_returns = refl

hook_entry-Passes_example :
    Passes counting_kernel asking 7
      (seen alone_before sample_object [])
      (seen alone_after sample_object (getpid_regs ∷ []))
    × Steps counting_kernel
        (at asking (λ j. outside) (seen alone_before sample_object []) outside)
        (at asking (λ j. outside) (seen alone_after sample_object (getpid_regs ∷ [])) outside)
hook_entry-Passes_example =
    hook_entry-Passes counting_kernel 0 asking (λ j. outside) sample_object [] getpid_regs
      getpid_regs alone_before alone_after 7 refl refl refl alone_returns
