-- ===== src/HookApi/Tests.antt =====
-- The theorems of the hook API at concrete states, and the crate's own tests.
use zpoline_rs.HookApi.Entry.Registering.{register_allocating, register_allocating-blocks}
use zpoline_rs.Prelude.{[], ◌∷◌}
use zpoline_rs.HookApi.Process.{blocked}
use zpoline_rs.Prelude.{ℕ, ◌+◌, ◌^◌, ◌≡◌, ◌≢◌, inr, refl, some, arith}
use zpoline_rs.HookApi.Sample.{counting_kernel, counting_kernel-FollowsAbi, started}
use zpoline_rs.HookApi.Regs.{SyscallRegs, new, zeroed}
use zpoline_rs.HookApi.Program.{done, raw_call, libc_call}
use zpoline_rs.HookApi.Abi.{prototype_of, forward}
use zpoline_rs.HookApi.Hooks.{keep, default_hooks}
use zpoline_rs.HookApi.Dispatch.{dispatch_syscall_hooks}
use zpoline_rs.HookApi.Dispatch.Forward.{dispatch-default_hooks}
use zpoline_rs.HookApi.Process.{
  HookFn, trait_based_hook, custom, Process, returned, too_deep, exec, trap,
}
use zpoline_rs.HookApi.Entry.{hook_init, register_syscall_hooks, with_regs, hook_entry}
use zpoline_rs.HookApi.Entry.Nesting.{hook_once, hook_entry-hook_once}
use zpoline_rs.HookApi.Entry.Guard.{Settles, hook_entry-Settles}
use zpoline_rs.HookApi.Entry.Transparent.{hook_entry-default_hooks, hook_entry-default_hooks_brk}

-- A hook that makes the call through libc first and then itself, and adds up.
abbrev twice_hook : HookFn
twice_hook = custom (λ r. libc_call r (λ v. raw_call r (λ w. done (v + w, r))))

abbrev plain : Process (Unit {0}) ℕ
plain = started

abbrev getpid_regs : SyscallRegs
getpid_regs = new 39 0 0 0 0 0 0

-- Two kernel calls, two entries, and the guard is down again.
twice_hook_runs :
    hook_entry counting_kernel 2 getpid_regs (hook_init twice_hook plain)
    ≡ returned
        (14, getpid_regs)
        (record plain { hook_function = twice_hook; entry_count = 2; kernel_state = 2 })
unfolding hook_entry prototype_of exec trap
twice_hook_runs = refl

-- One level is not enough for it.
twice_hook_needs_two :
    hook_entry counting_kernel 1 getpid_regs (hook_init twice_hook plain) ≡ too_deep
unfolding hook_entry exec
twice_hook_needs_two = refl

hook_entry-hook_once_example :
    hook_entry counting_kernel 5 getpid_regs (hook_init twice_hook plain)
    ≡ hook_once counting_kernel getpid_regs (hook_init twice_hook plain)
hook_entry-hook_once_example =
    hook_entry-hook_once counting_kernel 3 getpid_regs (hook_init twice_hook plain)

hook_entry-Settles_example :
    Settles
      (hook_init twice_hook plain)
      (hook_entry counting_kernel 2 getpid_regs (hook_init twice_hook plain))
hook_entry-Settles_example =
    hook_entry-Settles counting_kernel 0 getpid_regs (hook_init twice_hook plain) (inr refl)

-- write(-1, p, 5) with dirt in the upper half of rdi and in the registers that are no arguments.
abbrev write_regs : SyscallRegs
write_regs = new 1 0x1_ffff_ffff 0x7fff_0000 5 9 9 9

dispatch-default_hooks_example :
    dispatch_syscall_hooks default_hooks tt write_regs
    ≡ keep (tt) (forward (prototype_of 1) write_regs)
dispatch-default_hooks_example = dispatch-default_hooks tt write_regs (omega arith)

write_forwarded :
    dispatch_syscall_hooks default_hooks (tt {0}) write_regs
    ≡ raw_call (new 1 0xffff_ffff_ffff_ffff 0x7fff_0000 5 0 0 0) (λ v. done (v, tt))
unfolding dispatch_syscall_hooks default_hooks
write_forwarded = refl

abbrev registered_process : Process (Unit {0}) ℕ
registered_process = record plain {
  hook_function = trait_based_hook;
  trait_object = some (default_hooks, tt);
}

registers : register_syscall_hooks default_hooks tt plain ≡ some registered_process
unfolding register_syscall_hooks
registers = refl

hook_entry-default_hooks_example :
    hook_entry counting_kernel 2 write_regs registered_process
    ≡ with_regs write_regs (
        trap counting_kernel write_regs
          (record registered_process { entry_count = 1; trait_count = 1 }))
hook_entry-default_hooks_example =
    hook_entry-default_hooks counting_kernel counting_kernel-FollowsAbi 0 tt write_regs plain
      registered_process registers refl refl (omega arith)

hook_entry-default_hooks_brk_example :
    (w : ℕ) × (r : Process (Unit {0}) ℕ) × (hook_entry counting_kernel 2
        (new 12 0 0 0 0 0 0)
        registered_process
      ≡ returned (w, new 12 0 0 0 0 0 0) r)
    × (w ≢ 2 ^ 40)
unfolding prototype_of
hook_entry-default_hooks_brk_example =
    hook_entry-default_hooks_brk counting_kernel counting_kernel-FollowsAbi 0 tt
      (new 12 0 0 0 0 0 0) plain registered_process (2 ^ 40) 1 registers refl refl refl refl
      (omega arith) (omega arith)

-- `test_hook_function_ptr` and `test_reentry_guard`.
hook_function_ptr :
    hook_entry counting_kernel 2 zeroed (hook_init (custom (λ r. done (42, r))) plain)
    ≡ returned
        (42, zeroed)
        (record plain { hook_function = custom (λ r. done (42, r)); entry_count = 1 })
unfolding hook_entry exec
hook_function_ptr = refl

-- A second registration, for which the allocator asks for pages.
register_allocating-blocks_example :
    register_allocating counting_kernel 2
      (new 9 0 4096 3 34 0 0 ∷ [])
      default_hooks
      tt
      registered_process
    ≡ blocked
register_allocating-blocks_example =
    register_allocating-blocks counting_kernel 0 (new 9 0 4096 3 34 0 0 ∷ []) default_hooks tt
      registered_process refl refl refl refl
