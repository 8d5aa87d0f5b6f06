-- ===== src/HookLibs/Samples/Silent.antt =====
-- zpoline_samples/examples/simple_hooks.rs against zpoline_hook_trait_example/src/lib.rs.
use zpoline_rs.Prelude.{◌≡◌, arith}
use zpoline_rs.HookApi.Regs.{SyscallRegs}
use zpoline_rs.HookApi.Program.{done}
use zpoline_rs.HookApi.Dispatch.{dispatch_syscall_hooks}
use zpoline_rs.HookLibs.Stats.{Counts, stats_hooks}
use zpoline_rs.HookLibs.Samples.{logging_hooks}

-- For every system call, `LoggingHook` does what `StatsHook` would do if its messages made no calls.
pub dispatch-logging_hooks :
    (s : Counts) (regs : SyscallRegs)
    → dispatch_syscall_hooks logging_hooks s regs
      ≡ dispatch_syscall_hooks (stats_hooks (λ m. done tt)) s regs
unfolding dispatch_syscall_hooks logging_hooks stats_hooks
dispatch-logging_hooks s regs = ground arith
