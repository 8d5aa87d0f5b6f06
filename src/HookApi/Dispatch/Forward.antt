-- ===== src/HookApi/Dispatch/Forward.antt =====
-- What the trait's default methods do behind the dispatcher.
use zpoline_rs.Prelude.{◌≡◌, ◌≢◌, ◌<◌, ◌≤◌, ◌-◌, ◌^◌, ℕ, [], ◌∷◌, arith, through_c_int}
use zpoline_rs.HookApi.Regs.{SyscallRegs}
use zpoline_rs.HookApi.Program.{raw_call, done}
use zpoline_rs.HookApi.Hooks.{keep, default_hooks}
use zpoline_rs.HookApi.Dispatch.{dispatch_syscall_hooks}
use zpoline_rs.HookApi.Abi.{prototype_of, forward, pass_regs, word}

-- For every system call but brk, hooked or not, and whatever the registers hold, dispatching to the
-- default methods makes that one system call: its arguments pass through their C types, the other
-- registers are zero, the result passes through its C type, and `self` is unchanged.
pub dispatch-default_hooks :
    {S : Type 0} (s : S) (regs : SyscallRegs)
    → regs.rax ≢ 12
    → dispatch_syscall_hooks default_hooks s regs ≡ keep s (forward (prototype_of regs.rax) regs)
unfolding dispatch_syscall_hooks default_hooks prototype_of
dispatch-default_hooks s regs h = ground arith

-- brk is called with the new end of the data segment whole, and its result is cut down to a c_int.
pub dispatch-default_hooks_brk :
    {S : Type 0} (s : S) (regs : SyscallRegs)
    → regs.rax ≡ 12
    → dispatch_syscall_hooks default_hooks s regs
      ≡ raw_call (pass_regs (word ∷ []) regs) (λ v. done (through_c_int v, s))
unfolding dispatch_syscall_hooks default_hooks
dispatch-default_hooks_brk s regs h = ground arith

-- An address outside the lowest and the highest 2 GiB does not survive that.
pub through_c_int_ne : (v : ℕ) → 2 ^ 31 ≤ v → v < 2 ^ 64 - 2 ^ 31 → through_c_int v ≢ v
through_c_int_ne v lo hi = ground arith
