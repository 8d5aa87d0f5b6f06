-- ===== src/HookApi/Entry.antt =====
-- zpoline_hook_api/src/lib.rs: the hook functions, their registration, and `hook_entry`, which the
-- trampoline calls. Counters are usize and wrap.
pub mod Nesting
pub mod Sequence
pub mod Transparent
pub mod Guard
pub mod Registering
use zpoline_rs.Prelude.{
  ℕ, zero, suc, ◌+◌, ◌%◌, ◌^◌, Bool, true, false, Option, none, some, if◌then◌else◌,
}
use zpoline_rs.HookApi.Regs.{SyscallRegs}
use zpoline_rs.HookApi.Program.{Program}
use zpoline_rs.HookApi.Hooks.{SyscallHooks}
use zpoline_rs.HookApi.Dispatch.{dispatch_syscall_hooks}
use zpoline_rs.HookApi.Process.{
  Kernel, HookFn, default_hook, trait_based_hook, custom, Process, Outcome, returned, blocked,
  too_deep, bind, trap, exec,
}

module _ {S K : Type 0} where
  -- `__hook_init`.
  abbrev pub hook_init : HookFn → Process S K → Process S K
  hook_init f p = record p { hook_function = f }

  -- `get_hook_fn`.
  abbrev pub get_hook_fn : Process S K → HookFn
  get_hook_fn p = p.hook_function

  -- `register_syscall_hooks`: `lock().unwrap()` panics on a poisoned mutex, which is `none` here.
  unfoldable pub register_syscall_hooks : SyscallHooks S → S → Process S K → Option (Process S K)
  register_syscall_hooks hooks s p =
      if p.trait_poisoned
      then none
      else some (hook_init trait_based_hook (record p { trait_object = some (hooks, s) }))

  -- `is_in_hook`.
  abbrev pub is_in_hook : Process S K → Bool
  is_in_hook p = p.in_hook

-- `get_trait_dispatch_hook`: the pointer that the `zpoline_hook_init` of a hook library can give.
abbrev pub get_trait_dispatch_hook : HookFn
get_trait_dispatch_hook = trait_based_hook

module _ {S K : Type 0} where
  -- `get_hook_entry_call_count` and `get_trait_hook_call_count`.
  abbrev pub get_hook_entry_call_count : Process S K → ℕ
  get_hook_entry_call_count p = p.entry_count

  abbrev pub get_trait_hook_call_count : Process S K → ℕ
  get_trait_hook_call_count p = p.trait_count

-- What a hook function gives back: the result, with the registers as the hook leaves them.
abbrev pub with_regs : {S K : Type 0} → SyscallRegs → Outcome S K ℕ → Outcome S K (ℕ × SyscallRegs)
with_regs regs o = bind o (λ v p. returned (v, regs) p)

module _ {S K : Type 0} (kernel : Kernel K) where
  -- The body of `trait_based_hook` under the lock, and the drop of the guard.
  unfoldable pub call_trait_object :
      (SyscallRegs → Process S K → Outcome S K (ℕ × SyscallRegs))
      → Option (SyscallHooks S × S)
      → SyscallRegs
      → Process S K
      → Outcome S K ℕ
  call_trait_object entry none regs p =
      bind (trap kernel regs p) (λ v q. returned v (record q { trait_locked = false }))
  call_trait_object entry (some (hooks, s)) regs p =
      bind (exec kernel entry (dispatch_syscall_hooks hooks s regs) p)
        (λ r q. returned r.0 (record q { trait_object = some (hooks, r.1); trait_locked = false }))

  unfoldable pub run_trait_based_hook :
      (SyscallRegs → Process S K → Outcome S K (ℕ × SyscallRegs))
      → SyscallRegs
      → Process S K
      → Outcome S K ℕ
  unfolding call_trait_object
  run_trait_based_hook entry regs p =
      let p = record p { trait_count = (p.trait_count + 1) % 2 ^ 64 } in
      if p.trait_locked
      then blocked
      else if p.trait_poisoned
      then trap kernel regs p
      else call_trait_object entry p.trait_object regs (record p { trait_locked = true })

  -- `hook_fn(regs)`.
  unfoldable pub call_hook :
      (SyscallRegs → Process S K → Outcome S K (ℕ × SyscallRegs))
      → HookFn
      → SyscallRegs
      → Process S K
      → Outcome S K (ℕ × SyscallRegs)
  unfolding run_trait_based_hook
  call_hook entry default_hook regs p = with_regs regs (trap kernel regs p)
  call_hook entry trait_based_hook regs p = with_regs regs (run_trait_based_hook entry regs p)
  call_hook entry (custom f) regs p = exec kernel entry (f regs) p

  -- The fuel is the depth of the calls of `hook_entry` within one another.
  unfoldable pub hook_entry : ℕ → SyscallRegs → Process S K → Outcome S K (ℕ × SyscallRegs)
  unfolding call_hook
  hook_entry zero regs p = too_deep
  hook_entry (suc depth) regs p =
      let p = record p { entry_count = (p.entry_count + 1) % 2 ^ 64 } in
      if p.in_hook
      then with_regs regs (trap kernel regs p)
      else bind (call_hook (hook_entry depth) (get_hook_fn p) regs (record p { in_hook = true }))
          (λ r q. returned r (record q { in_hook = false }))
