-- ===== src/HookApi/Entry/Nesting.antt =====
-- The re-entry guard: while a hook runs, system calls that come back to `hook_entry` go to the kernel.
use zpoline_rs.Prelude.{
  ℕ, suc, ◌+◌, ◌%◌, ◌^◌, ◌≡◌, refl, ap, inl, inr, true, false, Option, none, some, if◌then◌else◌,
  Option-cases, Bool-cases,
}
use zpoline_rs.HookApi.Regs.{SyscallRegs}
use zpoline_rs.HookApi.Program.{Program, done, raw_call, libc_call, unreachable}
use zpoline_rs.HookApi.Hooks.{SyscallHooks}
use zpoline_rs.HookApi.Dispatch.{dispatch_syscall_hooks}
use zpoline_rs.HookApi.Process.{
  Kernel, HookFn, default_hook, trait_based_hook, custom, Process, Outcome, returned, bind, trap,
  exec,
}
use zpoline_rs.HookApi.Entry.{
  with_regs, call_trait_object, run_trait_based_hook, call_hook, hook_entry,
}

module _ {S K : Type 0} (kernel : Kernel K) where
  -- A system call of rewritten code that is counted and then made, with no hook.
  abbrev pub direct_entry : SyscallRegs → Process S K → Outcome S K (ℕ × SyscallRegs)
  direct_entry regs p =
      with_regs regs (trap kernel regs (record p { entry_count = (p.entry_count + 1) % 2 ^ 64 }))

  -- `hook_entry` without recursion: the hook runs once, and what it calls is made directly.
  abbrev pub hook_once : SyscallRegs → Process S K → Outcome S K (ℕ × SyscallRegs)
  hook_once regs p =
      if p.in_hook
      then direct_entry regs p
      else bind
          (call_hook kernel direct_entry p.hook_function regs
            (record p { entry_count = (p.entry_count + 1) % 2 ^ 64; in_hook = true }))
          (λ r q. returned r (record q { in_hook = false }))

  -- After a system call only the kernel's state differs.
  bind-trap :
      {B : Type 0} (regs : SyscallRegs) (p : Process S K) (f g : ℕ → Process S K → Outcome S K B)
      → ((v : ℕ) (k : K)
          → f v (record p { kernel_state = k }) ≡ g v (record p { kernel_state = k }))
      → bind (trap kernel regs p) f ≡ bind (trap kernel regs p) g
  unfolding trap
  bind-trap regs p f g h = elim (Option-cases (kernel regs p.kernel_state)) [
    | inl e ↦ rw (e, trap)
    | inr ((v, k), e) ↦ rw (e, trap) (h v k)
  ]

  hook_entry-nested :
      (depth : ℕ) (regs : SyscallRegs) (p : Process S K)
      → p.in_hook ≡ true
      → hook_entry kernel (suc depth) regs p ≡ direct_entry regs p
  unfolding hook_entry
  hook_entry-nested depth regs p h = rw h

  bind-direct_entry :
      {B : Type 0} (regs : SyscallRegs) (p : Process S K)
      (f g : ℕ × SyscallRegs → Process S K → Outcome S K B)
      → ((v : ℕ) (k : K)
          → let q = record p { entry_count = (p.entry_count + 1) % 2 ^ 64; kernel_state = k } in
            f (v, regs) q ≡ g (v, regs) q)
      → bind (direct_entry regs p) f ≡ bind (direct_entry regs p) g
  unfolding trap
  bind-direct_entry regs p f g h = elim (Option-cases (kernel regs p.kernel_state)) [
    | inl e ↦ rw (e, trap)
    | inr ((v, k), e) ↦ rw (e, trap) (h v k)
  ]

  exec-nested :
      {A : Type 0} (depth : ℕ) (prog : Program A) (p : Process S K)
      → p.in_hook ≡ true
      → exec kernel (hook_entry kernel (suc depth)) prog p ≡ exec kernel direct_entry prog p
  unfolding exec
  exec-nested depth (done a) p h = refl
  exec-nested depth (raw_call r next) p h =
      bind-trap r p _ _ (λ v k. exec-nested depth (next v) (record p { kernel_state = k }) h)
  exec-nested depth (libc_call r next) p h =
      rw (hook_entry-nested depth r p h)
        (bind-direct_entry r p _ _ (λ v k. exec-nested depth (next v) _ h))
  exec-nested depth unreachable p h = refl

  call_trait_object-nested :
      (depth : ℕ) (o : Option (SyscallHooks S × S)) (regs : SyscallRegs) (p : Process S K)
      → p.in_hook ≡ true
      → call_trait_object kernel (hook_entry kernel (suc depth)) o regs p
        ≡ call_trait_object kernel direct_entry o regs p
  unfolding call_trait_object
  call_trait_object-nested depth none regs p h = refl
  call_trait_object-nested depth (some (hooks, s)) regs p h =
      rw (exec-nested depth (dispatch_syscall_hooks hooks s regs) p h)

  run_trait_based_hook-nested :
      (depth : ℕ) (regs : SyscallRegs) (p : Process S K)
      → p.in_hook ≡ true
      → run_trait_based_hook kernel (hook_entry kernel (suc depth)) regs p
        ≡ run_trait_based_hook kernel direct_entry regs p
  unfolding run_trait_based_hook
  run_trait_based_hook-nested depth regs p h = rw (
      call_trait_object-nested depth p.trait_object regs
        (record p { trait_count = (p.trait_count + 1) % 2 ^ 64; trait_locked = true }) h)

  call_hook-nested :
      (depth : ℕ) (f : HookFn) (regs : SyscallRegs) (p : Process S K)
      → p.in_hook ≡ true
      → call_hook kernel (hook_entry kernel (suc depth)) f regs p
        ≡ call_hook kernel direct_entry f regs p
  unfolding call_hook
  call_hook-nested depth default_hook regs p h = refl
  call_hook-nested depth trait_based_hook regs p h =
      ap (with_regs regs) (run_trait_based_hook-nested depth regs p h)
  call_hook-nested depth (custom f) regs p h = exec-nested depth (f regs) p h

  -- Whatever the hook function is and whatever calls it makes, `hook_entry` is entered at most twice
  -- within itself: two levels suffice, the hook runs once at most, and not at all if the thread is in
  -- a hook already, and each system call that comes back from the hook is counted and made directly.
  pub hook_entry-hook_once :
      (depth : ℕ) (regs : SyscallRegs) (p : Process S K)
      → hook_entry kernel (suc (suc depth)) regs p ≡ hook_once regs p
  unfolding hook_entry
  hook_entry-hook_once depth regs p = elim (Bool-cases p.in_hook) [
    | inl e ↦ rw e
    | inr e ↦ rw e (
        rw (
          call_hook-nested depth p.hook_function regs
            (record p { entry_count = (p.entry_count + 1) % 2 ^ 64; in_hook = true }) refl))
  ]
