-- ===== src/HookApi/Entry/Transparent.antt =====
-- What the application sees once the trait's default methods are registered.
use zpoline_rs.Prelude.{
  ℕ, suc, ◌+◌, ◌-◌, ◌%◌, ◌^◌, ◌≤◌, ◌<◌, ◌≡◌, ◌≢◌, refl, ap, ◌∙◌, false, Option, none, some, arith,
  [], ◌∷◌, through_c_int, Option-cases, inl, inr,
}
use zpoline_rs.HookApi.Regs.{SyscallRegs}
use zpoline_rs.HookApi.Program.{raw_call, done}
use zpoline_rs.HookApi.Hooks.{keep, default_hooks}
use zpoline_rs.HookApi.Abi.{
  Prototype, int_result, word_result, no_result, CResult, word, prototype_of, pass_regs, give_back,
  forward,
}
use zpoline_rs.HookApi.Dispatch.Forward.{
  dispatch-default_hooks, dispatch-default_hooks_brk, through_c_int_ne,
}
use zpoline_rs.HookApi.Process.{Kernel, trait_based_hook, Process, returned, bind, trap, exec}
use zpoline_rs.HookApi.Entry.{with_regs, register_syscall_hooks, call_hook, hook_entry}
use zpoline_rs.HookApi.Entry.Sequence.{exec-bind}
use zpoline_rs.HookApi.Entry.Nesting.{direct_entry, hook_once, hook_entry-hook_once}

-- What the manual pages say of the kernel: a system call reads its arguments, at their types, and no
-- other register; a result of type int fits an int; exit and exit_group do not return.
pub record FollowsAbi {K : Type 0} (kernel : Kernel K) : Type 0 where
  pub reads_params :
      (regs : SyscallRegs) (k : K) (t : Prototype)
      → prototype_of regs.rax ≡ some t
      → kernel (pass_regs t.params regs) k ≡ kernel regs k
  pub int_results :
      (regs : SyscallRegs) (k : K) (t : Prototype) (v : ℕ) (k' : K)
      → prototype_of regs.rax ≡ some t
      → t.result ≡ int_result
      → kernel regs k ≡ some (v, k')
      → through_c_int v ≡ v
  pub no_results :
      (regs : SyscallRegs) (k : K) (t : Prototype)
      → prototype_of regs.rax ≡ some t
      → t.result ≡ no_result
      → kernel regs k ≡ none

prototype_of-brk :
    (nr : ℕ)
    → nr ≡ 12
    → prototype_of nr ≡ some (record { params = word ∷ []; result = word_result })
unfolding prototype_of
prototype_of-brk nr h = rw h

module _ {S K : Type 0} where
  -- The state with the default methods registered and no hook running.
  abbrev registered : S → ℕ → ℕ → K → Process S K
  registered s n m k = record {
    hook_function = trait_based_hook;
    trait_object = some (default_hooks, s);
    trait_poisoned = false;
    trait_locked = false;
    in_hook = false;
    entry_count = n;
    trait_count = m;
    kernel_state = k;
  }

  register_lem :
      (s : S) (p q : Process S K)
      → register_syscall_hooks default_hooks s p ≡ some q
      → p.in_hook ≡ false
      → p.trait_locked ≡ false
      → q ≡ registered s p.entry_count p.trait_count p.kernel_state
  unfolding register_syscall_hooks
  register_lem s p q e g l = ground arith

module _ {S K : Type 0} (kernel : Kernel K) (abi : FollowsAbi kernel) where
  exec-give_back :
      (regs : SyscallRegs) (p : Process S K) (t : Prototype) (r : CResult) (a : Option (ℕ × K))
      → prototype_of regs.rax ≡ some t
      → t.result ≡ r
      → kernel regs p.kernel_state ≡ a
      → exec kernel (direct_entry kernel) (raw_call (pass_regs t.params regs) (give_back r)) p
        ≡ trap kernel regs p
  unfolding exec trap
  exec-give_back regs p t r none e f g = rw (abi.reads_params regs p.kernel_state t e, g, trap)
  exec-give_back regs p t int_result (some (v, k)) e f g = rw (
    abi.reads_params regs p.kernel_state t e,
    g,
    trap,
    abi.int_results regs p.kernel_state t v k e f g,
  )
  exec-give_back regs p t word_result (some (v, k)) e f g =
      rw (abi.reads_params regs p.kernel_state t e, g, trap)
  exec-give_back regs p t no_result (some (v, k)) e f g =
      let gone = abi.no_results regs p.kernel_state t e f in absurd (cc)

  -- The call that the dispatcher forwards is the application's.
  exec-forward_to :
      (regs : SyscallRegs) (p : Process S K) (t : Option Prototype)
      → prototype_of regs.rax ≡ t
      → exec kernel (direct_entry kernel) (forward t regs) p ≡ trap kernel regs p
  unfolding exec trap
  exec-forward_to regs p none e = elim (Option-cases (kernel regs p.kernel_state)) [
    | inl f ↦ rw (f, trap)
    | inr ((v, k), f) ↦ rw (f, trap)
  ]
  exec-forward_to regs p (some t) e = exec-give_back regs p t t.result _ e refl refl

  pub exec-forward :
      (regs : SyscallRegs) (p : Process S K)
      → exec kernel (direct_entry kernel) (forward (prototype_of regs.rax) regs) p
        ≡ trap kernel regs p
  exec-forward regs p = exec-forward_to regs p _ refl

  pub exec-keep-forward :
      (s : S) (regs : SyscallRegs) (p : Process S K)
      → exec kernel (direct_entry kernel) (keep s (forward (prototype_of regs.rax) regs)) p
        ≡ bind (trap kernel regs p) (λ v q. returned (v, s) q)
  unfolding exec
  exec-keep-forward s regs p =
      exec-bind kernel (forward (prototype_of regs.rax) regs) (λ v. done (v, s)) p
      ∙ ap (λ o. bind o (λ v q. returned (v, s) q)) (exec-forward regs p)

  hook_once-registered :
      (s : S) (regs : SyscallRegs) (n m : ℕ) (k : K)
      → regs.rax ≢ 12
      → hook_once kernel regs (registered s n m k)
        ≡ with_regs regs (trap kernel regs (registered s ((n + 1) % 2 ^ 64) ((m + 1) % 2 ^ 64) k))
  unfolding call_hook trap
  hook_once-registered s regs n m k h = rw (dispatch-default_hooks s regs h) (
      rw (exec-keep-forward s regs _) (elim (Option-cases (kernel regs k)) [
        | inl e ↦ rw (e, trap)
        | inr ((v, k'), e) ↦ rw (e, trap)
      ]))

  -- Once the trait's default methods are registered, every system call but brk that the application
  -- makes outside a hook gives what the kernel would have given for the very same registers: the
  -- result, the kernel's state, the registers and a call that does not return are those of the direct
  -- call, and only the two debugging counters have moved. The kernel is assumed to follow its manual.
  pub hook_entry-default_hooks :
      (depth : ℕ) (s : S) (regs : SyscallRegs) (p q : Process S K)
      → register_syscall_hooks default_hooks s p ≡ some q
      → p.in_hook ≡ false
      → p.trait_locked ≡ false
      → regs.rax ≢ 12
      → hook_entry kernel (suc (suc depth)) regs q
        ≡ with_regs regs (
            trap kernel regs (record q {
              entry_count = (q.entry_count + 1) % 2 ^ 64;
              trait_count = (q.trait_count + 1) % 2 ^ 64;
            }))
  hook_entry-default_hooks depth s regs p q e g l h =
      rw (register_lem s p q e g l)
        (hook_entry-hook_once kernel depth regs _ ∙ hook_once-registered s regs _ _ _ h)

  -- brk is not passed on like that: once the default methods are registered, where the kernel answers
  -- with an address that is outside the lowest and the highest 2 GiB, the application gets another one.
  pub hook_entry-default_hooks_brk :
      (depth : ℕ) (s : S) (regs : SyscallRegs) (p q : Process S K) (v : ℕ) (k : K)
      → register_syscall_hooks default_hooks s p ≡ some q
      → p.in_hook ≡ false
      → p.trait_locked ≡ false
      → regs.rax ≡ 12
      → kernel regs p.kernel_state ≡ some (v, k)
      → 2 ^ 31 ≤ v
      → v < 2 ^ 64 - 2 ^ 31
      → (w : ℕ) × (r : Process S K) × (hook_entry kernel (suc (suc depth)) regs q
          ≡ returned (w, regs) r)
        × (w ≢ v)
  unfolding exec trap call_hook
  hook_entry-default_hooks_brk depth s regs p q v k e g l h a lo hi = (
    through_c_int v,
    registered s ((p.entry_count + 1) % 2 ^ 64) ((p.trait_count + 1) % 2 ^ 64) k,
    rw (register_lem s p q e g l) (
        hook_entry-hook_once kernel depth regs _
        ∙ rw (dispatch-default_hooks_brk s regs h)
            (rw (abi.reads_params regs p.kernel_state _ (prototype_of-brk regs.rax h) ∙ a, trap))),
    through_c_int_ne v lo hi,
  )
