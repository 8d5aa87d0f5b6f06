-- ===== src/HookApi/Entry/Registering.antt =====
-- zpoline_hook_api/src/lib.rs: `register_syscall_hooks` with the system calls that the allocator makes for the
-- new box and the old one, with the mutex held.
use mathlib.Core.Path.{subst}
use zpoline_rs.Prelude.{
  ℕ, suc, ◌+◌, ◌%◌, ◌^◌, ◌≡◌, refl, sym, ◌∙◌, Bool, true, false, List, [], ◌∷◌, Option, none, some,
  if◌then◌else◌, Option-cases, Bool-cases, inl, inr,
}
use zpoline_rs.HookApi.Regs.{SyscallRegs}
use zpoline_rs.HookApi.Hooks.{SyscallHooks}
use zpoline_rs.HookApi.Process.{
  Kernel, default_hook, trait_based_hook, Process, Outcome, returned, exited, blocked, bind, trap,
}
use zpoline_rs.HookApi.Entry.{
  hook_init, register_syscall_hooks, call_hook, run_trait_based_hook, hook_entry,
}
use zpoline_rs.HookApi.Entry.Nesting.{hook_entry-hook_once}

module _ {S K : Type 0} (kernel : Kernel K) (depth : ℕ) where
  -- The allocator's system calls, through rewritten code.
  unfoldable pub allocate : List SyscallRegs → Process S K → Outcome S K (Unit {0})
  allocate [] p = returned tt p
  allocate (regs ∷ calls) p = bind (hook_entry kernel depth regs p) (λ v q. allocate calls q)

  -- A panic, for a poisoned mutex, ends the program.
  unfoldable pub register_allocating :
      List SyscallRegs → SyscallHooks S → S → Process S K → Outcome S K (Unit {0})
  register_allocating calls hooks s p =
      if p.trait_locked
      then blocked
      else if p.trait_poisoned
      then exited
      else bind (allocate calls (record p { trait_locked = true })) (λ u q. returned tt (
          hook_init trait_based_hook
            (record q { trait_object = some (hooks, s); trait_locked = false })))

past_tests :
    {A : Type 0} (a b : Bool) (x y z : A)
    → a ≡ false
    → b ≡ false
    → (if a then x else if b then y else z) ≡ z
past_tests a b x y z h k = rw (h, k) refl

abbrev pub is_empty : {A : Type 0} → List A → Bool
is_empty [] = true
is_empty (x ∷ xs) = false

abbrev pub returned_or_exited : {S K : Type 0} → Option (Process S K) → Outcome S K (Unit {0})
returned_or_exited none = exited
returned_or_exited (some p) = returned tt p

module _ {S K : Type 0} (kernel : Kernel K) where
  -- A hooked call of a thread that has the mutex.
  hook_entry-blocked :
      (depth : ℕ) (regs : SyscallRegs) (p : Process S K)
      → p.hook_function ≡ trait_based_hook
      → p.trait_poisoned ≡ false
      → p.trait_locked ≡ true
      → p.in_hook ≡ false
      → hook_entry kernel (suc (suc depth)) regs p ≡ blocked
  unfolding call_hook run_trait_based_hook
  hook_entry-blocked depth regs p f c l o =
      hook_entry-hook_once kernel depth regs p ∙ rw (o, f) (rw (c, l) refl)

  without_calls :
      (depth : ℕ) (hooks : SyscallHooks S) (s : S) (p : Process S K)
      → p.trait_locked ≡ false
      → register_allocating kernel (suc (suc depth)) [] hooks s p
        ≡ returned_or_exited (register_syscall_hooks hooks s p)
  unfolding register_allocating allocate register_syscall_hooks
  without_calls depth hooks s p l = elim (Bool-cases p.trait_poisoned) [
    | inl poisoned ↦ rw (l, poisoned) refl
    | inr clean ↦ rw clean (rw l cc)
  ]

  -- The trait's hook is set already, the mutex is free and no hook runs: `register_syscall_hooks` gives
  -- the object over if the allocator makes no system call for the new box and the old one, and otherwise
  -- its thread waits for ever for the mutex that it has itself.
  pub register_allocating-blocks :
      (depth : ℕ) (calls : List SyscallRegs) (hooks : SyscallHooks S) (s : S) (p : Process S K)
      → p.hook_function ≡ trait_based_hook
      → p.trait_poisoned ≡ false
      → p.trait_locked ≡ false
      → p.in_hook ≡ false
      → register_allocating kernel (suc (suc depth)) calls hooks s p ≡ (
          if is_empty calls then returned_or_exited (register_syscall_hooks hooks s p) else blocked)
  unfolding register_allocating allocate
  register_allocating-blocks depth [] hooks s p f c l o = without_calls depth hooks s p l
  register_allocating-blocks depth (regs ∷ calls) hooks s p f c l o =
      past_tests _ _ _ _ _ l c
      ∙ rw (hook_entry-blocked depth regs (record p { trait_locked = true }) f c refl o) refl

  -- The built-in hook is set instead.
  pub data Registered (hooks : SyscallHooks S) (s : S) : Outcome S K (Unit {0}) → Type 0 where
    registered :
        {q : Process S K}
        → q.hook_function ≡ trait_based_hook
        → q.trait_object ≡ some (hooks, s)
        → q.trait_locked ≡ false
        → q.in_hook ≡ false
        → Registered hooks s (returned tt q)
    ended : Registered hooks s exited

  give_over :
      (depth : ℕ) (calls : List SyscallRegs) (hooks : SyscallHooks S) (s : S) (p : Process S K)
      → p.hook_function ≡ default_hook
      → p.in_hook ≡ false
      → Registered hooks s (
          bind (allocate kernel (suc (suc depth)) calls p) (λ u q. returned tt (
            hook_init trait_based_hook
              (record q { trait_object = some (hooks, s); trait_locked = false }))))
  unfolding allocate call_hook trap
  give_over depth [] hooks s p f o = registered refl refl refl o
  give_over depth (regs ∷ calls) hooks s p f o = rw (hook_entry-hook_once kernel depth regs p) (
      rw (o, f)
        (elim (Option-cases (kernel regs p.kernel_state)) [
          | inl e ↦ rw (e, trap) ended
          | inr ((v, k), e) ↦
              rw (e, trap)
                (give_over depth calls hooks s
                  (record p {
                    hook_function = default_hook;
                    in_hook = false;
                    entry_count = (p.entry_count + 1) % 2 ^ 64;
                    kernel_state = k;
                  })
                  refl refl)
        ]))

  -- The first registration, with the built-in hook set: whatever system calls the allocator makes, the
  -- object is registered and the trait's hook set, unless a call ends the process.
  pub register_allocating-Registered :
      (depth : ℕ) (calls : List SyscallRegs) (hooks : SyscallHooks S) (s : S) (p : Process S K)
      → p.hook_function ≡ default_hook
      → p.in_hook ≡ false
      → p.trait_poisoned ≡ false
      → p.trait_locked ≡ false
      → Registered hooks s (register_allocating kernel (suc (suc depth)) calls hooks s p)
  unfolding register_allocating
  register_allocating-Registered depth calls hooks s p f o c l =
      subst (Registered hooks s) (sym (past_tests _ _ _ _ _ l c))
        (give_over depth calls hooks s (record p { trait_locked = true }) f o)
