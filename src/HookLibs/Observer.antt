-- ===== src/HookLibs/Observer.antt =====
-- A trait object that watches: it prints and keeps records, and passes every system call on.
pub mod Calls
use mathlib.Core.Path.{subst}
use zpoline_rs.Prelude.{
  ℕ, suc, ◌+◌, ◌%◌, ◌^◌, ◌≡◌, ◌≢◌, refl, sym, ap, ◌∙◌, Bool, true, false, Option, none, some,
  Option-cases, inl, inr,
}
use zpoline_rs.HookApi.Regs.{SyscallRegs}
use zpoline_rs.HookApi.Program.{Program, done, ◌>>=◌}
use zpoline_rs.HookApi.Hooks.{SyscallHooks}
use zpoline_rs.HookApi.Dispatch.{dispatch_syscall_hooks}
use zpoline_rs.HookApi.Abi.{prototype_of, forward}
use zpoline_rs.HookApi.Process.{
  Kernel, HookFn, trait_based_hook, Process, Outcome, returned, exited, undefined, blocked,
  too_deep, bind, trap, exec,
}
use zpoline_rs.HookApi.Entry.{
  with_regs, call_trait_object, run_trait_based_hook, call_hook, hook_entry,
}
use zpoline_rs.HookApi.Entry.Sequence.{exec-bind}
use zpoline_rs.HookApi.Entry.Nesting.{direct_entry, hook_once, hook_entry-hook_once}
use zpoline_rs.HookApi.Entry.Transparent.{FollowsAbi, exec-forward}
use zpoline_rs.HookLibs.Printing.{CallsOnly, answers, moved, Printed, printed, gone, exec-Printed}

-- What the object prints before and after a call, and what it records of it. `update` gets the
-- result as the application sees it.
pub record Observer (S : Type 0) : Type 0 where
  pub before : S → SyscallRegs → Program (Unit {0})
  pub after : S → SyscallRegs → ℕ → Program (Unit {0})
  pub update : S → SyscallRegs → ℕ → S

-- The program of an observer for a call: what follows the result, what follows the first messages,
-- and all of it.
abbrev pub recorded : {S : Type 0} → Observer S → S → SyscallRegs → ℕ → Program (ℕ × S)
recorded o s regs v = o.after s regs v >>= λ _. done (v, o.update s regs v)

abbrev pub passed_on : {S : Type 0} → Observer S → S → SyscallRegs → Program (ℕ × S)
passed_on o s regs = forward (prototype_of regs.rax) regs >>= λ v. recorded o s regs v

abbrev pub observed : {S : Type 0} → Observer S → S → SyscallRegs → Program (ℕ × S)
observed o s regs = o.before s regs >>= λ _. passed_on o s regs

-- The methods of the object are those of the observer, for every call but brk, and print with libc.
pub record Observes {S : Type 0} (hooks : SyscallHooks S) (o : Observer S) : Type 0 where
  pub prints_before : (s : S) (regs : SyscallRegs) → CallsOnly (o.before s regs)
  pub prints_after : (s : S) (regs : SyscallRegs) (v : ℕ) → CallsOnly (o.after s regs v)
  pub dispatch_lem :
      (s : S) (regs : SyscallRegs)
      → regs.rax ≢ 12
      → dispatch_syscall_hooks hooks s regs ≡ observed o s regs

module _ {S K : Type 0} (kernel : Kernel K) (hooks : SyscallHooks S) (o : Observer S) where
  -- The object is registered and no hook runs.
  pub record Installed (s : S) (p : Process S K) : Type 0 where
    pub function_lem : p.hook_function ≡ trait_based_hook
    pub object_lem : p.trait_object ≡ some (hooks, s)
    pub unpoisoned : p.trait_poisoned ≡ false
    pub unlocked : p.trait_locked ≡ false
    pub outside : p.in_hook ≡ false

  -- The calls that print before it were answered, then the very call, then those that print after it, and
  -- no other, and the object has recorded it. Or one of these calls did not return.
  pub data Answered (s : S) (regs : SyscallRegs) (k : K)
      : Outcome S K (ℕ × SyscallRegs) → Type 0 where
    answered :
        {v : ℕ} {k' k'' : K} {q : Process S K}
        → answers kernel (o.before s regs) k ≡ some (tt, k')
        → kernel regs k' ≡ some (v, k'')
        → answers kernel (o.after s regs v) k'' ≡ some (tt, q.kernel_state)
        → Installed (o.update s regs v) q
        → Answered s regs k (returned (v, regs) q)
    before_ended : answers kernel (o.before s regs) k ≡ none → Answered s regs k exited
    call_ended :
        {k' : K}
        → answers kernel (o.before s regs) k ≡ some (tt, k')
        → kernel regs k' ≡ none
        → Answered s regs k exited
    after_ended :
        {v : ℕ} {k' k'' : K}
        → answers kernel (o.before s regs) k ≡ some (tt, k')
        → kernel regs k' ≡ some (v, k'')
        → answers kernel (o.after s regs v) k'' ≡ none
        → Answered s regs k exited

  -- What `call_trait_object` and the end of `hook_entry` make of the program's outcome.
  abbrev finish : SyscallRegs → Outcome S K (ℕ × S) → Outcome S K (ℕ × SyscallRegs)
  finish regs x =
      bind
        (with_regs regs (
          bind x (λ r q.
            returned r.0 (record q { trait_object = some (hooks, r.1); trait_locked = false }))))
        (λ r q. returned r (record q { in_hook = false }))

  after-Answered :
      (s : S) (regs : SyscallRegs) (k k' k'' : K) (v : ℕ) (p : Process S K)
      (x : Outcome S K (Unit {0}))
      → p.hook_function ≡ trait_based_hook
      → p.trait_poisoned ≡ false
      → answers kernel (o.before s regs) k ≡ some (tt, k')
      → kernel regs k' ≡ some (v, k'')
      → p.kernel_state ≡ k''
      → Printed kernel p (o.after s regs v) x
      → Answered s regs k (finish regs (bind x (λ _ q. returned (v, o.update s regs v) q)))
  after-Answered s regs k k' k'' v p _ f c before e same (printed n k3 after) =
      answered before e (ap (answers kernel (o.after s regs v)) (sym same) ∙ after) (record {
        function_lem = f;
        object_lem = refl;
        unpoisoned = c;
        unlocked = refl;
        outside = refl;
      })
  after-Answered s regs k k' k'' v p _ f c before e same (gone after) =
      after_ended before e (ap (answers kernel (o.after s regs v)) (sym same) ∙ after)

  forward-Answered :
      (abi : FollowsAbi kernel) (sees : Observes hooks o) (s : S) (regs : SyscallRegs)
      (p : Process S K) (x : Outcome S K (Unit {0}))
      → p.hook_function ≡ trait_based_hook
      → p.trait_poisoned ≡ false
      → Printed kernel p (o.before s regs) x
      → Answered s regs p.kernel_state
          (finish regs (bind x (λ _ q. exec kernel (direct_entry kernel) (passed_on o s regs) q)))
  unfolding trap exec
  forward-Answered abi sees s regs p _ f c (gone e) = before_ended e
  forward-Answered abi sees s regs p _ f c (printed n k r) =
      rw
        (exec-bind kernel (forward (prototype_of regs.rax) regs) (recorded o s regs)
          (moved kernel p n k))
        (rw (exec-forward kernel abi regs (moved kernel p n k))
          (elim (Option-cases (kernel regs k)) [
            | inl e ↦ rw (e, trap) (call_ended r e)
            | inr ((v, k'), e) ↦
                rw (e, trap)
                  (rw
                    (exec-bind kernel {B = ℕ × S} (o.after s regs v)
                      (λ _. done (v, o.update s regs v)) (moved kernel p n k'))
                    (after-Answered s regs p.kernel_state k k' v (moved kernel p n k')
                      (exec kernel (direct_entry kernel) (o.after s regs v) (moved kernel p n k')) f
                      c r e refl
                      (exec-Printed kernel (o.after s regs v) (moved kernel p n k')
                        (sees.prints_after s regs v))))
          ]))

  abbrev waiting : S → ℕ → ℕ → K → Process S K
  waiting s n m k = record {
    hook_function = trait_based_hook;
    trait_object = some (hooks, s);
    trait_poisoned = false;
    trait_locked = false;
    in_hook = false;
    entry_count = n;
    trait_count = m;
    kernel_state = k;
  }

  waiting_lem :
      (s : S) (p : Process S K)
      → Installed s p
      → p ≡ waiting s p.entry_count p.trait_count p.kernel_state
  waiting_lem s p i = cc (i.function_lem, i.object_lem, i.unpoisoned, i.unlocked, i.outside)

  hook_once-Answered :
      (abi : FollowsAbi kernel) (sees : Observes hooks o) (s : S) (regs : SyscallRegs) (n m : ℕ)
      (k : K)
      → regs.rax ≢ 12
      → Answered s regs k (hook_once kernel regs (waiting s n m k))
  unfolding call_hook
  hook_once-Answered abi sees s regs n m k h = rw (sees.dispatch_lem s regs h) (
      rw (exec-bind kernel (o.before s regs) _ _) (
        forward-Answered abi sees s regs _ _ refl refl
          (exec-Printed kernel (o.before s regs) _ (sees.prints_before s regs))))

  -- An observer is registered, no hook runs, and a system call other than brk comes in: the kernel
  -- answers the calls with which the observer prints before it, then the call with the application's own
  -- registers, once, then the calls with which the observer prints after it, and no other. The application
  -- gets the answer to its call and finds its registers as they were, the observer has recorded the call,
  -- and the next call finds it registered, with the guard down and the mutex free. Or one of these calls
  -- does not return, and the process has ended. The kernel follows its manual.
  pub hook_entry-Answered :
      (abi : FollowsAbi kernel) (sees : Observes hooks o) (depth : ℕ) (s : S) (regs : SyscallRegs)
      (p : Process S K)
      → Installed s p
      → regs.rax ≢ 12
      → Answered s regs p.kernel_state (hook_entry kernel (suc (suc depth)) regs p)
  hook_entry-Answered abi sees depth s regs p i h = rw (waiting_lem s p i) (
      rw
        (hook_entry-hook_once kernel depth regs
          (waiting s p.entry_count p.trait_count p.kernel_state))
        (hook_once-Answered abi sees s regs p.entry_count p.trait_count p.kernel_state h))
