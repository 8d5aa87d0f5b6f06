-- ===== src/HookLibs/Tracer/Traced.antt =====
-- A tracing hook prints its line and makes the call.
use zpoline_rs.Prelude.{
  ℕ, suc, ◌+◌, ◌%◌, ◌^◌, ◌≡◌, refl, false, true, none, some, sym, Option-cases, inl, inr,
}
use zpoline_rs.HookApi.Regs.{SyscallRegs}
use zpoline_rs.HookApi.Program.{Program, done, raw_syscall, ◌>>=◌}
use zpoline_rs.HookApi.Process.{
  Kernel, custom, Process, Outcome, returned, exited, bind, trap, exec,
}
use zpoline_rs.HookApi.Entry.{call_hook, hook_entry}
use zpoline_rs.HookApi.Entry.Guard.{Keeps}
use zpoline_rs.HookApi.Entry.Sequence.{exec-bind}
use zpoline_rs.HookApi.Entry.Nesting.{direct_entry, hook_once, hook_entry-hook_once}
use zpoline_rs.HookLibs.Printing.{CallsOnly, answers, Printed, printed, gone, exec-Printed}
use zpoline_rs.HookLibs.Names.{syscall_name, trace_name}
use zpoline_rs.HookLibs.Tracer.{TraceLine, pass_on, trace_hook, zpoline_hook_init}

module _ {S K : Type 0} (kernel : Kernel K) where
  -- The calls of the line were answered, then the very call, and no other; the registers, the guard, the
  -- hook, the trait object and the mutex are as they were. Or one of these calls did not return.
  pub data Traced (line : Program (Unit {0})) (regs : SyscallRegs) (p : Process S K)
      : Outcome S K (ℕ × SyscallRegs) → Type 0 where
    traced :
        {v : ℕ} {k : K} {q : Process S K}
        → answers kernel line p.kernel_state ≡ some (tt, k)
        → kernel regs k ≡ some (v, q.kernel_state)
        → Keeps p q
        → q.trait_object ≡ p.trait_object
        → Traced line regs p (returned (v, regs) q)
    line_ended : answers kernel line p.kernel_state ≡ none → Traced line regs p exited
    call_ended :
        {k : K}
        → answers kernel line p.kernel_state ≡ some (tt, k)
        → kernel regs k ≡ none
        → Traced line regs p exited

  called-Traced :
      (line : Program (Unit {0})) (regs : SyscallRegs) (p : Process S K) (n : ℕ)
      (x : Outcome S K (Unit {0}))
      → p.in_hook ≡ false
      → Printed kernel (record p { entry_count = n; in_hook = true }) line x
      → Traced line regs p (
          bind
            (bind x (λ u q.
              exec kernel (direct_entry kernel) (raw_syscall regs >>= λ v. done (v, regs)) q))
            (λ r q. returned r (record q { in_hook = false })))
  unfolding exec trap
  called-Traced line regs p n _ h (gone f) = line_ended f
  called-Traced line regs p n _ h (printed m k r) = elim (Option-cases (kernel regs k)) [
    | inl e ↦ rw (e, trap) (call_ended r e)
    | inr ((v, k'), e) ↦
        rw (e, trap)
          (traced r e
            (record {
              same_guard = sym h;
              same_function = refl;
              same_lock = refl;
              same_poison = refl;
            })
            refl)
  ]

  pass_on-Traced :
      (say : SyscallRegs → Program (Unit {0})) (depth : ℕ) (regs : SyscallRegs) (p : Process S K)
      → ((r : SyscallRegs) → CallsOnly (say r))
      → p.hook_function ≡ custom (pass_on say)
      → p.in_hook ≡ false
      → Traced (say regs) regs p (hook_entry kernel (suc (suc depth)) regs p)
  unfolding call_hook
  pass_on-Traced say depth regs p prints f h = rw (hook_entry-hook_once kernel depth regs p) (
      rw (h, hook_once)
        (rw f (
          rw
            (exec-bind kernel {B = ℕ × SyscallRegs} (say regs)
              (λ u. raw_syscall regs >>= λ v. done (v, regs))
              (record p {
                hook_function = custom (pass_on say);
                in_hook = true;
                entry_count = (p.entry_count + 1) % 2 ^ 64;
              }))
            (called-Traced (say regs) regs
              (record p { hook_function = custom (pass_on say); in_hook = false }) _ _ refl
              (exec-Printed kernel (say regs) _ (prints regs))))))

  module _ (print : TraceLine → Program (Unit {0}))
      (prints : (l : TraceLine) → CallsOnly (print l)) where
    -- With the hook of the hook library set, for every system call that the application makes outside a
    -- hook: the kernel answers the calls that print the line with the name and the registers of the call,
    -- then the call with the very same registers, once, and no other; the application gets that answer,
    -- and the registers, the guard, the hook function, the trait object and the mutex are as they were. Or
    -- one of these calls does not return, and the process has ended. Printing the line makes system calls
    -- only.
    pub zpoline_hook_function-Traced :
        (depth : ℕ) (regs : SyscallRegs) (p : Process S K)
        → p.hook_function ≡ zpoline_hook_init print
        → p.in_hook ≡ false
        → Traced
            (print (record { name = syscall_name regs.rax; regs = regs }))
            regs
            p
            (hook_entry kernel (suc (suc depth)) regs p)
    zpoline_hook_function-Traced depth regs p f h =
        pass_on-Traced _ depth regs p (λ r. prints _) f h

    -- The same of the sample's hook.
    pub trace_hook-Traced :
        (depth : ℕ) (regs : SyscallRegs) (p : Process S K)
        → p.hook_function ≡ custom (trace_hook print)
        → p.in_hook ≡ false
        → Traced
            (print (record { name = trace_name regs.rax; regs = regs }))
            regs
            p
            (hook_entry kernel (suc (suc depth)) regs p)
    trace_hook-Traced depth regs p f h = pass_on-Traced _ depth regs p (λ r. prints _) f h
