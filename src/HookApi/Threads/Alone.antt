-- ===== src/HookApi/Threads/Alone.antt =====
-- The moves of a thread by itself and `hook_entry` as that thread sees it, with any hook function.
pub mod Running
pub mod Trait
pub mod Library
use zpoline_rs.Prelude.{ℕ, suc, ◌≡◌, refl, false, List, ◌∷◌}
use zpoline_rs.HookApi.Regs.{SyscallRegs}
use zpoline_rs.HookApi.Process.{
  Kernel, HookFn, default_hook, trait_based_hook, custom, Process, returned,
}
use zpoline_rs.HookApi.Entry.{hook_entry}
use zpoline_rs.HookApi.Threads.{Object, Thread, outside, Steps}
use zpoline_rs.HookApi.Threads.Inside.{at}
use zpoline_rs.HookApi.Threads.Alone.Running.{seen, Passes, Passes-Steps}
use zpoline_rs.HookApi.Threads.Alone.Trait.{trait_hook-Passes}
use zpoline_rs.HookApi.Threads.Alone.Library.{default_hook-Passes, custom-Passes}

-- The calls that the object is through with, after one more call with a hook function.
abbrev pub with_call : HookFn → SyscallRegs → List SyscallRegs → List SyscallRegs
with_call trait_based_hook regs calls = regs ∷ calls
with_call default_hook regs calls = calls
with_call (custom f) regs calls = calls

module _ {S K : Type 0} (kernel : Kernel K) where
  each_hook-Passes :
      (hook : HookFn) (depth i : ℕ) (object : Object S) (calls : List SyscallRegs)
      (regs r : SyscallRegs) (p q : Process S K) (v : ℕ)
      → p.hook_function ≡ hook
      → p.trait_poisoned ≡ false
      → p.trait_locked ≡ false
      → p.in_hook ≡ false
      → hook_entry kernel (suc (suc depth)) regs p ≡ returned (v, r) q
      → Passes kernel i v (seen p object calls) (seen q object (with_call hook regs calls))
  each_hook-Passes trait_based_hook depth i object calls regs r p q v f c =
      trait_hook-Passes kernel depth i object calls regs r p q v f c
  each_hook-Passes default_hook depth i object calls regs r p q v f c =
      default_hook-Passes kernel depth i object calls regs r p q v f
  each_hook-Passes (custom g) depth i object calls regs r p q v f c =
      custom-Passes kernel g depth i object calls regs r p q v f

  -- A thread that is outside calls, and `hook_entry` returns, as one thread sees it, with any hook function
  -- set, the mutex free and not poisoned. Then the thread goes into a hook by one move and, by moves of
  -- its own with IN_HOOK set all the way, through it to the very result, and what the threads share is
  -- then what `hook_entry` leaves: the hook function, the object, the kernel's state, and the mutex free.
  -- The call is one that the object is through with exactly if the trait's hook is set. With its way out
  -- these are steps of the threads, the others standing where they are.
  pub hook_entry-Passes :
      (depth i : ℕ) (ts : ℕ → Thread S) (object : Object S) (calls : List SyscallRegs)
      (regs r : SyscallRegs) (p q : Process S K) (v : ℕ)
      → p.trait_poisoned ≡ false
      → p.trait_locked ≡ false
      → p.in_hook ≡ false
      → hook_entry kernel (suc (suc depth)) regs p ≡ returned (v, r) q
      → let m' = seen q object (with_call p.hook_function regs calls) in
        Passes kernel i v (seen p object calls) m'
        × Steps kernel (at i ts (seen p object calls) outside) (at i ts m' outside)
  hook_entry-Passes depth i ts object calls regs r p q v c l o e =
      let through =
        each_hook-Passes p.hook_function depth i object calls regs r p q v refl c l o e in
      (through, Passes-Steps ts through)
