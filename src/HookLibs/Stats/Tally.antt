-- ===== src/HookLibs/Stats/Tally.antt =====
-- zpoline_hook_trait_example/src/lib.rs: what the counters of `StatsHook` are after a run of system calls.
use mathlib.Core.Path.{subst}
use zpoline_rs.Prelude.{
  ℕ, refl, some, false, suc, ◌+◌, ◌%◌, ◌^◌, ◌<◌, ◌≡◌, ◌≢◌, sym, ◌∙◌, List, [], ◌∷◌, arith, ◌==◌,
  length, All, if◌then◌else◌,
}
use zpoline_rs.HookApi.Regs.{SyscallRegs}
use zpoline_rs.HookApi.Program.{Program}
use zpoline_rs.HookApi.Process.{Kernel, Process, Outcome, returned, exited}
use zpoline_rs.HookApi.Entry.{hook_init, register_syscall_hooks}
use zpoline_rs.HookApi.Entry.Transparent.{FollowsAbi}
use zpoline_rs.HookLibs.Printing.{CallsOnly}
use zpoline_rs.HookLibs.Observer.{Installed}
use zpoline_rs.HookLibs.Observer.Calls.{make_calls, after_calls, Ran, make_calls-Ran}
use zpoline_rs.HookLibs.Stats.{
  Counts, Message, stats_hooks, zero_counts, init_hooks, zpoline_hook_init,
}
use zpoline_rs.HookLibs.Stats.Observing.{count_call, stats_observer, stats_hooks-Observes}

abbrev pub calls_of : ℕ → List SyscallRegs → ℕ
calls_of nr [] = 0
calls_of nr (regs ∷ calls) = (if regs.rax == nr then 1 else 0) + calls_of nr calls

-- The counters with the calls of a list added.
abbrev pub with_calls : List SyscallRegs → Counts → Counts
with_calls calls s = record {
  write_count = (s.write_count + calls_of 1 calls) % 2 ^ 64;
  read_count = (s.read_count + calls_of 0 calls) % 2 ^ 64;
  open_count = (s.open_count + calls_of 2 calls) % 2 ^ 64;
  getpid_count = (s.getpid_count + calls_of 39 calls) % 2 ^ 64;
}

pub record Fits (s : Counts) : Type 0 where
  pub write_fits : s.write_count < 2 ^ 64
  pub read_fits : s.read_count < 2 ^ 64
  pub open_fits : s.open_count < 2 ^ 64
  pub getpid_fits : s.getpid_count < 2 ^ 64

pub with_calls_nil : (s : Counts) → Fits s → with_calls [] s ≡ s
with_calls_nil s h = ground arith

pub with_calls_cons :
    (regs : SyscallRegs) (calls : List SyscallRegs) (s : Counts)
    → with_calls calls (count_call regs.rax s) ≡ with_calls (regs ∷ calls) s
with_calls_cons regs calls s = ground arith

pub count_call-Fits : (nr : ℕ) (s : Counts) → Fits s → Fits (count_call nr s)
count_call-Fits nr s h = ground arith

after_calls-with_calls :
    (print : Message → Program (Unit {0})) (calls : List SyscallRegs) (vs : List ℕ) (s : Counts)
    → Fits s
    → length vs ≡ length calls
    → after_calls (stats_observer print) calls vs s ≡ with_calls calls s
after_calls-with_calls print [] vs s f l = sym (with_calls_nil s f)
after_calls-with_calls print (regs ∷ calls) [] s f l = absurd (omega (arith, l))
after_calls-with_calls print (regs ∷ calls) (v ∷ vs) s f l =
    after_calls-with_calls print calls vs (count_call regs.rax s) (count_call-Fits regs.rax s f)
      (omega (arith, l))
    ∙ with_calls_cons regs calls s

module _ {K : Type 0} (kernel : Kernel K) (print : Message → Program (Unit {0})) where
  abbrev pub Counting : Counts → Process Counts K → Type 0
  Counting s p = Installed kernel (stats_hooks print) (stats_observer print) s p

  loaded_lem :
      (p q : Process Counts K)
      → init_hooks print p ≡ some q
      → (p.trait_poisoned ≡ false)
        × (q.trait_object ≡ some (stats_hooks print, zero_counts))
        × (q.trait_poisoned ≡ p.trait_poisoned)
        × (q.trait_locked ≡ p.trait_locked)
        × (q.in_hook ≡ p.in_hook)
  unfolding register_syscall_hooks
  loaded_lem p q e = ground arith

  loaded-Counting :
      (p q : Process Counts K)
      → init_hooks print p ≡ some q
      → p.in_hook ≡ false
      → p.trait_locked ≡ false
      → Counting zero_counts (hook_init zpoline_hook_init q)
  loaded-Counting p q e o l =
      let (clean, object, same_poison, same_lock, same_guard) = loaded_lem p q e in
      record {
        function_lem = refl;
        object_lem = object;
        unpoisoned = same_poison ∙ clean;
        unlocked = same_lock ∙ l;
        outside = same_guard ∙ o;
      }

  -- The run came to its end, with a result for each call, or the process has ended.
  pub data Tallied (calls : List SyscallRegs) (s : Counts)
      : Outcome Counts K (List ℕ) → Type 0 where
    tallied :
        {vs : List ℕ} {q : Process Counts K}
        → length vs ≡ length calls
        → Counting (with_calls calls s) q
        → Tallied calls s (returned vs q)
    cut_short : Tallied calls s exited

  Ran-Tallied :
      (calls : List SyscallRegs) (s : Counts) (x : Outcome Counts K (List ℕ))
      → Fits s
      → Ran kernel (stats_hooks print) (stats_observer print) calls s x
      → Tallied calls s x
  Ran-Tallied calls s _ f (Ran.ran {vs} {q} l i) =
      tallied l (subst (λ t. Counting t q) (after_calls-with_calls print calls vs s f l) i)
  Ran-Tallied calls s _ f Ran.cut_short = cut_short

  -- `StatsHook` is registered, with whatever counts, and the application makes any system calls but
  -- brk, one after another: each comes back with a result, in order, unless one ends the process,
  -- and each of the four counters has grown by the number of its calls, modulo 2 ^ 64. The calls that
  -- the messages make are not counted. The kernel follows its manual and printing is libc's.
  pub make_calls-Tallied :
      (abi : FollowsAbi kernel) (prints : (m : Message) → CallsOnly (print m)) (depth : ℕ)
      (calls : List SyscallRegs) (s : Counts) (p : Process Counts K)
      → Fits s
      → Counting s p
      → All (λ regs. regs.rax ≢ 12) calls
      → Tallied calls s (make_calls kernel (suc (suc depth)) calls p)
  make_calls-Tallied abi prints depth calls s p f i h = Ran-Tallied calls s _ f (
      make_calls-Ran kernel (stats_hooks print) (stats_observer print) abi
        (stats_hooks-Observes print prints) depth calls s p i h)

  -- The loader sets the hook of the library that counts, which has registered its object: the first
  -- system calls that the application then makes, other than brk and one after another, each come back
  -- with a result, unless one ends the process, and the counters are the numbers of the four calls,
  -- modulo 2 ^ 64. The kernel follows its manual and printing is libc's.
  pub loaded-Tallied :
      (abi : FollowsAbi kernel) (prints : (m : Message) → CallsOnly (print m)) (depth : ℕ)
      (calls : List SyscallRegs) (p q : Process Counts K)
      → init_hooks print p ≡ some q
      → p.in_hook ≡ false
      → p.trait_locked ≡ false
      → All (λ regs. regs.rax ≢ 12) calls
      → Tallied calls zero_counts
          (make_calls kernel (suc (suc depth)) calls (hook_init zpoline_hook_init q))
  loaded-Tallied abi prints depth calls p q e o l h =
      make_calls-Tallied abi prints depth calls zero_counts (hook_init zpoline_hook_init q)
        (record {
          write_fits = omega arith;
          read_fits = omega arith;
          open_fits = omega arith;
          getpid_fits = omega arith;
        })
        (loaded-Counting p q e o l) h
