-- ===== src/HookLibs/Samples/Totals.antt =====
-- zpoline_samples/examples/trait_hooks.rs: what `StatisticsHook` has added up after a run of system calls.
use mathlib.Core.Path.{subst}
use zpoline_rs.Prelude.{
  ℕ, suc, ◌+◌, ◌%◌, ◌^◌, ◌<◌, ◌≡◌, ◌≢◌, sym, ◌∙◌, ◌&&◌, List, [], ◌∷◌, arith, ◌==◌, length, All,
  if◌then◌else◌,
}
use zpoline_rs.HookApi.Regs.{SyscallRegs}
use zpoline_rs.HookApi.Program.{Program}
use zpoline_rs.HookApi.Process.{Kernel, Process, Outcome, returned, exited}
use zpoline_rs.HookApi.Entry.Transparent.{FollowsAbi}
use zpoline_rs.HookLibs.Printing.{CallsOnly}
use zpoline_rs.HookLibs.Observer.{Installed}
use zpoline_rs.HookLibs.Observer.Calls.{make_calls, after_calls, Ran, make_calls-Ran}
use zpoline_rs.HookLibs.Stats.Tally.{calls_of}
use zpoline_rs.HookLibs.Samples.{Statistics, Report, is_positive, statistics_hooks}
use zpoline_rs.HookLibs.Samples.Bytes.{record_call, statistics_observer, statistics_hooks-Observes}

-- The sum of the results above 0 that the calls of a number gave.
abbrev pub bytes_of : ℕ → List SyscallRegs → List ℕ → ℕ
bytes_of nr [] vs = 0
bytes_of nr (regs ∷ calls) [] = 0
bytes_of nr (regs ∷ calls) (v ∷ vs) =
    (if regs.rax == nr && is_positive v then v else 0) + bytes_of nr calls vs

-- The statistics with the calls of a list and their results added.
abbrev pub with_results : List SyscallRegs → List ℕ → Statistics → Statistics
with_results calls vs s = record {
  write_count = (s.write_count + calls_of 1 calls) % 2 ^ 64;
  read_count = (s.read_count + calls_of 0 calls) % 2 ^ 64;
  open_count = (s.open_count + calls_of 2 calls) % 2 ^ 64;
  total_bytes_written = (s.total_bytes_written + bytes_of 1 calls vs) % 2 ^ 64;
  total_bytes_read = (s.total_bytes_read + bytes_of 0 calls vs) % 2 ^ 64;
}

pub record Fits (s : Statistics) : Type 0 where
  pub write_fits : s.write_count < 2 ^ 64
  pub read_fits : s.read_count < 2 ^ 64
  pub open_fits : s.open_count < 2 ^ 64
  pub written_fits : s.total_bytes_written < 2 ^ 64
  pub read_bytes_fit : s.total_bytes_read < 2 ^ 64

with_results_nil : (s : Statistics) → Fits s → with_results [] [] s ≡ s
with_results_nil s h = ground arith

with_results_cons :
    (regs : SyscallRegs) (calls : List SyscallRegs) (v : ℕ) (vs : List ℕ) (s : Statistics)
    → with_results calls vs (record_call regs.rax v s) ≡ with_results (regs ∷ calls) (v ∷ vs) s
with_results_cons regs calls v vs s = ground arith

record_call-Fits : (nr v : ℕ) (s : Statistics) → Fits s → Fits (record_call nr v s)
record_call-Fits nr v s h = ground arith

after_calls-with_results :
    (print : Report → Program (Unit {0})) (text_at : ℕ → List ℕ) (calls : List SyscallRegs)
    (vs : List ℕ) (s : Statistics)
    → Fits s
    → length vs ≡ length calls
    → after_calls (statistics_observer print text_at) calls vs s ≡ with_results calls vs s
after_calls-with_results print text_at [] [] s f l = sym (with_results_nil s f)
after_calls-with_results print text_at [] (v ∷ vs) s f l = absurd (omega (arith, l))
after_calls-with_results print text_at (regs ∷ calls) [] s f l = absurd (omega (arith, l))
after_calls-with_results print text_at (regs ∷ calls) (v ∷ vs) s f l =
    after_calls-with_results print text_at calls vs (record_call regs.rax v s)
      (record_call-Fits regs.rax v s f) (omega (arith, l))
    ∙ with_results_cons regs calls v vs s

module _ {K : Type 0} (kernel : Kernel K) (print : Report → Program (Unit {0}))
    (text_at : ℕ → List ℕ) where
  abbrev pub Watching : Statistics → Process Statistics K → Type 0
  Watching s p =
      Installed kernel (statistics_hooks print text_at) (statistics_observer print text_at) s p

  -- The run came to its end, and what its results add is added, or the process has ended.
  pub data AddedUp (calls : List SyscallRegs) (s : Statistics)
      : Outcome Statistics K (List ℕ) → Type 0 where
    added_up :
        {vs : List ℕ} {q : Process Statistics K}
        → length vs ≡ length calls
        → Watching (with_results calls vs s) q
        → AddedUp calls s (returned vs q)
    cut_short : AddedUp calls s exited

  Ran-AddedUp :
      (calls : List SyscallRegs) (s : Statistics) (x : Outcome Statistics K (List ℕ))
      → Fits s
      → Ran kernel (statistics_hooks print text_at) (statistics_observer print text_at) calls s x
      → AddedUp calls s x
  Ran-AddedUp calls s _ f (Ran.ran {vs} {q} l i) =
      added_up l
        (subst (λ t. Watching t q) (after_calls-with_results print text_at calls vs s f l) i)
  Ran-AddedUp calls s _ f Ran.cut_short = cut_short

  -- `StatisticsHook` is registered, with whatever statistics, and the application makes any system calls
  -- but brk, one after another: each comes back with a result, in order, unless one ends the process;
  -- the counters have grown by the number of their calls, and the two totals by the results above 0
  -- that the application got from write and from read, all modulo 2 ^ 64. The kernel follows its manual
  -- and printing is libc's.
  pub make_calls-AddedUp :
      (abi : FollowsAbi kernel) (prints : (r : Report) → CallsOnly (print r)) (depth : ℕ)
      (calls : List SyscallRegs) (s : Statistics) (p : Process Statistics K)
      → Fits s
      → Watching s p
      → All (λ regs. regs.rax ≢ 12) calls
      → AddedUp calls s (make_calls kernel (suc (suc depth)) calls p)
  make_calls-AddedUp abi prints depth calls s p f i h = Ran-AddedUp calls s _ f (
      make_calls-Ran kernel (statistics_hooks print text_at) (statistics_observer print text_at) abi
        (statistics_hooks-Observes print text_at prints) depth calls s p i h)
