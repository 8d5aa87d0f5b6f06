-- ===== src/HookLibs/Samples/Demos/Simple.antt =====
-- zpoline_samples/examples/simple_hooks.rs: the numbers that `main` prints.
use zpoline_rs.Prelude.{
  ℕ, suc, ◌+◌, ◌%◌, ◌^◌, ◌<◌, ◌≡◌, ◌≢◌, refl, ◌∙◌, List, [], ◌∷◌, ◌++◌, some, false, arith, length,
  All, take, length-append,
}
use zpoline_rs.HookApi.Regs.{SyscallRegs}
use zpoline_rs.HookApi.Process.{Kernel, Process, Outcome}
use zpoline_rs.HookApi.Entry.{register_syscall_hooks}
use zpoline_rs.HookApi.Entry.Transparent.{FollowsAbi}
use zpoline_rs.HookLibs.Observer.Calls.{make_calls}
use zpoline_rs.HookLibs.Stats.{Counts, zero_counts}
use zpoline_rs.HookLibs.Stats.Tally.{calls_of, with_calls, Fits}
use zpoline_rs.HookLibs.Samples.{logging_hooks}
use zpoline_rs.HookLibs.Samples.Counters.{
  logging_process, AllCounted, all_counted, cut_short, make_calls-AllCounted,
}
use zpoline_rs.HookLibs.Samples.Demos.{Action, Io, calls_for, Shown}
use zpoline_rs.HookLibs.Samples.Demos.Mains.{
  SimpleStatic, writes, reads, opens, getpids, entries, trait_hooks, load_simple, simple_steps,
  simple_main,
}
use zpoline_rs.HookLibs.Samples.Demos.Shown.{
  Leads, leads, gone, map-Leads, history, numbers, run_steps-Leads,
}

-- The number that a static has after the calls of a list, from what the two of the crate had before.
abbrev pub simple_number : ℕ → ℕ → SimpleStatic → List SyscallRegs → ℕ
simple_number n m writes h = calls_of 1 h % 2 ^ 64
simple_number n m reads h = calls_of 0 h % 2 ^ 64
simple_number n m opens h = calls_of 2 h % 2 ^ 64
simple_number n m getpids h = calls_of 39 h % 2 ^ 64
simple_number n m entries h = (n + length h) % 2 ^ 64
simple_number n m trait_hooks h = (m + length h) % 2 ^ 64

pub calls_of-append :
    (nr : ℕ) (xs ys : List SyscallRegs) → calls_of nr (xs ++ ys) ≡ calls_of nr xs + calls_of nr ys
calls_of-append nr [] ys = omega arith
calls_of-append nr (x ∷ xs) ys = omega (arith, calls_of-append nr xs ys)

with_calls-append :
    (xs ys : List SyscallRegs) (s : Counts)
    → with_calls ys (with_calls xs s) ≡ with_calls (xs ++ ys) s
with_calls-append xs ys s =
    rw
      (
        calls_of-append 0 xs ys,
        calls_of-append 1 xs ys,
        calls_of-append 2 xs ys,
        calls_of-append 39 xs ys,
      )
      (ground arith)

-- The process behind the calls of a list.
pub record Counted {K : Type 0} (n m : ℕ) (h : List SyscallRegs) (p : Process Counts K)
    : Type 0 where
  pub counts : Counts
  pub entered : ℕ
  pub called : ℕ
  pub state : K
  pub process_lem : p ≡ logging_process counts entered called state
  pub counts_lem : counts ≡ with_calls h zero_counts
  pub entered_lem : entered ≡ (n + length h) % 2 ^ 64
  pub called_lem : called ≡ (m + length h) % 2 ^ 64

Counted-Fits : (h : List SyscallRegs) (s : Counts) → s ≡ with_calls h zero_counts → Fits s
Counted-Fits h s e = rw e (omega arith)

module _ {K : Type 0} (kernel : Kernel K) (abi : FollowsAbi kernel) (n m : ℕ) where
  more_calls :
      (depth : ℕ) (h calls : List SyscallRegs) (p : Process Counts K)
      → Counted n m h p
      → All (λ regs. regs.rax ≢ 12) calls
      → Leads
          (λ (vs : List ℕ) q. Counted n m (h ++ calls) q)
          (make_calls kernel (suc (suc depth)) calls p)
  more_calls depth h calls p c others = rw c.process_lem (
      and_counted _ (
        make_calls-AllCounted kernel abi depth calls c.counts c.entered c.called c.state
          (Counted-Fits h c.counts c.counts_lem) (omega (arith, c.entered_lem))
          (omega (arith, c.called_lem)) others))
    where
      and_counted :
          (x : Outcome Counts K (List ℕ))
          → AllCounted calls c.counts c.entered c.called x
          → Leads (λ (vs : List ℕ) q. Counted n m (h ++ calls) q) x
      and_counted _ (all_counted t n' m' e f g) = leads (record {
        counts = t;
        entered = n';
        called = m';
        state = _;
        process_lem = refl;
        counts_lem = e ∙ rw c.counts_lem (with_calls-append h calls zero_counts);
        entered_lem = omega (arith, f, c.entered_lem, length-append h calls);
        called_lem = omega (arith, g, c.called_lem, length-append h calls);
      })
      and_counted _ cut_short = gone

  load_lem :
      (f : SimpleStatic) (h : List SyscallRegs) (p : Process Counts K)
      → Counted n m h p
      → load_simple f p ≡ simple_number n m f h
  load_lem writes h p c = rw (c.process_lem, c.counts_lem) (omega arith)
  load_lem reads h p c = rw (c.process_lem, c.counts_lem) (omega arith)
  load_lem opens h p c = rw (c.process_lem, c.counts_lem) (omega arith)
  load_lem getpids h p c = rw (c.process_lem, c.counts_lem) (omega arith)
  load_lem entries h p c = rw (c.process_lem, c.entered_lem) refl
  load_lem trait_hooks h p c = rw (c.process_lem, c.called_lem) refl

registers_lem :
    {K : Type 0} (p : Process Counts K)
    → p.trait_poisoned ≡ false
    → p.trait_locked ≡ false
    → p.in_hook ≡ false
    → register_syscall_hooks logging_hooks zero_counts p
      ≡ some (logging_process zero_counts p.entry_count p.trait_count p.kernel_state)
unfolding register_syscall_hooks
registers_lem p c l o = cc (c, l, o)

-- The calls that the first `k` steps of `main` make.
abbrev pub made_by : Io → ℕ → ℕ → ℕ → ℕ → List SyscallRegs
made_by io n m msg k = history io (simple_number n m) 0 (take k (simple_steps msg)) []

-- Each text with the number that belongs to it: the calls with the number of the system call that it
-- names, or all calls on top of what a counter had before, among those of the steps before it.
abbrev pub expected_lines : Io → ℕ → ℕ → ℕ → Shown
expected_lines io n m msg =
    ("write() calls: ", calls_of 1 (made_by io n m msg 13) % 2 ^ 64)
    ∷ ("read() calls: ", calls_of 0 (made_by io n m msg 14) % 2 ^ 64)
    ∷ ("open() calls: ", calls_of 2 (made_by io n m msg 15) % 2 ^ 64)
    ∷ ("getpid() calls: ", calls_of 39 (made_by io n m msg 16) % 2 ^ 64)
    ∷ ("hook_entry() calls: ", (n + length (made_by io n m msg 19)) % 2 ^ 64)
    ∷ ("trait_based_hook() calls: ", (m + length (made_by io n m msg 19)) % 2 ^ 64)
    ∷ []

expected_lines_lem :
    (io : Io) (n m msg : ℕ)
    → numbers io (simple_number n m) 0 (simple_steps msg) [] ≡ expected_lines io n m msg
unfolding numbers history
expected_lines_lem io n m msg = refl

module _ {K : Type 0} (kernel : Kernel K) (abi : FollowsAbi kernel) where
  -- `main` of simple_hooks.rs, with the mutex free and not poisoned and no hook running, whatever std
  -- does for its lines, as long as it makes no brk: it comes to its end, unless a call ends the process,
  -- and prints six numbers: behind "write() calls: ", "read() calls: ", "open() calls: " and
  -- "getpid() calls: " those of the calls of write, read, open and getpid that it has made since the
  -- registration up to there, its own prints included, and behind "hook_entry() calls: " and
  -- "trait_based_hook() calls: " those of all its calls up to the first of these two, on top of what the
  -- two counters of the crate had before; all modulo 2 ^ 64. The kernel follows its manual.
  pub simple_main-Counted :
      (depth : ℕ) (io : Io) (msg : ℕ) (p : Process Counts K)
      → ((i : ℕ) (a : Action) → All (λ regs. regs.rax ≢ 12) (calls_for io i a))
      → p.trait_poisoned ≡ false
      → p.trait_locked ≡ false
      → p.in_hook ≡ false
      → p.entry_count < 2 ^ 64
      → p.trait_count < 2 ^ 64
      → Leads
          (λ lines q.
            (lines ≡ expected_lines io p.entry_count p.trait_count msg)
            × Counted p.entry_count p.trait_count
                (history io (simple_number p.entry_count p.trait_count) 0 (simple_steps msg) [])
                q)
          (simple_main kernel (suc (suc depth)) io msg p)
  unfolding simple_main
  simple_main-Counted depth io msg p others c l o a b = rw (registers_lem p c l o) (
      map-Leads
        (run_steps-Leads kernel (suc (suc depth)) io load_simple
          (simple_number p.entry_count p.trait_count) (Counted p.entry_count p.trait_count)
          (λ regs. regs.rax ≢ 12) others (more_calls kernel abi p.entry_count p.trait_count depth)
          (load_lem kernel abi p.entry_count p.trait_count) 0 (simple_steps msg) []
          (logging_process zero_counts p.entry_count p.trait_count p.kernel_state)
          (record {
            counts = zero_counts;
            entered = p.entry_count;
            called = p.trait_count;
            state = p.kernel_state;
            process_lem = refl;
            counts_lem = refl;
            entered_lem = omega arith;
            called_lem = omega arith;
          }))
        (λ lines q r. (r.0 ∙ expected_lines_lem io p.entry_count p.trait_count msg, r.1)))
