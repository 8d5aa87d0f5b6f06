-- ===== src/HookLibs/Samples/Demos/Trait.antt =====
-- zpoline_samples/examples/trait_hooks.rs: what `main` prints, and what the registered object has counted.
use mathlib.Core.Path.{subst}
use zpoline_rs.Prelude.{
  ℕ, suc, ◌+◌, ◌≡◌, ◌≢◌, refl, ◌∙◌, List, [], ◌∷◌, ◌++◌, some, false, arith, length, All,
  length-append, Option-cases, inl, inr,
}
use zpoline_rs.HookApi.Regs.{SyscallRegs}
use zpoline_rs.HookApi.Program.{Program}
use zpoline_rs.HookApi.Process.{Kernel, Process, Outcome, default_hook, trait_based_hook, trap}
use zpoline_rs.HookApi.Entry.{register_syscall_hooks, call_hook, hook_entry}
use zpoline_rs.HookApi.Entry.Nesting.{hook_entry-hook_once}
use zpoline_rs.HookApi.Entry.Transparent.{FollowsAbi}
use zpoline_rs.HookLibs.Printing.{CallsOnly}
use zpoline_rs.HookLibs.Observer.Calls.{make_calls}
use zpoline_rs.HookLibs.Samples.{Statistics, new_statistics, Report, statistics_hooks}
use zpoline_rs.HookLibs.Samples.Totals.{
  bytes_of, with_results, Fits, Watching, AddedUp, added_up, cut_short, make_calls-AddedUp,
}
use zpoline_rs.HookLibs.Samples.Demos.{Action, Io, calls_for, Shown}
use zpoline_rs.HookLibs.Samples.Demos.Mains.{load_number, trait_banner, trait_steps, trait_main}
use zpoline_rs.HookLibs.Samples.Demos.Shown.{
  Leads, leads, gone, bind-Leads, history, numbers, run_steps-Leads,
}
use zpoline_rs.HookLibs.Samples.Demos.Simple.{calls_of-append}
use zpoline_rs.HookLibs.Samples.Demos.Traced.{any_calls-All}

bytes_of-append :
    (nr : ℕ) (xs ys : List SyscallRegs) (vs ws : List ℕ)
    → length vs ≡ length xs
    → bytes_of nr (xs ++ ys) (vs ++ ws) ≡ bytes_of nr xs vs + bytes_of nr ys ws
bytes_of-append nr [] ys [] ws l = omega arith
bytes_of-append nr [] ys (v ∷ vs) ws l = absurd (omega (arith, l))
bytes_of-append nr (x ∷ xs) ys [] ws l = absurd (omega (arith, l))
bytes_of-append nr (x ∷ xs) ys (v ∷ vs) ws l =
    omega (arith, bytes_of-append nr xs ys vs ws (omega (arith, l)))

with_results-append :
    (xs ys : List SyscallRegs) (vs ws : List ℕ) (s : Statistics)
    → length vs ≡ length xs
    → with_results ys ws (with_results xs vs s) ≡ with_results (xs ++ ys) (vs ++ ws) s
with_results-append xs ys vs ws s l =
    rw
      (
        calls_of-append 0 xs ys,
        calls_of-append 1 xs ys,
        calls_of-append 2 xs ys,
        bytes_of-append 0 xs ys vs ws l,
        bytes_of-append 1 xs ys vs ws l,
      )
      (ground arith)

with_results-Fits :
    (xs : List SyscallRegs) (vs : List ℕ) (s : Statistics) → Fits (with_results xs vs s)
with_results-Fits xs vs s = omega arith

module _ {K : Type 0} (kernel : Kernel K) (print : Report → Program (Unit {0}))
    (text_at : ℕ → List ℕ) where
  -- The registered object has the statistics of the calls of a list.
  pub record Recorded (h : List SyscallRegs) (p : Process Statistics K) : Type 0 where
    pub results : List ℕ
    pub results_lem : length results ≡ length h
    pub object_lem : Watching kernel print text_at (with_results h results new_statistics) p

module _ {K : Type 0} (kernel : Kernel K) (abi : FollowsAbi kernel)
    (print : Report → Program (Unit {0})) (prints : (r : Report) → CallsOnly (print r))
    (text_at : ℕ → List ℕ) where
  more_calls :
      (depth : ℕ) (h calls : List SyscallRegs) (p : Process Statistics K)
      → Recorded kernel print text_at h p
      → All (λ regs. regs.rax ≢ 12) calls
      → Leads
          (λ (vs : List ℕ) q. Recorded kernel print text_at (h ++ calls) q)
          (make_calls kernel (suc (suc depth)) calls p)
  more_calls depth h calls p c others = and_recorded _ (
      make_calls-AddedUp kernel print text_at abi prints depth calls
        (with_results h c.results new_statistics) p (with_results-Fits h c.results new_statistics)
        c.object_lem others)
    where
      and_recorded :
          (x : Outcome Statistics K (List ℕ))
          → AddedUp kernel print text_at calls (with_results h c.results new_statistics) x
          → Leads (λ (vs : List ℕ) q. Recorded kernel print text_at (h ++ calls) q) x
      and_recorded _ (added_up {vs} {q} l i) = leads (record {
        results = c.results ++ vs;
        results_lem =
            length-append c.results vs ∙ omega (arith, l, c.results_lem, length-append h calls);
        object_lem =
            subst (λ t. Watching kernel print text_at t q)
              (with_results-append h calls c.results vs new_statistics c.results_lem) i;
      })
      and_recorded _ cut_short = gone

-- No hook has been set, none runs, and the mutex is free and not poisoned.
pub record Idle {K : Type 0} (p : Process Statistics K) : Type 0 where
  pub function_lem : p.hook_function ≡ default_hook
  pub unpoisoned : p.trait_poisoned ≡ false
  pub unlocked : p.trait_locked ≡ false
  pub outside : p.in_hook ≡ false

module _ {K : Type 0} (kernel : Kernel K) where
  hook_entry-Idle :
      (depth : ℕ) (regs : SyscallRegs) (p : Process Statistics K)
      → Idle p
      → Leads (λ (v : ℕ × SyscallRegs) q. Idle q) (hook_entry kernel (suc (suc depth)) regs p)
  unfolding call_hook trap
  hook_entry-Idle depth regs p i = rw (hook_entry-hook_once kernel depth regs p) (
      rw (i.outside, i.function_lem)
        (elim (Option-cases (kernel regs p.kernel_state)) [
          | inl e ↦ rw (e, trap) gone
          | inr ((v, k), e) ↦
              rw (e, trap)
                (leads (record {
                  function_lem = refl;
                  unpoisoned = i.unpoisoned;
                  unlocked = i.unlocked;
                  outside = refl;
                }))
        ]))

  make_calls-Idle :
      (depth : ℕ) (calls : List SyscallRegs) (p : Process Statistics K)
      → Idle p
      → Leads (λ (vs : List ℕ) q. Idle q) (make_calls kernel (suc (suc depth)) calls p)
  unfolding make_calls
  make_calls-Idle depth [] p i = leads i
  make_calls-Idle depth (regs ∷ calls) p i =
      bind-Leads _ (hook_entry-Idle depth regs p i)
        (λ v q j. bind-Leads _ (make_calls-Idle depth calls q j) (λ vs r k. leads k))

-- The numbers of a program that has counted nothing.
abbrev pub zeros : Shown
zeros =
    ("write() calls: ", 0)
    ∷ ("  Total bytes written: ", 0)
    ∷ ("read() calls: ", 0)
    ∷ ("  Total bytes read: ", 0)
    ∷ ("open() calls: ", 0)
    ∷ []

module _ {K : Type 0} (kernel : Kernel K) (abi : FollowsAbi kernel)
    (print : Report → Program (Unit {0})) (prints : (r : Report) → CallsOnly (print r))
    (text_at : ℕ → List ℕ) where
  abbrev registered : Process Statistics K → Process Statistics K
  registered p = record p {
    hook_function = trait_based_hook;
    trait_object = some (statistics_hooks print text_at, new_statistics);
  }

  registers_lem :
      (p : Process Statistics K)
      → Idle p
      → register_syscall_hooks (statistics_hooks print text_at) new_statistics p
        ≡ some (registered p)
  unfolding register_syscall_hooks
  registers_lem p i = rw i.unpoisoned refl

  registered-Recorded :
      (p : Process Statistics K) → Idle p → Recorded kernel print text_at [] (registered p)
  registered-Recorded p i = record {
    results = [];
    results_lem = refl;
    object_lem = record {
      function_lem = refl;
      object_lem = refl;
      unpoisoned = i.unpoisoned;
      unlocked = i.unlocked;
      outside = i.outside;
    };
  }

  -- `main` of trait_hooks.rs, where no hook has been set before, none runs and the mutex is free and not
  -- poisoned, whatever std does for its lines, as long as it makes no brk: it comes to its end, unless a
  -- call ends the process; the statistics that it prints are five zeros, whatever it has called, while
  -- the object that is registered has the numbers of the calls of read, write and open since the
  -- registration, and the totals of what read and write gave. The kernel follows its manual and printing
  -- is libc's.
  pub trait_main-Zeros :
      (depth : ℕ) (io : Io) (p : Process Statistics K)
      → ((i : ℕ) (a : Action) → All (λ regs. regs.rax ≢ 12) (calls_for io i a))
      → Idle p
      → Leads
          (λ lines q.
            (lines ≡ zeros)
            × Recorded kernel print text_at
                (history io (λ n h. n) 2 (trait_steps (some new_statistics)) [])
                q)
          (trait_main kernel (suc (suc depth)) io print text_at p)
  unfolding trait_main numbers
  trait_main-Zeros depth io p others i =
      bind-Leads _
        (run_steps-Leads kernel (suc (suc depth)) io load_number (λ n h. n) (λ h q. Idle q)
          (λ regs. Unit) (λ i a. any_calls-All (calls_for io i a))
          (λ h calls q j any. make_calls-Idle kernel depth calls q j) (λ f h q j. refl) 0
          trait_banner [] p i)
        (λ lines q k. rw (registers_lem q k.1) (
          run_steps-Leads kernel (suc (suc depth)) io load_number (λ n h. n)
            (Recorded kernel print text_at) (λ regs. regs.rax ≢ 12) others
            (more_calls kernel abi print prints text_at depth) (λ f h r j. refl) 2
            (trait_steps (some new_statistics)) [] (registered q) (registered-Recorded q k.1)))
