-- ===== src/HookLibs/Samples/Counters.antt =====
-- zpoline_samples/examples/simple_hooks.rs: what one system call does to the process with `LoggingHook`
-- registered, to the last counter.
use zpoline_rs.Prelude.{
  ℕ, suc, ◌+◌, ◌%◌, ◌^◌, ◌<◌, ◌≡◌, ◌≢◌, ◌∙◌, sym, List, [], ◌∷◌, some, false, arith, length, All,
  Option-cases, inl, inr,
}
use zpoline_rs.HookApi.Regs.{SyscallRegs}
use zpoline_rs.HookApi.Hooks.{keep}
use zpoline_rs.HookApi.Dispatch.{dispatch_syscall_hooks}
use zpoline_rs.HookApi.Abi.{prototype_of, forward}
use zpoline_rs.HookApi.Process.{
  Kernel, trait_based_hook, Process, Outcome, returned, exited, bind, trap,
}
use zpoline_rs.HookApi.Entry.{with_regs, call_hook, hook_entry}
use zpoline_rs.HookApi.Entry.Nesting.{hook_once, hook_entry-hook_once}
use zpoline_rs.HookApi.Entry.Transparent.{FollowsAbi, exec-keep-forward}
use zpoline_rs.HookLibs.Observer.Calls.{make_calls}
use zpoline_rs.HookLibs.Stats.{Counts}
use zpoline_rs.HookLibs.Stats.Observing.{count_call}
use zpoline_rs.HookLibs.Stats.Tally.{
  with_calls, Fits, with_calls_nil, with_calls_cons, count_call-Fits,
}
use zpoline_rs.HookLibs.Samples.{logging_hooks}

dispatch-logging_forward :
    (s : Counts) (regs : SyscallRegs)
    → regs.rax ≢ 12
    → dispatch_syscall_hooks logging_hooks s regs
      ≡ keep (count_call regs.rax s) (forward (prototype_of regs.rax) regs)
unfolding dispatch_syscall_hooks logging_hooks prototype_of
dispatch-logging_forward s regs h = ground arith

-- The object is registered with some counts, and no hook runs.
abbrev pub logging_process :
    {K : Type 0} → Counts → (entry_count trait_count : ℕ) → K → Process Counts K
logging_process s n m k = record {
  hook_function = trait_based_hook;
  trait_object = some (logging_hooks, s);
  trait_poisoned = false;
  trait_locked = false;
  in_hook = false;
  entry_count = n;
  trait_count = m;
  kernel_state = k;
}

-- A call came back, and its counters are one further; or the process has ended.
data OneCounted {K : Type 0} (s : Counts) (regs : SyscallRegs) (n m : ℕ)
    : Outcome Counts K (ℕ × SyscallRegs) → Type 0 where
  one_counted :
      {v : ℕ} {k : K}
      → OneCounted s regs n m (
          returned
            (v, regs)
            (logging_process (count_call regs.rax s) ((n + 1) % 2 ^ 64) ((m + 1) % 2 ^ 64) k))
  ended : OneCounted s regs n m exited

-- A run of calls came to its end: the four counters of the object and the two of the crate have
-- grown by its calls. Or the process has ended.
pub data AllCounted {K : Type 0} (calls : List SyscallRegs) (s : Counts) (n m : ℕ)
    : Outcome Counts K (List ℕ) → Type 0 where
  all_counted :
      {vs : List ℕ} {k : K} (t : Counts) (n' m' : ℕ)
      → t ≡ with_calls calls s
      → n' ≡ (n + length calls) % 2 ^ 64
      → m' ≡ (m + length calls) % 2 ^ 64
      → AllCounted calls s n m (returned vs (logging_process t n' m' k))
  cut_short : AllCounted calls s n m exited

module _ {K : Type 0} (kernel : Kernel K) (abi : FollowsAbi kernel) where
  hook_once-logging :
      (s : Counts) (regs : SyscallRegs) (n m : ℕ) (k : K)
      → regs.rax ≢ 12
      → hook_once kernel regs (logging_process s n m k)
        ≡ with_regs regs (
            trap kernel regs
              (logging_process (count_call regs.rax s) ((n + 1) % 2 ^ 64) ((m + 1) % 2 ^ 64) k))
  unfolding call_hook trap
  hook_once-logging s regs n m k h = rw (dispatch-logging_forward s regs h) (
      rw (exec-keep-forward kernel abi (count_call regs.rax s) regs _)
        (elim (Option-cases (kernel regs k)) [
          | inl e ↦ rw (e, trap)
          | inr ((v, k'), e) ↦ rw (e, trap)
        ]))

  hook_entry-OneCounted :
      (depth : ℕ) (s : Counts) (regs : SyscallRegs) (n m : ℕ) (k : K)
      → regs.rax ≢ 12
      → OneCounted s regs n m (hook_entry kernel (suc (suc depth)) regs (logging_process s n m k))
  unfolding trap
  hook_entry-OneCounted depth s regs n m k h =
      rw (hook_entry-hook_once kernel depth regs (logging_process s n m k)) (
        rw (hook_once-logging s regs n m k h) (elim (Option-cases (kernel regs k)) [
          | inl e ↦ rw (e, trap) ended
          | inr ((v, k'), e) ↦ rw (e, trap) one_counted
        ]))

  AllCounted-cons :
      (regs : SyscallRegs) (calls : List SyscallRegs) (s : Counts) (n m v : ℕ)
      (x : Outcome Counts K (List ℕ))
      → AllCounted calls (count_call regs.rax s) ((n + 1) % 2 ^ 64) ((m + 1) % 2 ^ 64) x
      → AllCounted (regs ∷ calls) s n m (bind x (λ vs r. returned (v ∷ vs) r))
  AllCounted-cons regs calls s n m v _ (all_counted t n' m' e f g) =
      all_counted t n' m' (e ∙ with_calls_cons regs calls s) (omega (arith, f)) (omega (arith, g))
  AllCounted-cons regs calls s n m v _ cut_short = cut_short

  pub make_calls-AllCounted :
      (depth : ℕ) (calls : List SyscallRegs) (s : Counts) (n m : ℕ) (k : K)
      → Fits s
      → n < 2 ^ 64
      → m < 2 ^ 64
      → All (λ regs. regs.rax ≢ 12) calls
      → AllCounted calls s n m (make_calls kernel (suc (suc depth)) calls (logging_process s n m k))
  unfolding make_calls
  make_calls-AllCounted depth [] s n m k f a b h =
      all_counted s n m (sym (with_calls_nil s f)) (omega arith) (omega arith)
  make_calls-AllCounted depth (regs ∷ calls) s n m k f a b (h, hs) =
      call_first _ (hook_entry-OneCounted depth s regs n m k h) (λ k'.
        make_calls-AllCounted depth calls (count_call regs.rax s) _ _ k'
          (count_call-Fits regs.rax s f) (omega arith) (omega arith) hs)
    where
      call_first :
          (x : Outcome Counts K (ℕ × SyscallRegs))
          → OneCounted s regs n m x
          → ((k' : K)
              → AllCounted calls (count_call regs.rax s) ((n + 1) % 2 ^ 64) ((m + 1) % 2 ^ 64) (
                  make_calls kernel (suc (suc depth)) calls (
                    logging_process
                      (count_call regs.rax s)
                      ((n + 1) % 2 ^ 64)
                      ((m + 1) % 2 ^ 64)
                      k')))
          → AllCounted (regs ∷ calls) s n m (
              bind x (λ v q.
                bind (make_calls kernel (suc (suc depth)) calls q) (λ vs r. returned (v.0 ∷ vs) r)))
      call_first _ (one_counted {v} {k = l}) rest = AllCounted-cons regs calls s n m v _ (rest l)
      call_first _ ended rest = cut_short
