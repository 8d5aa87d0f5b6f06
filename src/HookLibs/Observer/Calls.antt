-- ===== src/HookLibs/Observer/Calls.antt =====
-- A run of system calls of the application, with an observer registered.
use zpoline_rs.Prelude.{ℕ, suc, ◌≡◌, ◌≢◌, refl, List, [], ◌∷◌, arith, length, All}
use zpoline_rs.HookApi.Regs.{SyscallRegs}
use zpoline_rs.HookApi.Hooks.{SyscallHooks}
use zpoline_rs.HookApi.Process.{Kernel, Process, Outcome, returned, exited, bind}
use zpoline_rs.HookApi.Entry.{hook_entry}
use zpoline_rs.HookApi.Entry.Transparent.{FollowsAbi}
use zpoline_rs.HookLibs.Observer.{
  Observer, Observes, Installed, Answered, answered, before_ended, call_ended, after_ended,
  hook_entry-Answered,
}

-- The system calls of the application, one after another, and their results.
unfoldable pub make_calls :
    {S K : Type 0} → Kernel K → ℕ → List SyscallRegs → Process S K → Outcome S K (List ℕ)
make_calls kernel depth [] p = returned [] p
make_calls kernel depth (regs ∷ calls) p =
    bind (hook_entry kernel depth regs p)
      (λ v q. bind (make_calls kernel depth calls q) (λ vs r. returned (v.0 ∷ vs) r))

-- What the observer has recorded after calls with those results.
abbrev pub after_calls : {S : Type 0} → Observer S → List SyscallRegs → List ℕ → S → S
after_calls o [] vs s = s
after_calls o (regs ∷ calls) [] s = s
after_calls o (regs ∷ calls) (v ∷ vs) s = after_calls o calls vs (o.update s regs v)

module _ {S K : Type 0} (kernel : Kernel K) (hooks : SyscallHooks S) (o : Observer S) where
  -- The run came to its end, with a result for each call, or the process has ended.
  pub data Ran (calls : List SyscallRegs) (s : S) : Outcome S K (List ℕ) → Type 0 where
    ran :
        {vs : List ℕ} {q : Process S K}
        → length vs ≡ length calls
        → Installed kernel hooks o (after_calls o calls vs s) q
        → Ran calls s (returned vs q)
    cut_short : Ran calls s exited

  Ran-cons :
      (regs : SyscallRegs) (calls : List SyscallRegs) (s : S) (v : ℕ) (x : Outcome S K (List ℕ))
      → Ran calls (o.update s regs v) x
      → Ran (regs ∷ calls) s (bind x (λ vs r. returned (v ∷ vs) r))
  Ran-cons regs calls s v _ (ran l i) = ran (omega (arith, l)) i
  Ran-cons regs calls s v _ cut_short = cut_short

  module _ (abi : FollowsAbi kernel) (sees : Observes hooks o) (depth : ℕ) where
    pub make_calls-Ran :
        (calls : List SyscallRegs) (s : S) (p : Process S K)
        → Installed kernel hooks o s p
        → All (λ regs. regs.rax ≢ 12) calls
        → Ran calls s (make_calls kernel (suc (suc depth)) calls p)
    unfolding make_calls
    make_calls-Ran [] s p i h = ran refl i
    make_calls-Ran (regs ∷ calls) s p i (h, hs) =
        call_first _ (hook_entry-Answered kernel hooks o abi sees depth s regs p i h)
          (λ v q d. make_calls-Ran calls (o.update s regs v) q d hs)
      where
        call_first :
            (x : Outcome S K (ℕ × SyscallRegs))
            → Answered kernel hooks o s regs p.kernel_state x
            → ((v : ℕ) (q : Process S K)
                → Installed kernel hooks o (o.update s regs v) q
                → Ran calls (o.update s regs v) (make_calls kernel (suc (suc depth)) calls q))
            → Ran (regs ∷ calls) s (
                bind x (λ v q.
                  bind
                    (make_calls kernel (suc (suc depth)) calls q)
                    (λ vs r. returned (v.0 ∷ vs) r)))
        call_first _ (answered {v} {q} before e after d) rest =
            Ran-cons regs calls s v _ (rest v q d)
        call_first _ (before_ended e) rest = cut_short
        call_first _ (call_ended b e) rest = cut_short
        call_first _ (after_ended b e a) rest = cut_short
