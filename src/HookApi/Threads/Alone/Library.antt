-- ===== src/HookApi/Threads/Alone/Library.antt =====
-- The moves of a thread by itself and `hook_entry` as that thread sees it, with another hook function than
-- the trait's: it takes no mutex.
use mathlib.Core.Path.{subst}
use zpoline_rs.Prelude.{
  ℕ, suc, ◌+◌, ◌%◌, ◌^◌, ◌≡◌, refl, sym, ap, ◌∙◌, true, false, List, Option-cases, inl, inr,
}
use zpoline_rs.HookApi.Regs.{SyscallRegs}
use zpoline_rs.HookApi.Program.{Program, done, raw_syscall, ◌>>=◌}
use zpoline_rs.HookApi.Process.{
  Kernel, HookFn, default_hook, custom, Process, Outcome, returned, exited, undefined, blocked,
  too_deep, bind, trap, exec,
}
use zpoline_rs.HookApi.Entry.{call_hook, hook_entry}
use zpoline_rs.HookApi.Entry.Nesting.{direct_entry, hook_once, hook_entry-hook_once}
use zpoline_rs.HookApi.Entry.Guard.{Keeps, Settles, hook_entry-Settles}
use zpoline_rs.HookApi.Threads.{
  Object, outside, running, leaving, Shared, Move, call_default, call_library, run, run_through,
}
use zpoline_rs.HookApi.Threads.Inside.{Inside, onward}
use zpoline_rs.HookApi.Threads.Alone.Running.{seen, Passes, exec-Inside, exec-same_object}

module _ {S K : Type 0} (kernel : Kernel K) where
  -- What `hook_entry` makes of the outcome of the program.
  abbrev reset : Outcome S K (ℕ × SyscallRegs) → Outcome S K (ℕ × SyscallRegs)
  reset x = bind x (λ r q. returned r (record q { in_hook = false }))

  record Ended (x : Outcome S K (ℕ × SyscallRegs)) (r : ℕ × SyscallRegs) (q : Process S K)
      : Type 0 where
    pub last : Process S K
    pub outcome_lem : x ≡ returned r last
    pub kernel_lem : last.kernel_state ≡ q.kernel_state
    pub object_lem : last.trait_object ≡ q.trait_object

  reset-Ended :
      (x : Outcome S K (ℕ × SyscallRegs)) (r : ℕ × SyscallRegs) (q : Process S K)
      → reset x ≡ returned r q
      → Ended x r q
  reset-Ended (returned w l) r q e =
      let same : record l { in_hook = false } ≡ q = cc in
      let value : w ≡ r = cc in
      record {
        last = l;
        outcome_lem = λ i. returned (value i) l;
        kernel_lem = ap (λ (x : Process S K). x.kernel_state) same;
        object_lem = ap (λ (x : Process S K). x.trait_object) same;
      }
  reset-Ended exited r q e = absurd (cc)
  reset-Ended undefined r q e = absurd (cc)
  reset-Ended blocked r q e = absurd (cc)
  reset-Ended too_deep r q e = absurd (cc)

  -- The process while the program runs.
  abbrev inside : Process S K → Process S K
  inside p = record p { in_hook = true; entry_count = (p.entry_count + 1) % 2 ^ 64 }

  -- What the hook function does, as a program.
  default_program :
      (regs : SyscallRegs) (p : Process S K)
      → call_hook kernel (direct_entry kernel) default_hook regs p
        ≡ exec kernel (direct_entry kernel) (raw_syscall regs >>= λ v. done (v, regs)) p
  unfolding call_hook exec trap
  default_program regs p = elim (Option-cases (kernel regs p.kernel_state)) [
    | inl e ↦ rw (e, trap)
    | inr ((v, k), e) ↦ rw (e, trap)
  ]

  library_program :
      (f : SyscallRegs → Program (ℕ × SyscallRegs)) (regs : SyscallRegs) (p : Process S K)
      → call_hook kernel (direct_entry kernel) (custom f) regs p
        ≡ exec kernel (direct_entry kernel) (f regs) p
  unfolding call_hook
  library_program f regs p = refl

  hook_once_lem :
      (hook : HookFn) (prog : Program (ℕ × SyscallRegs)) (regs : SyscallRegs) (p : Process S K)
      → p.hook_function ≡ hook
      → p.in_hook ≡ false
      → call_hook kernel (direct_entry kernel) hook regs (inside p)
        ≡ exec kernel (direct_entry kernel) prog (inside p)
      → hook_once kernel regs p ≡ reset (exec kernel (direct_entry kernel) prog (inside p))
  hook_once_lem hook prog regs p f o e =
      rw o
        (ap (λ h. reset (call_hook kernel (direct_entry kernel) h regs (inside p))) f ∙ ap reset e)

  library-Passes :
      (hook : HookFn) (prog : Program (ℕ × SyscallRegs)) (depth i : ℕ) (object : Object S)
      (calls : List SyscallRegs) (regs r : SyscallRegs) (p q : Process S K) (v : ℕ)
      → p.hook_function ≡ hook
      → call_hook kernel (direct_entry kernel) hook regs (inside p)
        ≡ exec kernel (direct_entry kernel) prog (inside p)
      → Move kernel i (seen p object calls) outside (seen p object calls) (running prog)
      → p.trait_locked ≡ false
      → p.in_hook ≡ false
      → hook_entry kernel (suc (suc depth)) regs p ≡ returned (v, r) q
      → Passes kernel i v (seen p object calls) (seen q object calls)
  library-Passes hook prog depth i object calls regs r p q v f w move l o e =
      let ended =
        reset-Ended (exec kernel (direct_entry kernel) prog (inside p)) (v, r) q
          (sym (hook_once_lem hook prog regs p f o w)
            ∙ sym (hook_entry-hook_once kernel depth regs p)
            ∙ e) in
      let m : Shared S K = seen p object calls in
      let settled : Keeps p q =
        subst (Settles p) e (hook_entry-Settles kernel depth regs p (inr l)) in
      let kept = exec-same_object kernel prog (inside p) ended.last (v, r) ended.outcome_lem in
      let same : record m { kernel_state = ended.last.kernel_state } ≡ seen q object calls = (λ j.
        record m {
          hook_function = sym settled.same_function j;
          object = (sym kept ∙ ended.object_lem) j;
          kernel_state = ended.kernel_lem j;
        }) in
      record {
        entry = running prog;
        enters = move;
        hooked = refl;
        through =
            subst (λ (x : Shared S K). Inside kernel i m (running prog) x (leaving v)) same
              (onward
                (exec-Inside kernel i running (λ n x y k. run) (λ x. refl) prog (inside p)
                  ended.last (v, r) m refl ended.outcome_lem)
                (run_through v r) refl);
      }

  pub default_hook-Passes :
      (depth i : ℕ) (object : Object S) (calls : List SyscallRegs) (regs r : SyscallRegs)
      (p q : Process S K) (v : ℕ)
      → p.hook_function ≡ default_hook
      → p.trait_locked ≡ false
      → p.in_hook ≡ false
      → hook_entry kernel (suc (suc depth)) regs p ≡ returned (v, r) q
      → Passes kernel i v (seen p object calls) (seen q object calls)
  default_hook-Passes depth i object calls regs r p q v f =
      library-Passes default_hook _ depth i object calls regs r p q v f
        (default_program regs (inside p)) (call_default regs f)

  pub custom-Passes :
      (hook : SyscallRegs → Program (ℕ × SyscallRegs)) (depth i : ℕ) (object : Object S)
      (calls : List SyscallRegs) (regs r : SyscallRegs) (p q : Process S K) (v : ℕ)
      → p.hook_function ≡ custom hook
      → p.trait_locked ≡ false
      → p.in_hook ≡ false
      → hook_entry kernel (suc (suc depth)) regs p ≡ returned (v, r) q
      → Passes kernel i v (seen p object calls) (seen q object calls)
  custom-Passes hook depth i object calls regs r p q v f =
      library-Passes (custom hook) (hook regs) depth i object calls regs r p q v f
        (library_program hook regs (inside p)) (call_library regs hook f)
