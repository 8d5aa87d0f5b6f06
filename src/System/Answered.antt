-- ===== src/System/Answered.antt =====
-- A rewritten instruction and what the `syscall` instruction in its place does to the registers and the
-- stack from rsp up.
use mathlib.Core.Path.{subst}
use zpoline_rs.Prelude.{
  ℕ, suc, ◌+◌, ◌-◌, ◌%◌, ◌^◌, ◌≤◌, ◌<◌, ◌≡◌, ◌≢◌, refl, sym, ap, ◌∙◌, Option, none, some, false,
  arith, Option-cases, inl, inr,
}
use zpoline_rs.Slice.{Slice}
use zpoline_rs.HookApi.Regs.{SyscallRegs}
use zpoline_rs.HookApi.Hooks.{default_hooks}
use zpoline_rs.HookApi.Process.{Kernel, default_hook, Process, returned, trap}
use zpoline_rs.HookApi.Entry.{register_syscall_hooks, with_regs, hook_entry, call_hook}
use zpoline_rs.HookApi.Entry.Nesting.{hook_once, hook_entry-hook_once}
use zpoline_rs.HookApi.Entry.Transparent.{FollowsAbi, hook_entry-default_hooks}
use zpoline_rs.Trampoline.Generate.{max_syscall_nr, trampoline_size}
use zpoline_rs.Trampoline.Listing.{IsTrampoline}
use zpoline_rs.Trampoline.Machine.{Machine, run}
use zpoline_rs.Trampoline.Call.{app_regs, FollowsConvention, down_lem}
use zpoline_rs.Trampoline.Run.{Resumes, placed-Resumes}
use zpoline_rs.System.Instruction.{call_rax, answered, syscall, result_of, SameToApplication}

-- After the way through the trampoline what is compared is as `syscall` would have left it.
Resumes-Same :
    (flags : ℕ) (m m' : Machine) (v : ℕ)
    → 80 ≤ m.rsp
    → m.rsp < 2 ^ 64
    → Resumes (v, app_regs m) (call_rax m) m'
    → SameToApplication m' (answered flags m v)
Resumes-Same flags m m' v room top r = record {
  rip_lem = r.rip_lem ∙ ground arith;
  rsp_lem = r.rsp_lem ∙ omega (arith, down_lem m.rsp 8 (omega arith) top);
  rax_lem = r.rax_lem;
  args_lem = cc (r.rdi_lem, r.rsi_lem, r.rdx_lem, r.r10_lem, r.r8_lem, r.r9_lem);
  saved_lem = r.saved;
  stack_lem = λ a h.
      r.above a (omega (arith, down_lem m.rsp 8 (omega arith) top))
      ∙ ground (arith, down_lem m.rsp 8 (omega arith) top);
}

syscall_lem :
    {K : Type 0} (kernel : Kernel K) (flags : ℕ) (k k' : K) (m n : Machine)
    → syscall kernel flags k m ≡ some (n, k')
    → (v : ℕ) × (kernel (app_regs m) k ≡ some (v, k')) × (answered flags m v ≡ n)
syscall_lem {K = K} kernel flags k k' m n e = given (kernel (app_regs m) k) refl
  where
    given :
        (x : Option (ℕ × K))
        → kernel (app_regs m) k ≡ x
        → (v : ℕ) × (kernel (app_regs m) k ≡ some (v, k')) × (answered flags m v ≡ n)
    given none f = absurd (cc)
    given (some (v, k2)) f = (v, cc, cc)

-- The machine and the process after the call, for the outcome of the instruction that was there.
pub record SameOutcome {S K : Type 0} (kernel : Kernel K) (callee : Machine → Machine) (addr : ℕ)
    (code : ℕ → ℕ) (depth : ℕ) (p : Process S K) (m n : Machine) (k : K) : Type 0 where
  pub end : Machine
  pub after : Process S K
  pub runs : run code addr callee (max_syscall_nr - m.rax_v + 21) (call_rax m) ≡ some end
  pub same : SameToApplication end n
  pub handled : hook_entry kernel depth (app_regs m) p ≡ returned (n.rax_v, app_regs m) after
  pub kernel_lem : after.kernel_state ≡ k

module _ {S K : Type 0} (kernel : Kernel K) (callee : Machine → Machine) (addr : ℕ) (mem : Slice)
    (far : trampoline_size ≤ addr) (t : IsTrampoline addr mem) (space : ℕ) where
  through :
      (depth : ℕ) (p : Process S K) (m : Machine) (flags v : ℕ)
      → FollowsConvention space (λ regs. result_of (hook_entry kernel depth regs p)) callee
      → result_of (hook_entry kernel depth (app_regs m) p) ≡ some (v, app_regs m)
      → m.rax_v < max_syscall_nr
      → m.rsp % 16 ≡ 8
      → space + 80 ≤ m.rsp
      → m.rsp < 2 ^ 64
      → (m' : Machine) × (run mem.byte addr callee (max_syscall_nr - m.rax_v + 21) (call_rax m)
          ≡ some m')
        × SameToApplication m' (answered flags m v)
  through depth p m flags v abi answer low aligned room top =
      let (m', e, r) =
        placed-Resumes space (λ regs. result_of (hook_entry kernel depth regs p)) callee addr mem
          (call_rax m) (v, app_regs m) abi answer far t low
          (omega (arith, down_lem m.rsp 8 (omega arith) top))
          (omega (arith, down_lem m.rsp 8 (omega arith) top))
          (omega (arith, down_lem m.rsp 8 (omega arith) top)) in
      (m', e, Resumes-Same flags m m' v (omega arith) top r)

  with_answer :
      (regs : SyscallRegs) (q : Process S K) (v : ℕ) (k : K)
      → kernel regs q.kernel_state ≡ some (v, k)
      → with_regs regs (trap kernel regs q) ≡ returned (v, regs) (record q { kernel_state = k })
  unfolding trap
  with_answer regs q v k e = rw (e, trap)

  hook_once-default_hook :
      (regs : SyscallRegs) (p : Process S K)
      → p.hook_function ≡ default_hook
      → p.in_hook ≡ false
      → hook_once kernel regs p
        ≡ with_regs regs (
            trap kernel regs
              (record p { entry_count = (p.entry_count + 1) % 2 ^ 64; in_hook = false }))
  unfolding call_hook trap
  hook_once-default_hook regs p f o =
      rw (o, f)
        (elim (Option-cases (kernel regs p.kernel_state)) [
          | inl e ↦ rw (e, trap)
          | inr ((v, k), e) ↦ rw (e, trap)
        ])

  passed_on-SameOutcome :
      (depth : ℕ) (p q : Process S K) (m n : Machine) (k : K) (flags : ℕ)
      → FollowsConvention space (λ regs. result_of (hook_entry kernel depth regs p)) callee
      → hook_entry kernel depth (app_regs m) p ≡ with_regs (app_regs m) (trap kernel (app_regs m) q)
      → p.kernel_state ≡ q.kernel_state
      → syscall kernel flags p.kernel_state m ≡ some (n, k)
      → m.rax_v < max_syscall_nr
      → m.rsp % 16 ≡ 8
      → space + 80 ≤ m.rsp
      → m.rsp < 2 ^ 64
      → SameOutcome kernel callee addr mem.byte depth p m n k
  unfolding trap
  passed_on-SameOutcome depth p q m n k flags abi passed same e low aligned room top =
      let (v, f, g) = syscall_lem kernel flags p.kernel_state k m n e in
      let back =
        passed ∙ with_answer (app_regs m) q v k (ap (kernel (app_regs m)) (sym same) ∙ f) in
      let (m', ran, here) =
        through depth p m flags v abi (ap result_of back) low aligned room top in
      record {
        end = m';
        after = record q { kernel_state = k };
        runs = ran;
        same = subst (SameToApplication m') g here;
        handled = back ∙ ap (λ t. returned (t.rax_v, app_regs m) (record q { kernel_state = k })) g;
        kernel_lem = refl;
      }

  -- The built-in hook is set and no hook runs. An application makes a system call with a number that the
  -- trampoline takes, at a place that was rewritten: the call through rax, down the sled and through
  -- `hook_entry`, comes to an end after a known number of steps, and rip, rsp, rax, the argument
  -- registers, the callee-saved ones and the words from rsp up are as the `syscall` instruction would
  -- have left them, with the kernel in the same state. Below rsp nothing is promised: the red zone of 128
  -- bytes that a leaf function may have there is written over. This is for a call that returns and whose
  -- answer depends on the seven registers alone (that of rt_sigreturn, clone and vfork does not), made
  -- with rsp 8 beyond a multiple of 16, with 80 bytes of stack and those that `hook_entry` needs, with the
  -- trampoline in place and `hook_entry` compiled to the calling convention, outside the trampoline.
  pub call_rax-default_hook :
      (depth : ℕ) (p : Process S K) (m n : Machine) (k : K) (flags : ℕ)
      → FollowsConvention space
          (λ regs. result_of (hook_entry kernel (suc (suc depth)) regs p))
          callee
      → p.hook_function ≡ default_hook
      → p.in_hook ≡ false
      → syscall kernel flags p.kernel_state m ≡ some (n, k)
      → m.rax_v < max_syscall_nr
      → m.rsp % 16 ≡ 8
      → space + 80 ≤ m.rsp
      → m.rsp < 2 ^ 64
      → SameOutcome kernel callee addr mem.byte (suc (suc depth)) p m n k
  call_rax-default_hook depth p m n k flags abi f o e low aligned room top =
      passed_on-SameOutcome (suc (suc depth)) p _ m n k flags abi
        (hook_entry-hook_once kernel depth (app_regs m) p
          ∙ hook_once-default_hook (app_regs m) p f o)
        refl e low aligned room top

  -- The trait's default methods are registered, the mutex is free and no hook runs. An application makes
  -- a system call other than brk, with a number that the trampoline takes, at a place that was rewritten:
  -- the call through rax, down the sled and through `hook_entry`, comes to an end after a known number of
  -- steps, and rip, rsp, rax, the argument registers, the callee-saved ones and the words from rsp up are
  -- as the `syscall` instruction would have left them, with the kernel, which follows its manual, in the
  -- same state. Below rsp nothing is promised. This is for a call that returns and whose answer depends
  -- on the seven registers alone (that of rt_sigreturn, clone and vfork does not), made with rsp 8 beyond
  -- a multiple of 16, with 80 bytes of stack and those that `hook_entry` needs, with the trampoline in
  -- place and `hook_entry` compiled to the calling convention, outside the trampoline.
  pub call_rax-default_hooks :
      (trusted : FollowsAbi kernel) (depth : ℕ) (s : S) (p q : Process S K) (m n : Machine) (k : K)
      (flags : ℕ)
      → FollowsConvention space
          (λ regs. result_of (hook_entry kernel (suc (suc depth)) regs q))
          callee
      → register_syscall_hooks default_hooks s p ≡ some q
      → p.in_hook ≡ false
      → p.trait_locked ≡ false
      → m.rax_v ≢ 12
      → syscall kernel flags q.kernel_state m ≡ some (n, k)
      → m.rax_v < max_syscall_nr
      → m.rsp % 16 ≡ 8
      → space + 80 ≤ m.rsp
      → m.rsp < 2 ^ 64
      → SameOutcome kernel callee addr mem.byte (suc (suc depth)) q m n k
  call_rax-default_hooks trusted depth s p q m n k flags abi g o l h e low aligned room top =
      passed_on-SameOutcome (suc (suc depth)) q _ m n k flags abi
        (hook_entry-default_hooks kernel trusted depth s (app_regs m) p q g o l h) refl e low
        aligned room top
