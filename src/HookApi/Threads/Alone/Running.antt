-- ===== src/HookApi/Threads/Alone/Running.antt =====
-- A thread by itself, whose hook's system calls are made.
use mathlib.Core.Path.{subst}
use zpoline_rs.Prelude.{
  ℕ, ◌+◌, ◌%◌, ◌^◌, ◌≡◌, refl, sym, ap, ◌∙◌, List, true, none, Option-cases, inl, inr,
}
use zpoline_rs.HookApi.Regs.{SyscallRegs}
use zpoline_rs.HookApi.Program.{Program, done, raw_call, libc_call, unreachable}
use zpoline_rs.HookApi.Process.{Kernel, Process, returned, exited, trap, exec}
use zpoline_rs.HookApi.Entry.Nesting.{direct_entry}
use zpoline_rs.HookApi.Threads.{
  Object, Thread, outside, leaving, in_hook, Shared, Advances, raw_answered, libc_answered, Move,
  leave, Steps, Steps-trans,
}
use zpoline_rs.HookApi.Threads.Inside.{
  Inside, here, onward, Inside-trans, at, step_on, Inside-Steps,
}

-- What the threads share, for what one thread sees.
abbrev pub seen : {S K : Type 0} → Process S K → Object S → List SyscallRegs → Shared S K
seen p registered calls = record {
  hook_function = p.hook_function;
  object = p.trait_object;
  owner = none;
  kernel_state = p.kernel_state;
  registered = registered;
  calls = calls;
}

-- The thread `i` comes out of the application into a hook, and through it, by moves of its own, to the
-- result.
pub record Passes {S K : Type 0} (kernel : Kernel K) (i v : ℕ) (m m' : Shared S K) : Type 0 where
  pub entry : Thread S
  pub enters : Move kernel i m outside m entry
  pub hooked : in_hook entry ≡ true
  pub through : Inside kernel i m entry m' (leaving v)

-- Then it leaves the hook, and all of it are steps of the threads.
pub Passes-Steps :
    {S K : Type 0} {kernel : Kernel K} {i v : ℕ} {m m' : Shared S K} (ts : ℕ → Thread S)
    → Passes kernel i v m m'
    → Steps kernel (at i ts m outside) (at i ts m' outside)
Passes-Steps {kernel = kernel} {i = i} ts a =
    Steps-trans
      (Steps-trans (step_on kernel i ts _ _ _ _ a.enters) (Inside-Steps kernel i ts a.through))
      (step_on kernel i ts _ _ _ _ leave)

module _ {S K A : Type 0} (kernel : Kernel K) where
  not_exited : (r : A) (q : Process S K) → exited ≡ returned r q → ⊥
  not_exited r q e = cc

  -- The program's calls are moves of the thread, whose place is `frame` of what is left of it.
  pub exec-Inside :
      (i : ℕ) (frame : Program A → Thread S)
      (moves : (m : Shared S K) (x y : Program A) (k : K)
        → Advances kernel m.kernel_state x k y
        → Move kernel i m (frame x) (record m { kernel_state = k }) (frame y))
      (hooked : (x : Program A) → in_hook (frame x) ≡ true) (prog : Program A) (p q : Process S K)
      (r : A) (m : Shared S K)
      → p.kernel_state ≡ m.kernel_state
      → exec kernel (direct_entry kernel) prog p ≡ returned r q
      → Inside kernel i m (frame prog) (record m { kernel_state = q.kernel_state }) (frame (done r))
  unfolding exec trap
  exec-Inside i frame moves hooked (done a) p q r m h e =
      let same : p ≡ q = cc in
      let value : a ≡ r = cc in
      let kernels : m.kernel_state ≡ q.kernel_state =
        sym h ∙ ap (λ (x : Process S K). x.kernel_state) same in
      subst (λ (x : Shared S K × A). Inside kernel i m (frame (done a)) x.0 (frame (done x.1)))
        (λ j. (record m { kernel_state = kernels j }, value j)) here
  exec-Inside i frame moves hooked unreachable p q r m h e = absurd (cc)
  exec-Inside i frame moves hooked (raw_call c next) p q r m h e =
      elim (Option-cases (kernel c p.kernel_state)) [
        | inl f ↦ absurd (not_exited r q (sym (rw (f, trap)) ∙ e))
        | inr ((v, k), f) ↦
            Inside-trans
              (onward here (moves m _ _ k (raw_answered v k (ap (kernel c) (sym h) ∙ f)))
                (hooked (next v)))
              (exec-Inside i frame moves hooked (next v) (record p { kernel_state = k }) q r
                (record m { kernel_state = k }) refl (sym (rw (f, trap)) ∙ e))
      ]
  exec-Inside i frame moves hooked (libc_call c next) p q r m h e =
      elim (Option-cases (kernel c p.kernel_state)) [
        | inl f ↦ absurd (not_exited r q (sym (rw (f, trap)) ∙ e))
        | inr ((v, k), f) ↦
            Inside-trans
              (onward here (moves m _ _ k (libc_answered v k (ap (kernel c) (sym h) ∙ f)))
                (hooked (next v)))
              (exec-Inside i frame moves hooked (next v)
                (record p { entry_count = (p.entry_count + 1) % 2 ^ 64; kernel_state = k }) q r
                (record m { kernel_state = k }) refl (sym (rw (f, trap)) ∙ e))
      ]

  -- They leave the trait object alone.
  pub exec-same_object :
      (prog : Program A) (p q : Process S K) (r : A)
      → exec kernel (direct_entry kernel) prog p ≡ returned r q
      → q.trait_object ≡ p.trait_object
  unfolding exec trap
  exec-same_object (done a) p q r e = cc
  exec-same_object unreachable p q r e = absurd (cc)
  exec-same_object (raw_call c next) p q r e = elim (Option-cases (kernel c p.kernel_state)) [
    | inl f ↦ absurd (not_exited r q (sym (rw (f, trap)) ∙ e))
    | inr ((v, k), f) ↦
        exec-same_object (next v) (record p { kernel_state = k }) q r (sym (rw (f, trap)) ∙ e)
  ]
  exec-same_object (libc_call c next) p q r e = elim (Option-cases (kernel c p.kernel_state)) [
    | inl f ↦ absurd (not_exited r q (sym (rw (f, trap)) ∙ e))
    | inr ((v, k), f) ↦
        exec-same_object (next v)
          (record p { entry_count = (p.entry_count + 1) % 2 ^ 64; kernel_state = k }) q r
          (sym (rw (f, trap)) ∙ e)
  ]
