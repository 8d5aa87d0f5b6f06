-- ===== src/HookApi/Threads/Alone/Trait.antt =====
-- The moves of a thread by itself and `hook_entry` as that thread sees it, with the trait's hook set.
use mathlib.Core.Path.{subst}
use zpoline_rs.Prelude.{
  ℕ, suc, ◌+◌, ◌%◌, ◌^◌, ◌≡◌, refl, sym, ap, ◌∙◌, true, false, List, ◌∷◌, none, some, Option-cases,
  inl, inr,
}
use zpoline_rs.HookApi.Regs.{SyscallRegs}
use zpoline_rs.HookApi.Program.{done}
use zpoline_rs.HookApi.Dispatch.{dispatch_syscall_hooks}
use zpoline_rs.HookApi.Process.{
  Kernel, trait_based_hook, Process, Outcome, returned, exited, undefined, blocked, too_deep, bind,
  trap, exec,
}
use zpoline_rs.HookApi.Entry.{
  with_regs, call_trait_object, run_trait_based_hook, call_hook, hook_entry,
}
use zpoline_rs.HookApi.Entry.Sequence.{exec-bind}
use zpoline_rs.HookApi.Entry.Nesting.{direct_entry, hook_once, hook_entry-hook_once}
use zpoline_rs.HookApi.Entry.Guard.{Keeps, Settles, hook_entry-Settles}
use zpoline_rs.HookApi.Threads.{
  Object, under_lock, entered, holding, leaving, Shared, call, lock, make, unlock,
}
use zpoline_rs.HookApi.Threads.Inside.{Inside, here, onward, Inside-trans}
use zpoline_rs.HookApi.Threads.Alone.Running.{seen, Passes, exec-Inside}

module _ {S K : Type 0} (kernel : Kernel K) where
  abbrev put_back : ℕ × Object S → Process S K → Outcome S K ℕ
  put_back r q = returned r.0 (record q { trait_object = r.1; trait_locked = false })

  bind-bind :
      {A B C : Type 0} (x : Outcome S K A) (f : A → Process S K → Outcome S K B)
      (g : B → Process S K → Outcome S K C)
      → bind (bind x f) g ≡ bind x (λ a q. bind (f a q) g)
  bind-bind (returned a q) f g = refl
  bind-bind exited f g = refl
  bind-bind undefined f g = refl
  bind-bind blocked f g = refl
  bind-bind too_deep f g = refl

  call_trait_object_lem :
      (object : Object S) (regs : SyscallRegs) (p : Process S K)
      → p.trait_object ≡ object
      → call_trait_object kernel (direct_entry kernel) object regs p
        ≡ bind (exec kernel (direct_entry kernel) (under_lock object regs) p) put_back
  unfolding call_trait_object exec trap
  call_trait_object_lem none regs p e = elim (Option-cases (kernel regs p.kernel_state)) [
    | inl f ↦ rw (f, trap)
    | inr ((v, k), f) ↦
        rw (f, trap)
          (ap
            (λ o.
              returned v (record p { trait_object = o; trait_locked = false; kernel_state = k }))
            e)
  ]
  call_trait_object_lem (some (hooks, s)) regs p e =
      rw
        (exec-bind kernel {B = ℕ × Object S} (dispatch_syscall_hooks hooks s regs)
          (λ r. done (r.0, some (hooks, r.1))) p)
        (sym (
          bind-bind (exec kernel (direct_entry kernel) (dispatch_syscall_hooks hooks s regs) p) _
            put_back))

  -- What `hook_entry` makes of the outcome of the program.
  abbrev end_of : SyscallRegs → Outcome S K (ℕ × Object S) → Outcome S K (ℕ × SyscallRegs)
  end_of regs x =
      bind (with_regs regs (bind x put_back)) (λ r q. returned r (record q { in_hook = false }))

  record Ended (regs : SyscallRegs) (x : Outcome S K (ℕ × Object S)) (v : ℕ) (q : Process S K)
      : Type 0 where
    pub last : Process S K
    pub outcome_lem : x ≡ returned (v, q.trait_object) last
    pub kernel_lem : last.kernel_state ≡ q.kernel_state

  end_of-Ended :
      (regs r : SyscallRegs) (x : Outcome S K (ℕ × Object S)) (v : ℕ) (q : Process S K)
      → end_of regs x ≡ returned (v, r) q
      → Ended regs x v q
  end_of-Ended regs r (returned (w, o) l) v q e =
      let same : record l { trait_object = o; trait_locked = false; in_hook = false } ≡ q = cc in
      let value : w ≡ v = cc in
      record {
        last = l;
        outcome_lem = λ i. returned (value i, (same i).trait_object) l;
        kernel_lem = ap (λ (x : Process S K). x.kernel_state) same;
      }
  end_of-Ended regs r exited v q e = absurd (cc)
  end_of-Ended regs r undefined v q e = absurd (cc)
  end_of-Ended regs r blocked v q e = absurd (cc)
  end_of-Ended regs r too_deep v q e = absurd (cc)

  -- The process while the program runs.
  abbrev inside : Process S K → Process S K
  inside p = record p {
    hook_function = trait_based_hook;
    trait_poisoned = false;
    trait_locked = true;
    in_hook = true;
    entry_count = (p.entry_count + 1) % 2 ^ 64;
    trait_count = (p.trait_count + 1) % 2 ^ 64;
  }

  hook_once_lem :
      (regs : SyscallRegs) (p : Process S K)
      → p.hook_function ≡ trait_based_hook
      → p.trait_poisoned ≡ false
      → p.trait_locked ≡ false
      → p.in_hook ≡ false
      → hook_once kernel regs p
        ≡ end_of regs
            (exec kernel (direct_entry kernel) (under_lock p.trait_object regs) (inside p))
  unfolding call_hook run_trait_based_hook
  hook_once_lem regs p f c l o =
      rw (o, f, c, l)
        (ap (λ x. bind (with_regs regs x) (λ r q. returned r (record q { in_hook = false })))
          (call_trait_object_lem p.trait_object regs (inside p) refl))

  pub trait_hook-Passes :
      (depth i : ℕ) (object : Object S) (calls : List SyscallRegs) (regs r : SyscallRegs)
      (p q : Process S K) (v : ℕ)
      → p.hook_function ≡ trait_based_hook
      → p.trait_poisoned ≡ false
      → p.trait_locked ≡ false
      → p.in_hook ≡ false
      → hook_entry kernel (suc (suc depth)) regs p ≡ returned (v, r) q
      → Passes kernel i v (seen p object calls) (seen q object (regs ∷ calls))
  trait_hook-Passes depth i object calls regs r p q v f c l o e =
      let ended =
        end_of-Ended regs r _ v q (
          sym (hook_once_lem regs p f c l o)
          ∙ sym (hook_entry-hook_once kernel depth regs p)
          ∙ e) in
      let m = record (seen p object calls) { owner = some i } in
      let through =
        exec-Inside kernel i (holding regs) (λ n x y k. make) (λ x. refl)
          (under_lock p.trait_object regs) (inside p) ended.last (v, q.trait_object) m refl
          ended.outcome_lem in
      let settled : Keeps p q =
        subst (Settles p) e (hook_entry-Settles kernel depth regs p (inr l)) in
      let after : Shared S K = seen q object (regs ∷ calls) in
      let same : record after {
        hook_function = p.hook_function;
        kernel_state = ended.last.kernel_state;
      }
          ≡ after =
        (λ j. record after {
          hook_function = sym settled.same_function j;
          kernel_state = ended.kernel_lem j;
        }) in
      record {
        entry = entered regs;
        enters = call regs f;
        hooked = refl;
        through =
            subst
              (λ (x : Shared S K).
                Inside kernel i (seen p object calls) (entered regs) x (leaving v))
              same
              (onward (Inside-trans (onward here (lock regs refl) refl) through)
                (unlock v q.trait_object) refl);
      }
