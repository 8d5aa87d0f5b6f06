-- ===== src/HookApi/Entry/Guard.antt =====
-- What a call of `hook_entry` leaves as it was: the guard, the registered hook, and the mutex.
use zpoline_rs.Prelude.{
  ℕ, suc, ◌+◌, ◌%◌, ◌^◌, ◌≡◌, refl, sym, ◌∙◌, ◌⊎◌, Bool, true, false, Option, none, some, arith,
  if◌then◌else◌,
}
use zpoline_rs.HookApi.Regs.{SyscallRegs}
use zpoline_rs.HookApi.Program.{Program, done, raw_call, libc_call, unreachable}
use zpoline_rs.HookApi.Hooks.{SyscallHooks}
use zpoline_rs.HookApi.Dispatch.{dispatch_syscall_hooks}
use zpoline_rs.HookApi.Process.{
  Kernel, HookFn, default_hook, trait_based_hook, custom, Process, Outcome, returned, exited,
  undefined, blocked, too_deep, bind, trap, exec,
}
use zpoline_rs.HookApi.Entry.{call_trait_object, run_trait_based_hook, call_hook, hook_entry}
use zpoline_rs.HookApi.Entry.Nesting.{direct_entry, hook_entry-hook_once}

-- The two states agree on the guard, the hook function, and the mutex.
pub record Keeps {S K : Type 0} (p q : Process S K) : Type 0 where
  pub same_guard : q.in_hook ≡ p.in_hook
  pub same_function : q.hook_function ≡ p.hook_function
  pub same_lock : q.trait_locked ≡ p.trait_locked
  pub same_poison : q.trait_poisoned ≡ p.trait_poisoned

-- The call does not wait for a mutex that its own thread holds, and if it returns the state is kept.
abbrev pub Settles : {S K A : Type 0} → Process S K → Outcome S K A → Type 0
Settles p (returned a q) = Keeps p q
Settles p exited = Unit
Settles p undefined = Unit
Settles p blocked = ⊥
Settles p too_deep = ⊥

module _ {S K : Type 0} where
  Keeps-trans : {p q r : Process S K} → Keeps p q → Keeps q r → Keeps p r
  Keeps-trans h k = record {
    same_guard = k.same_guard ∙ h.same_guard;
    same_function = k.same_function ∙ h.same_function;
    same_lock = k.same_lock ∙ h.same_lock;
    same_poison = k.same_poison ∙ h.same_poison;
  }

  Settles-trans :
      {A : Type 0} {p q : Process S K} (o : Outcome S K A) → Keeps p q → Settles q o → Settles p o
  Settles-trans (returned a r) h k = Keeps-trans h k
  Settles-trans exited h k = tt
  Settles-trans undefined h k = tt
  Settles-trans blocked h k = k
  Settles-trans too_deep h k = k

  Settles-bind :
      {A B : Type 0} (p p' : Process S K) (o : Outcome S K A) (f : A → Process S K → Outcome S K B)
      → Settles p' o
      → ((a : A) (q : Process S K) → Keeps p' q → Settles p (f a q))
      → Settles p (bind o f)
  Settles-bind p p' (returned a q) f h k = k a q h
  Settles-bind p p' exited f h k = tt
  Settles-bind p p' undefined f h k = tt
  Settles-bind p p' blocked f h k = h
  Settles-bind p p' too_deep f h k = h

  if-Settles :
      {A : Type 0} (p : Process S K) (x y : Outcome S K A) (b : Bool)
      → (b ≡ true → Settles p x)
      → (b ≡ false → Settles p y)
      → Settles p (if b then x else y)
  if-Settles p x y true h k = h refl
  if-Settles p x y false h k = k refl

  guard_down :
      {n : ℕ} {p : Process S K} (q : Process S K)
      → Keeps (record p { entry_count = n; in_hook = true }) q
      → p.in_hook ≡ false
      → Keeps p (record q { in_hook = false })
  guard_down q k h = record {
    same_guard = sym h;
    same_function = k.same_function;
    same_lock = k.same_lock;
    same_poison = k.same_poison;
  }

  -- What holds under the lock holds of the state before it, once it is released.
  unlocked :
      {p : Process S K} (o : Option (SyscallHooks S × S)) (q : Process S K)
      → Keeps (record p { trait_locked = true }) q
      → p.trait_locked ≡ false
      → Keeps p (record q { trait_object = o; trait_locked = false })
  unlocked o q k h = record {
    same_guard = k.same_guard;
    same_function = k.same_function;
    same_lock = sym h;
    same_poison = k.same_poison;
  }

module _ {S K : Type 0} (kernel : Kernel K) where
  trap-Settles : (regs : SyscallRegs) (p : Process S K) → Settles p (trap kernel regs p)
  unfolding trap
  trap-Settles regs p = ground arith

  direct_entry-Settles :
      (regs : SyscallRegs) (p : Process S K) → Settles p (direct_entry kernel regs p)
  unfolding trap
  direct_entry-Settles regs p = ground arith

  exec-Settles :
      {A : Type 0} (prog : Program A) (p : Process S K)
      → Settles p (exec kernel (direct_entry kernel) prog p)
  unfolding exec
  exec-Settles (done a) p = record {
    same_guard = refl;
    same_function = refl;
    same_lock = refl;
    same_poison = refl;
  }
  exec-Settles (raw_call r next) p =
      Settles-bind p p (trap kernel r p) _ (trap-Settles r p)
        (λ v q h. Settles-trans _ h (exec-Settles (next v) q))
  exec-Settles (libc_call r next) p =
      Settles-bind p p (direct_entry kernel r p) _ (direct_entry-Settles r p)
        (λ v q h. Settles-trans _ h (exec-Settles (next v.0) q))
  exec-Settles unreachable p = tt

  call_trait_object-Settles :
      (o : Option (SyscallHooks S × S)) (regs : SyscallRegs) (p : Process S K)
      → p.trait_locked ≡ false
      → Settles p
          (call_trait_object kernel (direct_entry kernel) o regs (record p { trait_locked = true }))
  unfolding call_trait_object
  call_trait_object-Settles none regs p h =
      Settles-bind p (record p { trait_locked = true }) _ _ (trap-Settles regs _)
        (λ v q k. unlocked q.trait_object q k h)
  call_trait_object-Settles (some (hooks, s)) regs p h =
      Settles-bind p (record p { trait_locked = true }) _ _
        (exec-Settles (dispatch_syscall_hooks hooks s regs) _)
        (λ r q k. unlocked (some (hooks, r.1)) q k h)

  run_trait_based_hook-Settles :
      (regs : SyscallRegs) (p : Process S K)
      → p.trait_locked ≡ false
      → Settles p (run_trait_based_hook kernel (direct_entry kernel) regs p)
  unfolding run_trait_based_hook
  run_trait_based_hook-Settles regs p h =
      let counted = record p { trait_count = (p.trait_count + 1) % 2 ^ 64 } in
      let same : Keeps p counted = ground arith in
      if-Settles p _ _ p.trait_locked (λ l. cc)
        (λ l.
          if-Settles p _ _ p.trait_poisoned (λ e. Settles-trans _ same (trap-Settles regs counted))
            (λ e. Settles-trans _ same (call_trait_object-Settles p.trait_object regs counted h)))

  call_hook-Settles :
      (f : HookFn) (regs : SyscallRegs) (p : Process S K)
      → p.trait_locked ≡ false
      → Settles p (call_hook kernel (direct_entry kernel) f regs p)
  unfolding call_hook
  call_hook-Settles default_hook regs p h = Settles-bind p p _ _ (trap-Settles regs p) (λ v q k. k)
  call_hook-Settles trait_based_hook regs p h =
      Settles-bind p p _ _ (run_trait_based_hook-Settles regs p h) (λ v q k. k)
  call_hook-Settles (custom f) regs p h = exec-Settles (f regs) p

  -- A call of `hook_entry`, on any state where the thread is in a hook or does not hold the mutex of
  -- the trait object, never waits for that mutex itself and never runs out of fuel; where it returns,
  -- the guard has the value it had before, and the hook function and the mutex are as they were.
  pub hook_entry-Settles :
      (depth : ℕ) (regs : SyscallRegs) (p : Process S K)
      → (p.in_hook ≡ true) ⊎ (p.trait_locked ≡ false)
      → Settles p (hook_entry kernel (suc (suc depth)) regs p)
  hook_entry-Settles depth regs p free = rw (hook_entry-hook_once kernel depth regs p) (
      if-Settles p _ _ p.in_hook (λ e. direct_entry-Settles regs p)
        (λ e.
          Settles-bind p (record p { entry_count = (p.entry_count + 1) % 2 ^ 64; in_hook = true }) _
            _ (call_hook-Settles p.hook_function regs _ (ground arith))
            (λ r q k. guard_down q k e)))
