-- ===== src/HookApi/Threads/Ended.antt =====
-- A thread that ends inside its hook keeps the mutex.
use mathlib.Core.Path.{subst}
use zpoline_rs.Prelude.{ℕ, low_32, sign_extend, ◌≡◌, ◌≢◌, refl, ap, ◌∙◌, none, some, arith}
use zpoline_rs.HookApi.Regs.{SyscallRegs, new}
use zpoline_rs.HookApi.Program.{raw_call, unreachable}
use zpoline_rs.HookApi.Defaults.{default_exit}
use zpoline_rs.HookApi.Hooks.{SyscallHooks}
use zpoline_rs.HookApi.Dispatch.{dispatch_syscall_hooks}
use zpoline_rs.HookApi.Process.{Kernel}
use zpoline_rs.HookApi.Threads.{
  Thread, entered, holding, ended, under_lock, Shared, Move, call, call_default, call_library, lock,
  make, end_inside, unlock, run, stop, run_through, leave, register, set_trait_hook, set_hook,
  raw_stops, System, place, pick, Steps, stay, later, place_here, place_place, pick_at,
}
use zpoline_rs.HookApi.Threads.Holder.{holds, owned_by, Guarded, Steps-Guarded}

abbrev exit_regs : SyscallRegs → SyscallRegs
exit_regs regs = new 60 (sign_extend (low_32 regs.rdi)) 0 0 0 0 0

-- What the object's program for exit is, where the object leaves `hook_exit` as it is.
exit_called :
    {S : Type 0} (hooks : SyscallHooks S) (st : S) (regs : SyscallRegs)
    → ((status : ℕ) → hooks.hook_exit st status ≡ default_exit status)
    → regs.rax ≡ 60
    → under_lock (some (hooks, st)) regs ≡ raw_call (exit_regs regs) (λ v. unreachable)
unfolding dispatch_syscall_hooks default_exit
exit_called hooks st regs d h = rw (h, d (low_32 regs.rdi))

-- The thread `i` is gone with the mutex.
abbrev Gone : {S K : Type 0} → ℕ → System S K → Type 0
Gone i s = (s.threads i ≡ ended) × (s.shared.owner ≡ some i)

-- The state after the thread `i` has taken the mutex and ended.
abbrev pub gone_with : {S K : Type 0} → ℕ → System S K → System S K
gone_with i s = record {
  shared = record s.shared { owner = some i };
  threads = place s.threads i ended;
}

module _ {S K : Type 0} {kernel : Kernel K} where
  Move-Gone :
      (i n j : ℕ) (w : SyscallRegs) (m : Shared S K) (x : Thread S) (m' : Shared S K) (t : Thread S)
      (ts : ℕ → Thread S)
      → Move kernel n m x m' t
      → x ≡ ts n
      → holds (ts n) ≡ owned_by m.owner n
      → ts i ≡ ended
      → m.owner ≡ some i
      → (place ts n t i ≡ ended)
        × (m'.owner ≡ some i)
        × (ts j ≡ entered w → place ts n t j ≡ entered w)
  Move-Gone i n j w m _ _ _ ts (call regs f) e h k o = ground arith
  Move-Gone i n j w m _ _ _ ts (call_default regs f) e h k o = ground arith
  Move-Gone i n j w m _ _ _ ts (call_library regs g f) e h k o = ground arith
  Move-Gone i n j w m _ _ _ ts (lock regs f) e h k o = ground arith
  Move-Gone i n j w m _ _ _ ts (make a) e h k o = ground arith
  Move-Gone i n j w m _ _ _ ts (end_inside a) e h k o = ground arith
  Move-Gone i n j w m _ _ _ ts (unlock v o') e h k o = ground arith
  Move-Gone i n j w m _ _ _ ts (run a) e h k o = ground arith
  Move-Gone i n j w m _ _ _ ts (stop a) e h k o = ground arith
  Move-Gone i n j w m _ _ _ ts (run_through v regs) e h k o = ground arith
  Move-Gone i n j w m _ _ _ ts leave e h k o = ground arith
  Move-Gone i n j w m _ _ _ ts (register hooks s f) e h k o = ground arith
  Move-Gone i n j w m _ _ _ ts set_trait_hook e h k o = ground arith
  Move-Gone i n j w m _ _ _ ts (set_hook f) e h k o = ground arith

  Steps-Gone :
      (i j : ℕ) (w : SyscallRegs) {s t : System S K}
      → Guarded s
      → Gone i s
      → Steps kernel s t
      → Gone i t × (s.threads j ≡ entered w → t.threads j ≡ entered w)
  Steps-Gone i j w g h stay = (h, (λ e. e))
  Steps-Gone i j w g h (later {t} steps (pick n {m} {t = x} move)) =
      let (k, waits) = Steps-Gone i j w g h steps in
      let (a, b, c) =
        Move-Gone i n j w t.shared (t.threads n) m x t.threads move refl (Steps-Guarded g steps n)
          k.0 k.1 in
      ((a, b), (λ e. c (waits e)))

  Steps-gone_with :
      (hooks : SyscallHooks S) (st : S) (i : ℕ) (regs : SyscallRegs) (s : System S K)
      → ((status : ℕ) → hooks.hook_exit st status ≡ default_exit status)
      → ((r : SyscallRegs) (k : K) → r.rax ≡ 60 → kernel r k ≡ none)
      → s.shared.owner ≡ none
      → s.shared.object ≡ some (hooks, st)
      → s.threads i ≡ entered regs
      → regs.rax ≡ 60
      → Steps kernel s (gone_with i s)
  Steps-gone_with hooks st i regs s d k f o e h =
      let m = record s.shared { owner = some i } in
      let program = under_lock s.shared.object regs in
      let taken : Steps kernel s
          (record { shared = m; threads = place s.threads i (holding regs program) }) =
        later stay (pick_at i e (lock regs f)) in
      let exits : program ≡ raw_call (exit_regs regs) (λ v. unreachable) =
        ap (λ x. under_lock x regs) o ∙ exit_called hooks st regs d h in
      subst (λ ts. Steps kernel s (record { shared = m; threads = ts }))
        (place_place s.threads i (holding regs program) ended)
        (later taken (
          pick_at i (place_here s.threads i (holding regs program) ∙ ap (holding regs) exits)
            (end_inside (raw_stops (k (exit_regs regs) s.shared.kernel_state refl)))))

  -- The mutex is free, the registered object leaves `hook_exit` as it is, and a thread has called exit,
  -- which ends a thread and does not return: the thread may take the mutex, and ends with it. From
  -- there on, whatever steps are made, it keeps the mutex, and every other thread that waits for it in
  -- `trait_based_hook` stays there.
  pub exit-blocks :
      (hooks : SyscallHooks S) (st : S) (i j : ℕ) (regs w : SyscallRegs) (s u : System S K)
      → ((status : ℕ) → hooks.hook_exit st status ≡ default_exit status)
      → ((r : SyscallRegs) (k : K) → r.rax ≡ 60 → kernel r k ≡ none)
      → Guarded s
      → s.shared.owner ≡ none
      → s.shared.object ≡ some (hooks, st)
      → s.threads i ≡ entered regs
      → regs.rax ≡ 60
      → j ≢ i
      → s.threads j ≡ entered w
      → Steps kernel (gone_with i s) u
      → Steps kernel s (gone_with i s) × (u.shared.owner ≡ some i) × (u.threads j ≡ entered w)
  exit-blocks hooks st i j regs w s u d k g f o e h apart waits steps =
      let there = Steps-gone_with hooks st i regs s d k f o e h in
      let (stays, kept) =
        Steps-Gone i j w (Steps-Guarded g there) (place_here s.threads i ended, refl) steps in
      (there, stays.1, kept (ground (arith, waits)))
