-- ===== src/HookApi/Threads.antt =====
-- `hook_entry`, the hook functions and their registration, of zpoline_hook_api/src/lib.rs, in a process
-- of many threads: what the threads do to HOOK_FUNCTION and the mutex of HOOK_TRAIT_OBJECT, step by step,
-- in every order. The guard IN_HOOK is each thread's own. The mutex is never poisoned: no hook panics.
pub mod Holder
pub mod Ended
pub mod Inside
pub mod Finish
pub mod Waiting
pub mod Alone
mod Tests
use mathlib.Core.Path.{subst, fun_ext}
use zpoline_rs.Prelude.{
  ℕ, arith, sym, ◌≡◌, Bool, true, false, List, [], ◌∷◌, Option, none, some, ◌==◌, if◌then◌else◌,
}
use zpoline_rs.HookApi.Regs.{SyscallRegs}
use zpoline_rs.HookApi.Program.{Program, done, raw_call, libc_call, unreachable, raw_syscall, ◌>>=◌}
use zpoline_rs.HookApi.Hooks.{SyscallHooks}
use zpoline_rs.HookApi.Dispatch.{dispatch_syscall_hooks}
use zpoline_rs.HookApi.Process.{Kernel, HookFn, default_hook, trait_based_hook, custom}

-- What the mutex guards.
abbrev pub Object : Type 0 → Type 0
Object S = Option (SyscallHooks S × S)

-- The body of `trait_based_hook` under the lock: the result, and what the mutex then guards.
abbrev pub under_lock : {S : Type 0} → Object S → SyscallRegs → Program (ℕ × Object S)
under_lock none regs = raw_syscall regs >>= λ v. done (v, none)
under_lock (some (hooks, s)) regs =
    dispatch_syscall_hooks hooks s regs >>= λ r. done (r.0, some (hooks, r.1))

-- Where a thread is: in the application; in `trait_based_hook`, before `lock()` has given the guard;
-- with the guard, at what is left of the program; in another hook function, at what is left of it; past
-- the hook, before IN_HOOK is reset; in `register_syscall_hooks`, past the drop of the guard.
-- `ended` is a thread whose system call does not return, made while it held the guard, and `gone` is one
-- that did not hold it.
pub data Thread (S : Type 0) : Type 0 where
  outside : Thread S
  entered : SyscallRegs → Thread S
  holding : SyscallRegs → Program (ℕ × Object S) → Thread S
  running : Program (ℕ × SyscallRegs) → Thread S
  leaving : ℕ → Thread S
  registering : Thread S
  ended : Thread S
  gone : Thread S

-- IN_HOOK of a thread.
abbrev pub in_hook : {S : Type 0} → Thread S → Bool
in_hook outside = false
in_hook registering = false
in_hook _ = true

-- What the threads share: HOOK_FUNCTION, the object, the thread that has the mutex, and the kernel's
-- state. For the record, `registered` is the object as it was registered last, and `calls` has, the last
-- first, the calls since then that the object is through with.
pub record Shared (S K : Type 0) : Type 0 where
  pub hook_function : HookFn
  pub object : Object S
  pub owner : Option ℕ
  pub kernel_state : K
  pub registered : Object S
  pub calls : List SyscallRegs

-- The next system call of a program returns. With IN_HOOK set, a call that comes back to `hook_entry`
-- goes to the kernel, like one that does not come back.
pub data Advances {K A : Type 0} (kernel : Kernel K) (k : K)
    : Program A → K → Program A → Type 0 where
  raw_answered :
      {r : SyscallRegs} {next : ℕ → Program A} (v : ℕ) (k' : K)
      → kernel r k ≡ some (v, k')
      → Advances kernel k (raw_call r next) k' (next v)
  libc_answered :
      {r : SyscallRegs} {next : ℕ → Program A} (v : ℕ) (k' : K)
      → kernel r k ≡ some (v, k')
      → Advances kernel k (libc_call r next) k' (next v)

-- It does not return.
pub data Stops {K A : Type 0} (kernel : Kernel K) (k : K) : Program A → Type 0 where
  raw_stops :
      {r : SyscallRegs} {next : ℕ → Program A}
      → kernel r k ≡ none
      → Stops kernel k (raw_call r next)
  libc_stops :
      {r : SyscallRegs} {next : ℕ → Program A}
      → kernel r k ≡ none
      → Stops kernel k (libc_call r next)

-- One step of the thread `i`. A thread of the application can register another object: the take of the
-- mutex, the assignment and the drop are one step, for an allocator that makes no system call in
-- between, and `__hook_init(trait_based_hook)` is another. It can set any hook function.
pub data Move {S K : Type 0} (kernel : Kernel K) (i : ℕ) (m : Shared S K)
    : Thread S → Shared S K → Thread S → Type 0 where
  call :
      (regs : SyscallRegs)
      → m.hook_function ≡ trait_based_hook
      → Move kernel i m outside m (entered regs)
  call_default :
      (regs : SyscallRegs)
      → m.hook_function ≡ default_hook
      → Move kernel i m outside m (running (raw_syscall regs >>= λ v. done (v, regs)))
  call_library :
      (regs : SyscallRegs) (f : SyscallRegs → Program (ℕ × SyscallRegs))
      → m.hook_function ≡ custom f
      → Move kernel i m outside m (running (f regs))
  lock :
      (regs : SyscallRegs)
      → m.owner ≡ none
      → Move kernel i m
          (entered regs)
          (record m { owner = some i })
          (holding regs (under_lock m.object regs))
  make :
      {regs : SyscallRegs} {p q : Program (ℕ × Object S)} {k : K}
      → Advances kernel m.kernel_state p k q
      → Move kernel i m (holding regs p) (record m { kernel_state = k }) (holding regs q)
  end_inside :
      {regs : SyscallRegs} {p : Program (ℕ × Object S)}
      → Stops kernel m.kernel_state p
      → Move kernel i m (holding regs p) m ended
  unlock :
      {regs : SyscallRegs} (v : ℕ) (object : Object S)
      → Move kernel i m
          (holding regs (done (v, object)))
          (record m { object = object; owner = none; calls = regs ∷ m.calls })
          (leaving v)
  run :
      {p q : Program (ℕ × SyscallRegs)} {k : K}
      → Advances kernel m.kernel_state p k q
      → Move kernel i m (running p) (record m { kernel_state = k }) (running q)
  stop :
      {p : Program (ℕ × SyscallRegs)}
      → Stops kernel m.kernel_state p
      → Move kernel i m (running p) m gone
  run_through :
      (v : ℕ) (regs : SyscallRegs) → Move kernel i m (running (done (v, regs))) m (leaving v)
  leave : {v : ℕ} → Move kernel i m (leaving v) m outside
  register :
      (hooks : SyscallHooks S) (s : S)
      → m.owner ≡ none
      → Move kernel i m outside
          (record m { object = some (hooks, s); registered = some (hooks, s); calls = [] })
          registering
  set_trait_hook :
      Move kernel i m registering (record m { hook_function = trait_based_hook }) outside
  set_hook : (f : HookFn) → Move kernel i m outside (record m { hook_function = f }) outside

-- The threads, by number.
pub record System (S K : Type 0) : Type 0 where
  pub shared : Shared S K
  pub threads : ℕ → Thread S

abbrev pub place : {S : Type 0} → (ℕ → Thread S) → ℕ → Thread S → ℕ → Thread S
place ts i t j = if j == i then t else ts j

pub data Step {S K : Type 0} (kernel : Kernel K) (s : System S K) : System S K → Type 0 where
  pick :
      (i : ℕ) {m : Shared S K} {t : Thread S}
      → Move kernel i s.shared (s.threads i) m t
      → Step kernel s (record { shared = m; threads = place s.threads i t })

pub data Steps {S K : Type 0} (kernel : Kernel K) (s : System S K) : System S K → Type 0 where
  stay : Steps kernel s s
  later : {t u : System S K} → Steps kernel s t → Step kernel t u → Steps kernel s u

-- All threads are outside, and the mutex is free.
abbrev pub at_rest : {S K : Type 0} → HookFn → Object S → K → System S K
at_rest f object k = record {
  shared = record {
    hook_function = f;
    object = object;
    owner = none;
    kernel_state = k;
    registered = object;
    calls = [];
  };
  threads = λ i. outside;
}

pub Steps-trans :
    {S K : Type 0} {kernel : Kernel K} {s t u : System S K}
    → Steps kernel s t
    → Steps kernel t u
    → Steps kernel s u
Steps-trans a stay = a
Steps-trans a (later b c) = later (Steps-trans a b) c

pub place_here : {S : Type 0} (ts : ℕ → Thread S) (i : ℕ) (t : Thread S) → place ts i t i ≡ t
place_here ts i t = ground arith

pub place_place :
    {S : Type 0} (ts : ℕ → Thread S) (i : ℕ) (t u : Thread S)
    → place (place ts i t) i u ≡ place ts i u
place_place ts i t u = fun_ext (λ j. ground arith)

-- A step of a thread of which it is known where it is.
pub pick_at :
    {S K : Type 0} {kernel : Kernel K} {s : System S K} {m : Shared S K} {x t : Thread S} (i : ℕ)
    → s.threads i ≡ x
    → Move kernel i s.shared x m t
    → Step kernel s (record { shared = m; threads = place s.threads i t })
pick_at {kernel = kernel} {s = s} {m = m} {t = t} i e move =
    pick i (subst (λ y. Move kernel i s.shared y m t) (sym e) move)
