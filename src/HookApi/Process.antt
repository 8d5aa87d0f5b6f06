-- ===== src/HookApi/Process.antt =====
-- The state behind the hook entry point, and how the actions of hook code run on it.
--
-- The kernel is a parameter: it takes the registers of a system call and its own state, and answers
-- with the value for rax, or with `none` where the call does not return (exit, a successful execve).
use zpoline_rs.Prelude.{ℕ, Bool, Option, none, some}
use zpoline_rs.HookApi.Regs.{SyscallRegs}
use zpoline_rs.HookApi.Program.{Program, done, raw_call, libc_call, unreachable}
use zpoline_rs.HookApi.Hooks.{SyscallHooks}

abbrev pub Kernel : Type 0 → Type 0
Kernel K = SyscallRegs → K → Option (ℕ × K)

-- `HookFn`: the two hook functions of this crate, or one of a hook library. A hook library's
-- function may write to the registers that it is lent.
pub data HookFn : Type 0 where
  default_hook : HookFn
  trait_based_hook : HookFn
  custom : (SyscallRegs → Program (ℕ × SyscallRegs)) → HookFn

-- The statics of zpoline_hook_api/src/lib.rs as one thread sees them, and the kernel's state.
-- `trait_locked` says that this thread holds the mutex of HOOK_TRAIT_OBJECT.
pub record Process (S K : Type 0) : Type 0 where
  pub hook_function : HookFn
  pub trait_object : Option (SyscallHooks S × S)
  pub trait_poisoned : Bool
  pub trait_locked : Bool
  pub in_hook : Bool
  pub entry_count : ℕ
  pub trait_count : ℕ
  pub kernel_state : K

-- `blocked` is a lock of a mutex that the thread holds already, `undefined` is undefined behaviour,
-- and `too_deep` says that the fuel of `hook_entry` ran out.
pub data Outcome (S K A : Type 0) : Type 0 where
  returned : A → Process S K → Outcome S K A
  exited undefined blocked too_deep : Outcome S K A

abbrev pub bind :
    {S K A B : Type 0} → Outcome S K A → (A → Process S K → Outcome S K B) → Outcome S K B
bind (returned a p) f = f a p
bind exited f = exited
bind undefined f = undefined
bind blocked f = blocked
bind too_deep f = too_deep

module _ {S K : Type 0} (kernel : Kernel K) where
  -- The `syscall` instruction.
  unfoldable pub trap : SyscallRegs → Process S K → Outcome S K ℕ
  trap regs p = elim (kernel regs p.kernel_state) [
    | none ↦ exited
    | some (v, k) ↦ returned v (record p { kernel_state = k })
  ]

  -- Hook code runs; `entry` is where the system calls of rewritten code lead.
  unfoldable pub exec :
      {A : Type 0}
      → (SyscallRegs → Process S K → Outcome S K (ℕ × SyscallRegs))
      → Program A
      → Process S K
      → Outcome S K A
  exec entry (done a) p = returned a p
  exec entry (raw_call r next) p = bind (trap r p) (λ v q. exec entry (next v) q)
  exec entry (libc_call r next) p = bind (entry r p) (λ v q. exec entry (next v.0) q)
  exec entry unreachable p = undefined
