-- ===== src/HookApi/Program.antt =====
-- What hook code can do, as a tree of actions: it is pure but for its system calls.
--
-- `raw_call` is the `syscall` instruction of `raw_syscall_impl` (zpoline_hook_api/src/lib.rs), which
-- the rewriter leaves alone. `libc_call` is a system call of rewritten code, such as one made by
-- libc on behalf of the hook: it comes back to `hook_entry` through the trampoline.
-- `unreachable` is `core::hint::unreachable_unchecked()`, undefined behaviour if it is reached.
pub mod Leaves
use zpoline_rs.Prelude.{ℕ}
use zpoline_rs.HookApi.Regs.{SyscallRegs, new}

pub data Program (A : Type 0) : Type 0 where
  done : A → Program A
  raw_call : SyscallRegs → (ℕ → Program A) → Program A
  libc_call : SyscallRegs → (ℕ → Program A) → Program A
  unreachable : Program A

infixl 5 ◌>>=◌
abbrev pub ◌>>=◌ : {A B : Type 0} → Program A → (A → Program B) → Program B
done a >>= f = f a
raw_call r k >>= f = raw_call r (λ v. k v >>= f)
libc_call r k >>= f = libc_call r (λ v. k v >>= f)
unreachable >>= f = unreachable

-- `raw_syscall` and `raw_syscall_impl`: all seven registers go to the kernel, and its rax comes
-- back as the i64 result.
abbrev pub raw_syscall : SyscallRegs → Program ℕ
raw_syscall regs = raw_call regs done

-- `raw_syscall_bypass`.
abbrev pub raw_syscall_bypass : (nr arg1 arg2 arg3 arg4 arg5 arg6 : ℕ) → Program ℕ
raw_syscall_bypass nr arg1 arg2 arg3 arg4 arg5 arg6 =
    raw_syscall (new nr arg1 arg2 arg3 arg4 arg5 arg6)
