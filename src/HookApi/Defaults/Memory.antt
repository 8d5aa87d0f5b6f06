-- ===== src/HookApi/Defaults/Memory.antt =====
-- zpoline_hook_api/src/syscall_hooks.rs: the default implementations, memory management.
-- Arguments and results are bit patterns of the C types.
use zpoline_rs.Prelude.{ℕ, low_32, sign_extend}
use zpoline_rs.HookApi.Regs.{new}
use zpoline_rs.HookApi.Program.{Program, done, raw_syscall, ◌>>=◌}

unfoldable pub default_mmap : (addr length prot flags fd offset : ℕ) → Program ℕ
default_mmap addr length prot flags fd offset =
    raw_syscall (new 9 addr length (sign_extend prot) (sign_extend flags) (sign_extend fd) offset)

unfoldable pub default_munmap : (addr length : ℕ) → Program ℕ
default_munmap addr length = do v ← raw_syscall (new 11 addr length 0 0 0 0); done (low_32 v)

unfoldable pub default_mprotect : (addr len prot : ℕ) → Program ℕ
default_mprotect addr len prot = do
  v ← raw_syscall (new 10 addr len (sign_extend prot) 0 0 0)
  done (low_32 v)

unfoldable pub default_brk : (addr : ℕ) → Program ℕ
default_brk addr = do v ← raw_syscall (new 12 addr 0 0 0 0 0); done (low_32 v)
