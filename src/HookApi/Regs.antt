-- ===== src/HookApi/Regs.antt =====
-- zpoline_hook_api/src/lib.rs: `SyscallRegs`.
use zpoline_rs.Prelude.{ℕ}

-- The registers of a system call: rax has the number, the others the six arguments in order.
pub record SyscallRegs : Type 0 where
  pub rax : ℕ
  pub rdi : ℕ
  pub rsi : ℕ
  pub rdx : ℕ
  pub r10 : ℕ
  pub r8 : ℕ
  pub r9 : ℕ

-- `SyscallRegs::new`.
abbrev pub new : (rax rdi rsi rdx r10 r8 r9 : ℕ) → SyscallRegs
new rax rdi rsi rdx r10 r8 r9 = record {
  rax = rax;
  rdi = rdi;
  rsi = rsi;
  rdx = rdx;
  r10 = r10;
  r8 = r8;
  r9 = r9;
}

-- `SyscallRegs::zero`.
abbrev pub zeroed : SyscallRegs
zeroed = new 0 0 0 0 0 0 0
