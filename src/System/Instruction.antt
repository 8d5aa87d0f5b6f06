-- ===== src/System/Instruction.antt =====
-- The two instructions at a place that was rewritten: `syscall`, which was there, and `callq *%rax`,
-- which zpoline_rewriter/src/rewriter.rs puts there. Both are two bytes long, and rip points behind
-- them while they execute. After the manual of the instruction set.
use zpoline_rs.Prelude.{ℕ, ◌+◌, ◌≡◌, ◌≤◌, ◌&&◌, Option, none, some, ◌==◌, if◌then◌else◌}
use mathlib.Core.Option as Option
use zpoline_rs.HookApi.Regs.{SyscallRegs}
use zpoline_rs.HookApi.Process.{Kernel, Outcome, returned, exited, undefined, blocked, too_deep}
use zpoline_rs.Trampoline.Machine.{Machine, push_word}
use zpoline_rs.Trampoline.Call.{app_regs}

abbrev pub call_rax : Machine → Machine
call_rax m = record (push_word m.rip m) { rip = m.rax_v }

abbrev pub answered : ℕ → Machine → ℕ → Machine
answered flags m v = record m { rax_v = v; r11_v = flags }

-- The kernel leaves its answer in rax and puts the flags in r11; its use of rcx, which the machine
-- does not have, is left out. Of `none` the process has ended.
abbrev pub syscall : {K : Type 0} → Kernel K → ℕ → K → Machine → Option (Machine × K)
syscall kernel flags k m = Option.map (λ r. (answered flags m r.0, r.1)) (kernel (app_regs m) k)

-- What `hook_entry` returns, where it returns.
abbrev pub result_of : {S K : Type 0} → Outcome S K (ℕ × SyscallRegs) → Option (ℕ × SyscallRegs)
result_of (returned r q) = some r
result_of exited = none
result_of undefined = none
result_of blocked = none
result_of too_deep = none

-- The machines are the same to an application that keeps nothing below its stack pointer: they differ
-- there and in r11 at most, which a system call does not keep.
pub record SameToApplication (m n : Machine) : Type 0 where
  pub rip_lem : m.rip ≡ n.rip
  pub rsp_lem : m.rsp ≡ n.rsp
  pub rax_lem : m.rax_v ≡ n.rax_v
  pub args_lem : app_regs (record m { rax_v = 0 }) ≡ app_regs (record n { rax_v = 0 })
  pub saved_lem : m.callee_saved ≡ n.callee_saved
  pub stack_lem : (a : ℕ) → n.rsp ≤ a → m.stack a ≡ n.stack a

-- What an instruction of two bytes is.
pub data Opcode : Type 0 where
  syscall_op call_rax_op other_op : Opcode

unfoldable pub opcode_at : (ℕ → ℕ) → ℕ → Opcode
opcode_at f a =
    if f a == 0x0f && f (a + 1) == 0x05
    then syscall_op
    else if f a == 0xff && f (a + 1) == 0xd0
    then call_rax_op
    else other_op

-- The machine while the instruction of two bytes at rip executes.
abbrev pub past_two : Machine → Machine
past_two m = record m { rip = m.rip + 2 }
