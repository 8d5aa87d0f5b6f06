-- ===== src/Trampoline/Tests.antt =====
-- The theorems of the trampoline at a concrete machine.
use zpoline_rs.Prelude.{
  ℕ, ◌+◌, ◌-◌, ◌%◌, ◌≡◌, ◌↔◌, refl, Option, none, some, [], arith, ◌==◌, if◌then◌else◌,
}
use zpoline_rs.HookApi.Regs.{SyscallRegs}
use zpoline_rs.Slice.{Slice, update}
use zpoline_rs.Trampoline.Generate.{max_syscall_nr, trampoline_size, generate_trampoline_code}
use zpoline_rs.Trampoline.Machine.{Machine, up, run}
use zpoline_rs.Trampoline.Listing.{IsTrampoline, generate_trampoline_code-IsTrampoline}
use zpoline_rs.Trampoline.Call.{app_regs, FollowsConvention}
use zpoline_rs.Trampoline.Run.{Resumes, trampoline-Resumes}
use zpoline_rs.Trampoline.Alignment.{call_alignment}

-- The page that mmap gives.
abbrev zero_page : Slice
zero_page = record { len = trampoline_size; byte = λ _. 0 }

abbrev entry_addr : ℕ
entry_addr = 0x7f00_1234_5678

abbrev emitted :
    (mem : Slice) × (generate_trampoline_code entry_addr zero_page ≡ some mem)
    × IsTrampoline entry_addr mem
emitted = generate_trampoline_code-IsTrampoline entry_addr zero_page (omega arith) refl

generate_trampoline_code-IsTrampoline_example :
    (mem : Slice) × (generate_trampoline_code entry_addr zero_page ≡ some mem)
    × IsTrampoline entry_addr mem
generate_trampoline_code-IsTrampoline_example =
    generate_trampoline_code-IsTrampoline entry_addr zero_page (omega arith) refl

-- A hook that answers with its first argument and one, and does not return from exit.
abbrev add_one_hook : SyscallRegs → Option (ℕ × SyscallRegs)
add_one_hook r = if r.rax == 60 then none else some (r.rdi + 1, r)

-- Its code: it keeps a word in its own frame, and jumps to 0 where the stack is not aligned.
abbrev add_one_callee : Machine → Machine
add_one_callee m =
    if (m.rsp + 8) % 16 == 0
    then record m {
      rip = m.stack m.rsp;
      rsp = up m.rsp 8;
      rax_v = m.stack (m.rdi_v + 8) + 1;
      rdi_v = 0;
      r11_v = 0;
      stack = update m.stack (m.rsp - 8) m.rdi_v;
    }
    else record m { rip = 0 }

add_one_callee-FollowsConvention : FollowsConvention 8 add_one_hook add_one_callee
add_one_callee-FollowsConvention = record {
  returns = λ m r c h. ground (arith, c.aligned, c.room, c.above);
  frame = λ m r a c h k l. ground (arith, c.aligned, c.room);
}

-- getpid, called at address 39 with the return address on top of the stack.
abbrev caller : Machine
caller = record {
  rip = 39;
  rsp = 0x7fff_0000;
  rax_v = 39;
  rdx_v = 3;
  rsi_v = 2;
  rdi_v = 1;
  r8_v = 5;
  r9_v = 6;
  r10_v = 4;
  r11_v = 0;
  callee_saved = [];
  stack = λ a. a;
}

trampoline-Resumes_example :
    (m' : Machine) × (run emitted.0.byte entry_addr add_one_callee (max_syscall_nr - 39 + 21) caller
      ≡ some m')
    × Resumes (2, app_regs caller) caller m'
trampoline-Resumes_example =
    trampoline-Resumes 8 add_one_hook add_one_callee entry_addr zero_page emitted.0 caller
      (2, app_regs caller) add_one_callee-FollowsConvention refl (omega arith) (omega arith) refl
      emitted.1 (omega arith) (omega arith) (omega arith) (omega arith)

call_alignment_example :
    (c : Machine) × (run emitted.0.byte entry_addr add_one_callee (max_syscall_nr - 39 + 11) caller
      ≡ some c)
    × (c.rip ≡ entry_addr)
    × (((c.rsp + 8) % 16 ≡ 0) ↔ ((caller.rsp + 8) % 16 ≡ 8))
call_alignment_example =
    call_alignment add_one_callee entry_addr zero_page emitted.0 caller (omega arith) (omega arith)
      refl emitted.1 (omega arith) (omega arith) (omega arith)
