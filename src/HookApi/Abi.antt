-- ===== src/HookApi/Abi.antt =====
-- The interface of the hooked system calls as the manual pages give it: for each number the C types of
-- its arguments and of its result. It is written down apart from the code, which is held to it.
-- The result of brk is the kernel's, the new end of the data segment.
use zpoline_rs.Prelude.{
  ℕ, List, [], ◌∷◌, Option, none, some, get_elem?, low_32, through_c_int, ◌==◌, if◌then◌else◌,
}
use zpoline_rs.HookApi.Regs.{SyscallRegs}
use zpoline_rs.HookApi.Program.{Program, done, raw_call, unreachable, raw_syscall}

-- int and pid_t; unsigned int and mode_t; pointers, size_t, long and off_t.
pub data CType : Type 0 where
  int uint word : CType

-- What a call gives back: an int, a word of 64 bits, or no return at all.
pub data CResult : Type 0 where
  int_result word_result no_result : CResult

pub record Prototype : Type 0 where
  pub params : List CType
  pub result : CResult

abbrev prototype : List CType → CResult → Option Prototype
prototype ps r = some (record { params = ps; result = r })

unfoldable pub prototype_of : ℕ → Option Prototype
prototype_of nr =
    if nr == 0
    then prototype (int ∷ word ∷ word ∷ []) word_result
    else  -- read
        if nr == 1
    then prototype (int ∷ word ∷ word ∷ []) word_result
    else  -- write
        if nr == 2
    then prototype (word ∷ int ∷ uint ∷ []) int_result
    else  -- open
        if nr == 3
    then prototype (int ∷ []) int_result
    else  -- close
        if nr == 8
    then prototype (int ∷ word ∷ int ∷ []) word_result
    else  -- lseek
        if nr == 9
    then prototype (word ∷ word ∷ int ∷ int ∷ int ∷ word ∷ []) word_result
    else  -- mmap
        if nr == 10
    then prototype (word ∷ word ∷ int ∷ []) int_result
    else  -- mprotect
        if nr == 11
    then prototype (word ∷ word ∷ []) int_result
    else  -- munmap
        if nr == 12
    then prototype (word ∷ []) word_result
    else  -- brk
        if nr == 16
    then prototype (int ∷ word ∷ word ∷ []) int_result
    else  -- ioctl
        if nr == 21
    then prototype (word ∷ int ∷ []) int_result
    else  -- access
        if nr == 22
    then prototype (word ∷ []) int_result
    else  -- pipe
        if nr == 32
    then prototype (int ∷ []) int_result
    else  -- dup
        if nr == 33
    then prototype (int ∷ int ∷ []) int_result
    else  -- dup2
        if nr == 39
    then prototype [] int_result
    else  -- getpid
        if nr == 41
    then prototype (int ∷ int ∷ int ∷ []) int_result
    else  -- socket
        if nr == 42
    then prototype (int ∷ word ∷ uint ∷ []) int_result
    else  -- connect
        if nr == 43
    then prototype (int ∷ word ∷ word ∷ []) int_result
    else  -- accept
        if nr == 49
    then prototype (int ∷ word ∷ uint ∷ []) int_result
    else  -- bind
        if nr == 50
    then prototype (int ∷ int ∷ []) int_result
    else  -- listen
        if nr == 57
    then prototype [] int_result
    else  -- fork
        if nr == 59
    then prototype (word ∷ word ∷ word ∷ []) int_result
    else  -- execve
        if nr == 60
    then prototype (int ∷ []) no_result
    else  -- exit
        if nr == 61
    then prototype (int ∷ word ∷ int ∷ word ∷ []) int_result
    else  -- wait4
        if nr == 62
    then prototype (int ∷ int ∷ []) int_result
    else  -- kill
        if nr == 186
    then prototype [] int_result
    else  -- gettid
        if nr == 231
    then prototype (int ∷ []) no_result
    else  -- exit_group
        if nr == 257
    then prototype (int ∷ word ∷ int ∷ uint ∷ []) int_result
    else  -- openat
        none

-- A register as the callee of that type sees it; a register that is no argument is zero.
abbrev pub pass : Option CType → ℕ → ℕ
pass none x = 0
pass (some int) x = through_c_int x
pass (some uint) x = low_32 x
pass (some word) x = x

abbrev pub pass_regs : List CType → SyscallRegs → SyscallRegs
pass_regs ps r = record {
  rax = r.rax;
  rdi = pass (get_elem? ps 0) r.rdi;
  rsi = pass (get_elem? ps 1) r.rsi;
  rdx = pass (get_elem? ps 2) r.rdx;
  r10 = pass (get_elem? ps 3) r.r10;
  r8 = pass (get_elem? ps 4) r.r8;
  r9 = pass (get_elem? ps 5) r.r9;
}

abbrev pub give_back : CResult → ℕ → Program ℕ
give_back int_result v = done (through_c_int v)
give_back word_result v = done v
give_back no_result v = unreachable

-- One system call with the registers that the prototype passes; any other number goes through whole.
abbrev pub forward : Option Prototype → SyscallRegs → Program ℕ
forward none r = raw_syscall r
forward (some p) r = raw_call (pass_regs p.params r) (give_back p.result)
