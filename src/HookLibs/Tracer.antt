-- ===== src/HookLibs/Tracer.antt =====
-- zpoline_hook_impl/src/lib.rs and zpoline_samples/src/main.rs: hooks that print a line for each system call
-- and make it.
pub mod Traced
use Prim.Native.String.{String}
use zpoline_rs.Prelude.{ℕ}
use zpoline_rs.HookApi.Regs.{SyscallRegs}
use zpoline_rs.HookApi.Program.{Program, done, raw_syscall, ◌>>=◌}
use zpoline_rs.HookApi.Process.{HookFn, custom}
use zpoline_rs.HookLibs.Names.{syscall_name, trace_name}

-- The name and the values of a line.
pub record TraceLine : Type 0 where
  pub name : String
  pub regs : SyscallRegs

abbrev pub pass_on : (SyscallRegs → Program (Unit {0})) → SyscallRegs → Program (ℕ × SyscallRegs)
pass_on say regs = do u ← say regs; v ← raw_syscall regs; done (v, regs)

module _ (print : TraceLine → Program (Unit {0})) where
  abbrev pub zpoline_hook_function : SyscallRegs → Program (ℕ × SyscallRegs)
  zpoline_hook_function =
      pass_on (λ regs. print (record { name = syscall_name regs.rax; regs = regs }))

  -- The sample's hook.
  abbrev pub trace_hook : SyscallRegs → Program (ℕ × SyscallRegs)
  trace_hook = pass_on (λ regs. print (record { name = trace_name regs.rax; regs = regs }))

  -- The pointer that `zpoline_hook_init` of the hook library gives.
  abbrev pub zpoline_hook_init : HookFn
  zpoline_hook_init = custom zpoline_hook_function
