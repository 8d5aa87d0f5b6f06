-- ===== src/HookLibs/Stats/Observing.antt =====
-- zpoline_hook_trait_example/src/lib.rs: `StatsHook` passes every call on, and counts it by its number.
use zpoline_rs.Prelude.{
  ℕ, ◌+◌, ◌≡◌, ◌≢◌, arith, ltb, ◌==◌, low_32, if◌then◌else◌, Bool-cases, inl, inr,
}
use zpoline_rs.HookApi.Regs.{SyscallRegs}
use zpoline_rs.HookApi.Program.{Program, done}
use zpoline_rs.HookApi.Dispatch.{dispatch_syscall_hooks}
use zpoline_rs.HookApi.Abi.{prototype_of}
use zpoline_rs.HookLibs.Printing.{CallsOnly}
use zpoline_rs.HookLibs.Observer.{Observer, observed, Observes}
use zpoline_rs.HookLibs.Stats.{
  Counts, Message, write_called, read_called, count_write, count_read, count_open, count_getpid,
  first_three, stats_hooks,
}

-- The counter of a system call number, one further.
abbrev pub count_call : ℕ → Counts → Counts
count_call nr s =
    if nr == 0
    then count_read s
    else if nr == 1
    then count_write s
    else if nr == 2
    then count_open s
    else if nr == 39
    then count_getpid s
    else s

module _ (print : Message → Program (Unit {0})) where
  abbrev pub announce : Counts → SyscallRegs → Program (Unit {0})
  announce s regs =
      if regs.rax == 0
      then first_three print s.read_count
          (read_called (low_32 regs.rdi) regs.rdx (s.read_count + 1))
      else if regs.rax == 1
      then first_three print s.write_count
          (write_called (low_32 regs.rdi) regs.rdx (s.write_count + 1))
      else done tt

  abbrev pub stats_observer : Observer Counts
  stats_observer = record {
    before = announce;
    after = λ s regs v. done tt;
    update = λ s regs v. count_call regs.rax s;
  }

  pub dispatch-stats_hooks :
      (s : Counts) (regs : SyscallRegs)
      → regs.rax ≢ 12
      → dispatch_syscall_hooks (stats_hooks print) s regs ≡ observed stats_observer s regs
  unfolding dispatch_syscall_hooks stats_hooks prototype_of
  dispatch-stats_hooks s regs h = ground arith

  first_three-CallsOnly :
      ((m : Message) → CallsOnly (print m))
      → (n : ℕ) (m : Message) → CallsOnly (first_three print n m)
  first_three-CallsOnly h n m = elim (Bool-cases (ltb n 3)) [
    | inl few ↦ rw few (h m)
    | inr many ↦ rw many tt
  ]

  announce-CallsOnly :
      ((m : Message) → CallsOnly (print m))
      → (s : Counts) (regs : SyscallRegs) → CallsOnly (announce s regs)
  announce-CallsOnly h s regs = elim (Bool-cases (regs.rax == 0)) [
    | inl reads ↦ rw reads (first_three-CallsOnly h _ _)
    | inr other ↦ rw other (elim (Bool-cases (regs.rax == 1)) [
      | inl writes ↦ rw writes (first_three-CallsOnly h _ _)
      | inr rest ↦ rw rest tt
    ])
  ]

  pub stats_hooks-Observes :
      ((m : Message) → CallsOnly (print m)) → Observes (stats_hooks print) stats_observer
  stats_hooks-Observes h = record {
    prints_before = announce-CallsOnly h;
    prints_after = λ s regs v. tt;
    dispatch_lem = dispatch-stats_hooks;
  }
