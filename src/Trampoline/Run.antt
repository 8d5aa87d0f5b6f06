-- ===== src/Trampoline/Run.antt =====
-- The way of a system call through the trampoline: down the sled, through the stub, into
-- `hook_entry` and back to the application.
use mathlib.Core.Option.{some-injective}
use mathlib.Core.Path.{subst}
use zpoline_rs.Prelude.{
  ℕ, ◌+◌, ◌-◌, ◌%◌, ◌^◌, ◌≤◌, ◌<◌, ◌≡◌, inl, inr, refl, sym, ap, ◌∙◌, Option, some, arith, ◌==◌,
  Bool-cases,
}
use zpoline_rs.HookApi.Regs.{SyscallRegs}
use zpoline_rs.Slice.{Slice}
use zpoline_rs.Trampoline.Generate.{max_syscall_nr, trampoline_size, generate_trampoline_code}
use zpoline_rs.Trampoline.Machine.{Machine, call_r11, ret, step_with, run, up}
use zpoline_rs.Trampoline.Listing.{
  before_call, after_call, IsTrampoline, generate_trampoline_code-IsTrampoline,
}
use zpoline_rs.Trampoline.Steps.{execute_all, run-run, run_one, run-Lists, run_sled}
use zpoline_rs.Trampoline.Call.{
  app_regs, load_regs, CallReady, FollowsConvention, at_call, at_call_rsp, at_call_rdi,
  load_regs-at_call, at_call_return, at_call_above, at_return, left, left_eq, at_return_lem, up_lem,
}

-- The application goes on as after a system call with a result and the registers beside it.
pub record Resumes (r : ℕ × SyscallRegs) (m m' : Machine) : Type 0 where
  pub rip_lem : m'.rip ≡ m.stack m.rsp
  pub rsp_lem : m'.rsp ≡ m.rsp + 8
  pub rax_lem : m'.rax_v ≡ r.0
  pub rdi_lem : m'.rdi_v ≡ r.1.rdi
  pub rsi_lem : m'.rsi_v ≡ r.1.rsi
  pub rdx_lem : m'.rdx_v ≡ r.1.rdx
  pub r10_lem : m'.r10_v ≡ r.1.r10
  pub r8_lem : m'.r8_v ≡ r.1.r8
  pub r9_lem : m'.r9_v ≡ r.1.r9
  pub saved : m'.callee_saved ≡ m.callee_saved
  pub above : (a : ℕ) → m.rsp ≤ a → m'.stack a ≡ m.stack a

module _ (addr : ℕ) (mem : Slice) (callee : Machine → Machine) (t : IsTrampoline addr mem)
    (far : trampoline_size ≤ addr) where
  abbrev pub at_stub : Machine → Machine
  at_stub m = record m { rip = max_syscall_nr }

  pub run-at_call :
      (m : Machine)
      → m.rip < max_syscall_nr
      → run mem.byte addr callee (max_syscall_nr - m.rip + (10 + 1)) m
        ≡ some (at_call addr (at_stub m))
  run-at_call m low =
      run-run mem.byte addr callee (max_syscall_nr - m.rip) (10 + 1) m
        (run_sled mem.byte addr callee (max_syscall_nr - m.rip) m far t.sled (omega arith))
        (run-run mem.byte addr callee 10 1 (at_stub m)
          (run-Lists mem.byte addr callee (before_call addr) (at_stub m) far (omega arith)
            (tt, (tt, (tt, (tt, (tt, (tt, (tt, (tt, (tt, (tt, tt)))))))))) t.saves)
          (run_one mem.byte addr callee (execute_all (before_call addr) (at_stub m)) call_r11 3 far
            (omega arith) t.calls))

  run_callee : (m : Machine) → m.rip ≡ addr → run mem.byte addr callee 1 m ≡ some (callee m)
  unfolding run step_with
  run_callee m e = elim (Bool-cases (m.rip == addr)) [
    | inl h ↦ rw h
    | inr h ↦ absurd (ground arith)
  ]

  run-at_return :
      (a : ℕ) (m : Machine)
      → run mem.byte addr callee (8 + 1) (record m { rsp = a; rip = 544 })
        ≡ some (at_return (record m { rsp = a; rip = 544 }))
  run-at_return a m =
      let m = record m { rsp = a; rip = 544 } in
      run-run mem.byte addr callee 8 1 m
        (run-Lists mem.byte addr callee after_call m far (omega arith)
          (tt, (tt, (tt, (tt, (tt, (tt, (tt, (tt, tt)))))))) t.restores)
        (run_one mem.byte addr callee (execute_all after_call m) ret 1 far (omega arith) t.returns)

module _ (space : ℕ) (hook : SyscallRegs → Option (ℕ × SyscallRegs)) (callee : Machine → Machine)
    (abi : FollowsConvention space hook callee) (addr : ℕ) (m : Machine) (r : ℕ × SyscallRegs)
    (answer : hook (app_regs m) ≡ some r) (low : m.rip < max_syscall_nr) (aligned : m.rsp % 16 ≡ 0)
    (room : space + 72 ≤ m.rsp) (top : m.rsp + 8 < 2 ^ 64) where
  abbrev called : Machine
  called = at_call addr (record m { rip = max_syscall_nr })

  called_rsp : called.rsp ≡ m.rsp - 72
  called_rsp = at_call_rsp addr (record m { rip = max_syscall_nr }) (omega arith) (omega arith)

  called_rdi : called.rdi_v ≡ m.rsp - 56
  called_rdi = at_call_rdi addr (record m { rip = max_syscall_nr }) (omega arith) (omega arith)

  ready : CallReady space called
  ready = record {
    aligned = omega (arith, called_rsp);
    room = omega (arith, called_rsp);
    above = omega (arith, called_rsp, called_rdi);
    inside = omega (arith, called_rdi);
  }

  called_regs : load_regs called.stack called.rdi_v ≡ app_regs m
  called_regs =
      ap (load_regs called.stack) called_rdi
      ∙ load_regs-at_call addr (record m { rip = max_syscall_nr }) (omega arith) (omega arith)

  called_answer : hook (load_regs called.stack called.rdi_v) ≡ some r
  called_answer = ap hook called_regs ∙ answer

  back_rip : (callee called).rip ≡ 544
  back_rip =
      (abi.returns called r ready called_answer).0
      ∙ ap called.stack called_rsp
      ∙ at_call_return addr (record m { rip = max_syscall_nr }) (omega arith) (omega arith)

  back_rsp : (callee called).rsp ≡ m.rsp - 64
  back_rsp =
      (abi.returns called r ready called_answer).1
      ∙ ap (λ a. up a 8) called_rsp
      ∙ up_lem (m.rsp - 72) 8 (omega arith)
      ∙ omega arith

  back_regs : load_regs (callee called).stack (m.rsp - 56) ≡ r.1
  back_regs =
      ap (load_regs (callee called).stack) (sym called_rdi)
      ∙ (abi.returns called r ready called_answer).3

  back_above : (a : ℕ) → m.rsp ≤ a → (callee called).stack a ≡ m.stack a
  back_above a h =
      abi.frame called r a ready called_answer (omega (arith, called_rsp))
        (inr (omega (arith, called_rdi)))
      ∙ at_call_above addr (record m { rip = max_syscall_nr }) (omega arith) (omega arith) a h

  -- A word of the structure, from above and from below.
  field :
      (k n : ℕ)
      → n + k ≡ 56
      → (callee called).stack (m.rsp - n) ≡ (callee called).stack (m.rsp - 56 + k)
  field k n e = ap (callee called).stack (omega arith)

  abbrev resumed : Machine
  resumed = at_return (left m.rsp (callee called))

  resumed-Resumes : Resumes r m resumed
  resumed-Resumes =
      let d = callee called in
      let (rip, rsp, rax, rdi, rsi, rdx, r10, r8, r9) = at_return_lem m.rsp d (omega arith) top in
      record {
        rip_lem = rip ∙ back_above m.rsp (omega arith);
        rsp_lem = rsp;
        rax_lem = rax ∙ (abi.returns called r ready called_answer).2;
        rdi_lem = rdi ∙ field 8 48 refl ∙ ap (λ q. q.rdi) back_regs;
        rsi_lem = rsi ∙ field 16 40 refl ∙ ap (λ q. q.rsi) back_regs;
        rdx_lem = rdx ∙ field 24 32 refl ∙ ap (λ q. q.rdx) back_regs;
        r10_lem = r10 ∙ field 32 24 refl ∙ ap (λ q. q.r10) back_regs;
        r8_lem = r8 ∙ field 40 16 refl ∙ ap (λ q. q.r8) back_regs;
        r9_lem = r9 ∙ field 48 8 refl ∙ ap (λ q. q.r9) back_regs;
        saved = (abi.returns called r ready called_answer).4;
        above = back_above;
      }

-- A call through the trampoline where its code is in place.
pub placed-Resumes :
    (space : ℕ) (hook : SyscallRegs → Option (ℕ × SyscallRegs)) (callee : Machine → Machine)
    (addr : ℕ) (mem : Slice) (m : Machine) (r : ℕ × SyscallRegs)
    → FollowsConvention space hook callee
    → hook (app_regs m) ≡ some r
    → trampoline_size ≤ addr
    → IsTrampoline addr mem
    → m.rip < max_syscall_nr
    → m.rsp % 16 ≡ 0
    → space + 72 ≤ m.rsp
    → m.rsp + 8 < 2 ^ 64
    → (m' : Machine) × (run mem.byte addr callee (max_syscall_nr - m.rip + 21) m ≡ some m')
      × Resumes r m m'
placed-Resumes space hook callee addr mem m r abi answer far t low aligned room top =
    let d = callee (called space hook callee abi addr m r answer low aligned room top) in
    (
      resumed space hook callee abi addr m r answer low aligned room top,
      ap (λ n. run mem.byte addr callee n m) (omega arith)
          ∙ run-run mem.byte addr callee (max_syscall_nr - m.rip + (10 + 1)) (1 + (8 + 1)) m
              (run-at_call addr mem callee t far m low)
              (run-run mem.byte addr callee 1 (8 + 1)
                (called space hook callee abi addr m r answer low aligned room top)
                (run_callee addr mem callee t far
                    (called space hook callee abi addr m r answer low aligned room top) refl
                  ∙ ap some (
                      left_eq m.rsp d
                        (back_rsp space hook callee abi addr m r answer low aligned room top)
                        (back_rip space hook callee abi addr m r answer low aligned room top)))
                (run-at_return addr mem callee t far (m.rsp - 64) d)),
      resumed-Resumes space hook callee abi addr m r answer low aligned room top,
    )

-- A call of an address below MAX_SYSCALL_NR, as `callq *%rax` makes it for a system call number: the
-- machine runs down the sled and through the stub, calls `hook_entry` once with a pointer to the
-- application's seven registers, and is back at the return address after a known number of steps with
-- the words that were above the return address as they were. Where `hook_entry` returns, rax has its result, and the argument registers are
-- as it leaves them in the structure. The memory is what the generator made of the mapped page, `hook_entry` lies
-- outside it and follows the calling convention of System V for aligned calls. The call is made where
-- the stack pointer is 8 beyond a multiple of 16, as in a function that has pushed nothing, so that
-- rsp is a multiple of 16 behind it; there are 72 bytes of stack and those that `hook_entry` needs.
pub trampoline-Resumes :
    (space : ℕ) (hook : SyscallRegs → Option (ℕ × SyscallRegs)) (callee : Machine → Machine)
    (addr : ℕ) (page mem : Slice) (m : Machine) (r : ℕ × SyscallRegs)
    → FollowsConvention space hook callee
    → hook (app_regs m) ≡ some r
    → trampoline_size ≤ addr
    → addr < 2 ^ 64
    → page.len ≡ trampoline_size
    → generate_trampoline_code addr page ≡ some mem
    → m.rip < max_syscall_nr
    → m.rsp % 16 ≡ 0
    → space + 72 ≤ m.rsp
    → m.rsp + 8 < 2 ^ 64
    → (m' : Machine) × (run mem.byte addr callee (max_syscall_nr - m.rip + 21) m ≡ some m')
      × Resumes r m m'
trampoline-Resumes space hook callee addr page mem m r abi answer far below len made low aligned
      room top =
    let (mem', made', t) = generate_trampoline_code-IsTrampoline addr page below len in
    placed-Resumes space hook callee addr mem m r abi answer far
      (subst (IsTrampoline addr) (some-injective _ _ (sym made' ∙ made)) t) low aligned room top
