-- ===== src/HookLibs/Samples/Bytes.antt =====
-- zpoline_samples/examples/trait_hooks.rs: `StatisticsHook` passes every call on, and adds up what read and
-- write give.
use mathlib.Core.Path.{fun_ext}
use native.Mathlib.Decide.{ℕ_discrete}
use zpoline_rs.Prelude.{
  ℕ, ◌+◌, ◌%◌, ◌^◌, ◌≡◌, ◌≢◌, refl, ap, Bool, true, false, List, arith, ◌==◌, low_32, sign_extend,
  if◌then◌else◌,
}
use zpoline_rs.HookApi.Regs.{SyscallRegs, new}
use zpoline_rs.HookApi.Program.{Program, done, raw_call, libc_call, unreachable, ◌>>=◌}
use zpoline_rs.HookApi.Dispatch.{dispatch_syscall_hooks}
use zpoline_rs.HookApi.Abi.{prototype_of}
use zpoline_rs.HookLibs.Printing.{CallsOnly}
use zpoline_rs.HookLibs.Observer.{Observer, observed, Observes}
use zpoline_rs.HookLibs.Samples.{
  Statistics, Report, open_called, getpid_gave, wrote, read_in, path_text, statistics_hooks,
}

-- What a call with a result adds.
abbrev pub record_call : ℕ → ℕ → Statistics → Statistics
record_call nr v s =
    if nr == 0
    then read_in v (record s { read_count = (s.read_count + 1) % 2 ^ 64 })
    else if nr == 1
    then wrote v (record s { write_count = (s.write_count + 1) % 2 ^ 64 })
    else if nr == 2
    then record s { open_count = (s.open_count + 1) % 2 ^ 64 }
    else s

>>=-assoc :
    {A B C : Type 0} (p : Program A) (f : A → Program B) (g : B → Program C)
    → ((p >>= f) >>= g) ≡ (p >>= λ a. f a >>= g)
>>=-assoc (done a) f g = refl
>>=-assoc (raw_call r next) f g = ap (raw_call r) (fun_ext (λ v. >>=-assoc (next v) f g))
>>=-assoc (libc_call r next) f g = ap (libc_call r) (fun_ext (λ v. >>=-assoc (next v) f g))
>>=-assoc unreachable f g = refl

low_32-through : (x : ℕ) → low_32 (sign_extend (low_32 x)) ≡ low_32 x
low_32-through x = ground arith

module _ (print : Report → Program (Unit {0})) (text_at : ℕ → List ℕ) where
  abbrev pub report_before : Statistics → SyscallRegs → Program (Unit {0})
  report_before s regs =
      if regs.rax == 2
      then print (open_called (path_text text_at regs.rdi) (low_32 regs.rsi) (low_32 regs.rdx))
      else done tt

  abbrev pub report_after : Statistics → SyscallRegs → ℕ → Program (Unit {0})
  report_after s regs v = if regs.rax == 39 then print (getpid_gave (low_32 v)) else done tt

  abbrev pub statistics_observer : Observer Statistics
  statistics_observer = record {
    before = report_before;
    after = report_after;
    update = λ s regs v. record_call regs.rax v s;
  }

  dispatch_open :
      (s : Statistics) (regs : SyscallRegs)
      → regs.rax ≡ 2
      → dispatch_syscall_hooks (statistics_hooks print text_at) s regs
        ≡ observed statistics_observer s regs
  unfolding dispatch_syscall_hooks statistics_hooks prototype_of
  dispatch_open s regs h = rw h (
      >>=-assoc
        (print (open_called (path_text text_at regs.rdi) (low_32 regs.rsi) (low_32 regs.rdx))) _ _)

  dispatch_getpid :
      (s : Statistics) (regs : SyscallRegs)
      → regs.rax ≡ 39
      → dispatch_syscall_hooks (statistics_hooks print text_at) s regs
        ≡ observed statistics_observer s regs
  unfolding dispatch_syscall_hooks statistics_hooks prototype_of
  dispatch_getpid s regs h = rw h (
      ap (raw_call (new 39 0 0 0 0 0 0))
        (fun_ext (λ v. rw (low_32-through v) (>>=-assoc (print (getpid_gave (low_32 v))) _ _))))

  dispatch_other :
      (s : Statistics) (regs : SyscallRegs)
      → regs.rax ≢ 12
      → regs.rax ≢ 2
      → regs.rax ≢ 39
      → dispatch_syscall_hooks (statistics_hooks print text_at) s regs
        ≡ observed statistics_observer s regs
  unfolding dispatch_syscall_hooks statistics_hooks prototype_of
  dispatch_other s regs h h' h'' = ground arith

  dispatch-statistics_hooks :
      (s : Statistics) (regs : SyscallRegs)
      → regs.rax ≢ 12
      → dispatch_syscall_hooks (statistics_hooks print text_at) s regs
        ≡ observed statistics_observer s regs
  dispatch-statistics_hooks s regs h = elim (ℕ_discrete regs.rax 2) [
    | yes opens ↦ dispatch_open s regs opens
    | no other ↦ elim (ℕ_discrete regs.rax 39) [
      | yes asks ↦ dispatch_getpid s regs asks
      | no rest ↦ dispatch_other s regs h other rest
    ]
  ]

  print_if :
      (m : Report) (b : Bool)
      → ((r : Report) → CallsOnly (print r))
      → CallsOnly (if b then print m else done tt)
  print_if m true h = h m
  print_if m false h = tt

  pub statistics_hooks-Observes :
      ((r : Report) → CallsOnly (print r))
      → Observes (statistics_hooks print text_at) statistics_observer
  statistics_hooks-Observes h = record {
    prints_before = λ s regs. print_if _ (regs.rax == 2) h;
    prints_after = λ s regs v. print_if _ (regs.rax == 39) h;
    dispatch_lem = dispatch-statistics_hooks;
  }
