-- ===== src/HookLibs/Printing.antt =====
-- What a hook does when it prints. `eprintln!` is std's: how it writes is a parameter, a program
-- for each message, of which it is only known that it makes system calls, through libc or directly (a
-- hook library has a libc of its own, in its own namespace, which may be rewritten or not).
use zpoline_rs.Prelude.{
  ℕ, ◌+◌, ◌%◌, ◌^◌, ◌≡◌, refl, ◌∙◌, Option, none, some, Option-cases, inl, inr,
}
use zpoline_rs.HookApi.Program.{Program, done, raw_call, libc_call, unreachable}
use zpoline_rs.HookApi.Process.{Kernel, Process, Outcome, returned, exited, trap, exec}
use zpoline_rs.HookApi.Entry.Nesting.{direct_entry}

abbrev pub CallsOnly : Program (Unit {0}) → Type 0
CallsOnly (done u) = Unit
CallsOnly (raw_call r next) = (v : ℕ) → CallsOnly (next v)
CallsOnly (libc_call r next) = (v : ℕ) → CallsOnly (next v)
CallsOnly unreachable = ⊥

-- What a program gives, and the kernel's state behind it, where the kernel answers the program's calls
-- one after another, and no other. `none` is a call that does not return, or undefined behaviour.
unfoldable pub answers : {K A : Type 0} → Kernel K → Program A → K → Option (A × K)
answers kernel (done a) k = some (a, k)
answers kernel (raw_call r next) k = elim (kernel r k) [
  | none ↦ none
  | some (v, k') ↦ answers kernel (next v) k'
]
answers kernel (libc_call r next) k = elim (kernel r k) [
  | none ↦ none
  | some (v, k') ↦ answers kernel (next v) k'
]
answers kernel unreachable k = none

module _ {S K : Type 0} (kernel : Kernel K) where
  -- The state with a kernel state and a number of entries of its own.
  abbrev pub moved : Process S K → ℕ → K → Process S K
  moved p n k = record p { entry_count = n; kernel_state = k }

  -- A program ran in a hook: its calls were answered to the end, or one of them did not return.
  pub data Printed (p : Process S K) (prog : Program (Unit {0}))
      : Outcome S K (Unit {0}) → Type 0 where
    printed :
        (n : ℕ) (k : K)
        → answers kernel prog p.kernel_state ≡ some (tt, k)
        → Printed p prog (returned tt (moved p n k))
    gone : answers kernel prog p.kernel_state ≡ none → Printed p prog exited

  -- Behind a call that was answered.
  Printed-after :
      {n : ℕ} {k : K} (p : Process S K) (prog next : Program (Unit {0}))
      (o : Outcome S K (Unit {0}))
      → answers kernel prog p.kernel_state ≡ answers kernel next k
      → Printed (moved p n k) next o
      → Printed p prog o
  Printed-after p prog next _ e (printed n k f) = printed n k (e ∙ f)
  Printed-after p prog next _ e (gone f) = gone (e ∙ f)

  pub exec-Printed :
      (prog : Program (Unit {0})) (p : Process S K)
      → CallsOnly prog
      → Printed p prog (exec kernel (direct_entry kernel) prog p)
  unfolding exec trap answers
  exec-Printed (done tt) p h = printed p.entry_count p.kernel_state refl
  exec-Printed (raw_call r next) p h = elim (Option-cases (kernel r p.kernel_state)) [
    | inl e ↦ rw (e, trap) (gone (rw (e, answers) refl))
    | inr ((v, k), e) ↦
        rw (e, trap)
          (Printed-after p (raw_call r next) (next v) _ (rw (e, answers) refl)
            (exec-Printed (next v) (moved p p.entry_count k) (h v)))
  ]
  exec-Printed unreachable p h = absurd h
  exec-Printed (libc_call r next) p h = elim (Option-cases (kernel r p.kernel_state)) [
    | inl e ↦ rw (e, trap) (gone (rw (e, answers) refl))
    | inr ((v, k), e) ↦
        rw (e, trap)
          (Printed-after p (libc_call r next) (next v) _ (rw (e, answers) refl)
            (exec-Printed (next v) (moved p ((p.entry_count + 1) % 2 ^ 64) k) (h v)))
  ]
