-- ===== src/HookApi/Entry/Sequence.antt =====
-- Hook code that runs one program after another, its system calls made directly.
use zpoline_rs.Prelude.{◌+◌, ◌%◌, ◌^◌, ◌≡◌, refl, Option-cases, inl, inr}
use zpoline_rs.HookApi.Program.{Program, done, raw_call, libc_call, unreachable, ◌>>=◌}
use zpoline_rs.HookApi.Process.{Kernel, Process, bind, trap, exec}
use zpoline_rs.HookApi.Entry.Nesting.{direct_entry}

module _ {S K : Type 0} (kernel : Kernel K) where
  pub exec-bind :
      {A B : Type 0} (prog : Program A) (f : A → Program B) (p : Process S K)
      → exec kernel (direct_entry kernel) (prog >>= f) p
        ≡ bind
            (exec kernel (direct_entry kernel) prog p)
            (λ a q. exec kernel (direct_entry kernel) (f a) q)
  unfolding exec trap
  exec-bind (done a) f p = refl
  exec-bind unreachable f p = refl
  exec-bind (raw_call r next) f p = elim (Option-cases (kernel r p.kernel_state)) [
    | inl e ↦ rw (e, trap)
    | inr ((v, k), e) ↦ rw (e, trap) (exec-bind (next v) f (record p { kernel_state = k }))
  ]
  exec-bind (libc_call r next) f p = elim (Option-cases (kernel r p.kernel_state)) [
    | inl e ↦ rw (e, trap)
    | inr ((v, k), e) ↦
        rw (e, trap)
          (exec-bind (next v) f
            (record p { entry_count = (p.entry_count + 1) % 2 ^ 64; kernel_state = k }))
  ]
