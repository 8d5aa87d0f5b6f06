-- ===== src/HookApi/Threads/Waiting.antt =====
-- A thread that waits for the trait object can get it, and come to the end of its hook.
use mathlib.Core.Path.{subst}
use zpoline_rs.Prelude.{ℕ, ◌≡◌, refl, sym, ◌∙◌, true, some, Option-cases, inl, inr, arith}
use zpoline_rs.HookApi.Regs.{SyscallRegs}
use zpoline_rs.HookApi.Program.{Program}
use zpoline_rs.HookApi.Process.{Kernel, HookFn}
use zpoline_rs.HookApi.Threads.{
  Object, Thread, outside, entered, holding, running, leaving, registering, ended, gone, System,
  Steps, at_rest,
}
use zpoline_rs.HookApi.Threads.Holder.{holds, Steps-Guarded}
use zpoline_rs.HookApi.Threads.Inside.{Inside, here}
use zpoline_rs.HookApi.Threads.Finish.{
  ended_there, Lost, given_back, is_free, Returns, holder_lost, freed, Finishes, finishes, stops,
  finish, take_free,
}

module _ {S K : Type 0} (kernel : Kernel K) where
  -- A thread has the mutex and gives it back first.
  take_freed :
      (s : System S K) (i j : ℕ) (regs w : SyscallRegs) (p : Program (ℕ × Object S))
      → entered w ≡ s.threads j
      → s.shared.owner ≡ some i
      → holding regs p ≡ s.threads i
      → Finishes kernel i regs s.shared p
      → Returns kernel s j w
  take_freed s i j regs w p h o e (finishes k object v a) =
      take_free kernel j s w (freed kernel i regs s.shared k object) h
        (given_back i v o
          (subst
            (λ x. Inside kernel i s.shared x (freed kernel i regs s.shared k object) (leaving v)) e
            a)
          refl)
        refl
  take_freed s i j regs w p h o e (stops {m'} {x} a l) =
      holder_lost i o (subst (λ y. Inside kernel i s.shared y m' x) e a) l

  take_from :
      (s : System S K) (i j : ℕ) (w : SyscallRegs) (x : Thread S)
      → entered w ≡ s.threads j
      → s.shared.owner ≡ some i
      → x ≡ s.threads i
      → holds x ≡ true
      → Returns kernel s j w
  take_from s i j w (holding regs p) h o e held =
      take_freed s i j regs w p h o e (finish kernel i regs p s.shared)
  take_from s i j w ended h o e held = holder_lost i o here (subst Lost e ended_there)
  take_from s i j w outside h o e held = absurd (cc)
  take_from s i j w (entered r) h o e held = absurd (cc)
  take_from s i j w (leaving v) h o e held = absurd (cc)
  take_from s i j w (running p) h o e held = absurd (cc)
  take_from s i j w registering h o e held = absurd (cc)
  take_from s i j w gone h o e held = absurd (cc)

  -- However the threads have come to where they are, from a state where all were outside and the mutex
  -- was free, a thread that waits for the trait object is not stuck: the thread that has the mutex, if
  -- there is one, runs its hook to the end and gives it back, by moves of its own; and from there the
  -- waiting thread, by moves of its own, takes the mutex, runs its hook to the end, and frees it, with its
  -- call added to those that the object is through with. What can keep it from that is only that the
  -- thread that has the mutex, or then the waiting thread itself, comes, by its own moves, to a system
  -- call of its hook that does not return, or to code that is marked as unreachable.
  pub waiting-Returns :
      (f : HookFn) (object : Object S) (k : K) (s : System S K) (j : ℕ) (w : SyscallRegs)
      → Steps kernel (at_rest f object k) s
      → s.threads j ≡ entered w
      → Returns kernel s j w
  waiting-Returns f object k s j w steps e = elim (Option-cases s.shared.owner) [
    | inl free ↦ take_free kernel j s w s.shared (sym e) (is_free free) free
    | inr (i, o) ↦
        let g = Steps-Guarded (λ n. refl) steps in
        take_from s i j w (s.threads i) (sym e) o refl (g i ∙ ground (arith, o))
  ]
