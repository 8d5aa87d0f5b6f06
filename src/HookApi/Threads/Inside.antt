-- ===== src/HookApi/Threads/Inside.antt =====
-- The moves that one thread makes, one after another, without coming out of its hook.
use mathlib.Core.Path.{subst}
use zpoline_rs.Prelude.{ℕ, ◌≡◌, true}
use zpoline_rs.HookApi.Process.{Kernel}
use zpoline_rs.HookApi.Threads.{
  Thread, in_hook, Shared, Move, System, place, Steps, stay, later, Steps-trans, place_here,
  place_place, pick_at,
}

-- Every place that the thread `i` comes to has IN_HOOK set.
pub data Inside {S K : Type 0} (kernel : Kernel K) (i : ℕ) (m : Shared S K) (x : Thread S)
    : Shared S K → Thread S → Type 0 where
  here : Inside kernel i m x m x
  onward :
      {m' m'' : Shared S K} {y z : Thread S}
      → Inside kernel i m x m' y
      → Move kernel i m' y m'' z
      → in_hook z ≡ true
      → Inside kernel i m x m'' z

pub Inside-trans :
    {S K : Type 0} {kernel : Kernel K} {i : ℕ} {m m' : Shared S K} {x y : Thread S}
    {m'' : Shared S K} {z : Thread S}
    → Inside kernel i m x m' y
    → Inside kernel i m' y m'' z
    → Inside kernel i m x m'' z
Inside-trans a here = a
Inside-trans a (onward b move h) = onward (Inside-trans a b) move h

-- The thread `i` is at a place, and the others are as `ts` has them.
abbrev pub at : {S K : Type 0} → ℕ → (ℕ → Thread S) → Shared S K → Thread S → System S K
at i ts m x = record { shared = m; threads = place ts i x }

module _ {S K : Type 0} (kernel : Kernel K) (i : ℕ) (ts : ℕ → Thread S) where
  pub step_on :
      (m m' : Shared S K) (x t : Thread S)
      → Move kernel i m x m' t
      → Steps kernel (at i ts m x) (at i ts m' t)
  step_on m m' x t move =
      subst (λ us. Steps kernel (at i ts m x) (record { shared = m'; threads = us }))
        (place_place ts i x t) (later stay (pick_at i (place_here ts i x) move))

  -- They are steps of the threads.
  pub Inside-Steps :
      {m : Shared S K} {x : Thread S} {m' : Shared S K} {y : Thread S}
      → Inside kernel i m x m' y
      → Steps kernel (at i ts m x) (at i ts m' y)
  Inside-Steps here = stay
  Inside-Steps (onward a move h) = Steps-trans (Inside-Steps a) (step_on _ _ _ _ move)
