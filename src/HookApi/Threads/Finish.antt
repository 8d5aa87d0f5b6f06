-- ===== src/HookApi/Threads/Finish.antt =====
-- A thread that has the mutex, or can get it, comes to the end of its hook.
use mathlib.Core.Path.{subst}
use zpoline_rs.Prelude.{ℕ, ◌∷◌, ◌≡◌, inl, inr, refl, none, some, Option-cases}
use zpoline_rs.HookApi.Regs.{SyscallRegs}
use zpoline_rs.HookApi.Program.{Program, done, raw_call, libc_call, unreachable}
use zpoline_rs.HookApi.Process.{Kernel}
use zpoline_rs.HookApi.Threads.{
  Object, Thread, entered, holding, leaving, ended, under_lock, Shared, Move, lock, make,
  raw_answered, libc_answered, raw_stops, libc_stops, end_inside, unlock, System,
}
use zpoline_rs.HookApi.Threads.Inside.{Inside, here, onward, Inside-trans}

-- A thread has the object and does not go on: a system call of its hook did not return, or the hook is
-- where its code says that it never comes.
pub data Lost {S : Type 0} : Thread S → Type 0 where
  ended_there : Lost ended
  undefined_there : (regs : SyscallRegs) → Lost (holding regs unreachable)

-- The mutex is free, or the thread that has it runs its hook to the end, by its own moves, and gives it
-- back.
pub data Frees {S K : Type 0} (kernel : Kernel K) (s : System S K) : Shared S K → Type 0 where
  is_free : s.shared.owner ≡ none → Frees kernel s s.shared
  given_back :
      {m : Shared S K} (i v : ℕ)
      → s.shared.owner ≡ some i
      → Inside kernel i s.shared (s.threads i) m (leaving v)
      → m.owner ≡ none
      → Frees kernel s m

-- The thread that has the mutex gives it back, and then the thread `j`, by its own moves, gets through its
-- hook, with its call the last that the object is through with and the mutex free. Or the thread that
-- has the mutex comes to where it does not go on, by its own moves; or `j` does, behind that.
pub data Returns {S K : Type 0} (kernel : Kernel K) (s : System S K) (j : ℕ) (w : SyscallRegs)
    : Type 0 where
  returns :
      {m m' : Shared S K} (v : ℕ)
      → Frees kernel s m
      → Inside kernel j m (s.threads j) m' (leaving v)
      → m'.owner ≡ none
      → m'.calls ≡ w ∷ m.calls
      → Returns kernel s j w
  holder_lost :
      {m : Shared S K} {x : Thread S} (i : ℕ)
      → s.shared.owner ≡ some i
      → Inside kernel i s.shared (s.threads i) m x
      → Lost x
      → Returns kernel s j w
  self_lost :
      {m m' : Shared S K} {x : Thread S}
      → Frees kernel s m
      → Inside kernel j m (s.threads j) m' x
      → Lost x
      → Returns kernel s j w

module _ {S K : Type 0} (kernel : Kernel K) (i : ℕ) where
  -- What the threads share when the hook is through.
  abbrev pub freed : SyscallRegs → Shared S K → K → Object S → Shared S K
  freed regs m k object = record m {
    object = object;
    owner = none;
    kernel_state = k;
    calls = regs ∷ m.calls;
  }

  pub data Finishes (regs : SyscallRegs) (m : Shared S K) (p : Program (ℕ × Object S))
      : Type 0 where
    finishes :
        (k : K) (object : Object S) (v : ℕ)
        → Inside kernel i m (holding regs p) (freed regs m k object) (leaving v)
        → Finishes regs m p
    stops :
        {m' : Shared S K} {x : Thread S}
        → Inside kernel i m (holding regs p) m' x
        → Lost x
        → Finishes regs m p

  Finishes-after :
      (regs : SyscallRegs) (m : Shared S K) (k : K) (p q : Program (ℕ × Object S))
      → Move kernel i m (holding regs p) (record m { kernel_state = k }) (holding regs q)
      → Finishes regs (record m { kernel_state = k }) q
      → Finishes regs m p
  Finishes-after regs m k p q a (finishes k' object v b) =
      finishes k' object v (Inside-trans (onward here a refl) b)
  Finishes-after regs m k p q a (stops b l) = stops (Inside-trans (onward here a refl) b) l

  stops_here :
      (regs : SyscallRegs) (m : Shared S K) (p : Program (ℕ × Object S))
      → Move kernel i m (holding regs p) m ended
      → Finishes regs m p
  stops_here regs m p move = stops (onward here move refl) ended_there

  pub finish :
      (regs : SyscallRegs) (p : Program (ℕ × Object S)) (m : Shared S K) → Finishes regs m p
  finish regs (done (v, object)) m =
      finishes m.kernel_state object v (onward here (unlock v object) refl)
  finish regs unreachable m = stops here (undefined_there regs)
  finish regs (raw_call r next) m = elim (Option-cases (kernel r m.kernel_state)) [
    | inl e ↦ stops_here regs m _ (end_inside (raw_stops e))
    | inr ((v, k), e) ↦
        Finishes-after regs m k _ (next v) (make (raw_answered v k e))
          (finish regs (next v) (record m { kernel_state = k }))
  ]
  finish regs (libc_call r next) m = elim (Option-cases (kernel r m.kernel_state)) [
    | inl e ↦ stops_here regs m _ (end_inside (libc_stops e))
    | inr ((v, k), e) ↦
        Finishes-after regs m k _ (next v) (make (libc_answered v k e))
          (finish regs (next v) (record m { kernel_state = k }))
  ]

  -- With the mutex free the thread gets it.
  Finishes-Returns :
      (s : System S K) (w : SyscallRegs) (m : Shared S K)
      → entered w ≡ s.threads i
      → Frees kernel s m
      → m.owner ≡ none
      → Finishes w (record m { owner = some i }) (under_lock m.object w)
      → Returns kernel s i w
  Finishes-Returns s w m e f free (finishes k object v a) =
      returns v f
        (subst (λ x. Inside kernel i m x (freed w m k object) (leaving v)) e
          (Inside-trans (onward here (lock w free) refl) a))
        refl refl
  Finishes-Returns s w m e f free (stops {m'} {x} a l) =
      self_lost f
        (subst (λ y. Inside kernel i m y m' x) e (Inside-trans (onward here (lock w free) refl) a))
        l

  pub take_free :
      (s : System S K) (w : SyscallRegs) (m : Shared S K)
      → entered w ≡ s.threads i
      → Frees kernel s m
      → m.owner ≡ none
      → Returns kernel s i w
  take_free s w m e f free =
      Finishes-Returns s w m e f free
        (finish w (under_lock m.object w) (record m { owner = some i }))
