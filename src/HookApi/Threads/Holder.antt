-- ===== src/HookApi/Threads/Holder.antt =====
-- At most one thread has the trait object.
use zpoline_rs.Prelude.{ℕ, ◌≡◌, refl, Bool, true, false, Option, none, some, arith, ◌==◌}
use zpoline_rs.HookApi.Process.{Kernel, HookFn}
use zpoline_rs.HookApi.Threads.{
  Object, Thread, outside, entered, holding, leaving, ended, Shared, Move, running, registering,
  gone, call, call_default, call_library, lock, make, end_inside, unlock, run, stop, run_through,
  leave, register, set_trait_hook, set_hook, System, place, pick, Steps, stay, later, at_rest,
}

abbrev pub holds : {S : Type 0} → Thread S → Bool
holds outside = false
holds (entered regs) = false
holds (holding regs p) = true
holds (running p) = false
holds (leaving v) = false
holds registering = false
holds ended = true
holds gone = false

abbrev pub owned_by : Option ℕ → ℕ → Bool
owned_by none j = false
owned_by (some i) j = j == i

-- A thread has the guard exactly if it is the mutex's owner.
abbrev pub Guarded : {S K : Type 0} → System S K → Type 0
Guarded s = (j : ℕ) → holds (s.threads j) ≡ owned_by s.shared.owner j

-- Where one thread has the guard, no other has.
pub alone :
    {S K : Type 0} (s : System S K) (i j : ℕ)
    → Guarded s
    → (j == i) ≡ false
    → holds (s.threads i) ≡ true
    → holds (s.threads j) ≡ false
alone s i j g e h = ground (arith, g i, g j)

module _ {S K : Type 0} {kernel : Kernel K} where
  Move-Guarded :
      (i j : ℕ) (m : Shared S K) (x : Thread S) (m' : Shared S K) (t : Thread S) (ts : ℕ → Thread S)
      → Move kernel i m x m' t
      → x ≡ ts i
      → holds (ts i) ≡ owned_by m.owner i
      → holds (ts j) ≡ owned_by m.owner j
      → holds (place ts i t j) ≡ owned_by m'.owner j
  Move-Guarded i j m _ _ _ ts (call regs f) e h k = ground arith
  Move-Guarded i j m _ _ _ ts (call_default regs f) e h k = ground arith
  Move-Guarded i j m _ _ _ ts (call_library regs g f) e h k = ground arith
  Move-Guarded i j m _ _ _ ts (lock regs f) e h k = ground arith
  Move-Guarded i j m _ _ _ ts (make a) e h k = ground arith
  Move-Guarded i j m _ _ _ ts (end_inside a) e h k = ground arith
  Move-Guarded i j m _ _ _ ts (unlock v o') e h k = ground arith
  Move-Guarded i j m _ _ _ ts (run a) e h k = ground arith
  Move-Guarded i j m _ _ _ ts (stop a) e h k = ground arith
  Move-Guarded i j m _ _ _ ts (run_through v regs) e h k = ground arith
  Move-Guarded i j m _ _ _ ts leave e h k = ground arith
  Move-Guarded i j m _ _ _ ts (register hooks s f) e h k = ground arith
  Move-Guarded i j m _ _ _ ts set_trait_hook e h k = ground arith
  Move-Guarded i j m _ _ _ ts (set_hook f) e h k = ground arith

  pub Steps-Guarded : {s t : System S K} → Guarded s → Steps kernel s t → Guarded t
  Steps-Guarded g stay j = g j
  Steps-Guarded g (later {t} steps (pick i {m} {t = x} move)) j =
      let h = Steps-Guarded g steps in
      Move-Guarded i j t.shared (t.threads i) m x t.threads move refl (h i) (h j)

  -- However the steps of the threads follow one another, from a state where all are outside and the
  -- mutex is free, whatever hook function is set and object registered, no two of them have the trait object at once.
  pub one_holder :
      (f : HookFn) (object : Object S) (k : K) (s : System S K) (i j : ℕ)
      → Steps kernel (at_rest f object k) s
      → holds (s.threads i) ≡ true
      → holds (s.threads j) ≡ true
      → i ≡ j
  one_holder f object k s i j steps h h' =
      let g = Steps-Guarded (λ n. refl) steps in ground (arith, g i, g j)
