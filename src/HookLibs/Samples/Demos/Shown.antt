-- ===== src/HookLibs/Samples/Demos/Shown.antt =====
-- What a `main` shows, for an invariant that its system calls keep.
use Prim.Native.String.{String}
use zpoline_rs.Prelude.{ℕ, ◌+◌, ◌≡◌, refl, ap, List, [], ◌∷◌, ◌++◌, All}
use zpoline_rs.HookApi.Regs.{SyscallRegs}
use zpoline_rs.HookApi.Process.{Kernel, Process, Outcome, returned, exited, bind}
use zpoline_rs.HookLibs.Observer.Calls.{make_calls}
use zpoline_rs.HookLibs.Samples.Demos.{
  Action, show_number, Step, act, show, show_both, Io, calls_for, Shown, run_steps,
}

-- A run that comes to an end has a property, or the process has ended.
pub data Leads {S K A : Type 0} (P : A → Process S K → Type 0) : Outcome S K A → Type 0 where
  leads : {a : A} {q : Process S K} → P a q → Leads P (returned a q)
  gone : Leads P exited

pub bind-Leads :
    {S K A B : Type 0} {P : A → Process S K → Type 0} {Q : B → Process S K → Type 0}
    {x : Outcome S K A} (f : A → Process S K → Outcome S K B)
    → Leads P x
    → ((a : A) (q : Process S K) → P a q → Leads Q (f a q))
    → Leads Q (bind x f)
bind-Leads f (leads {a} {q} h) k = k a q h
bind-Leads f gone k = gone

pub map-Leads :
    {S K A : Type 0} {P Q : A → Process S K → Type 0} {x : Outcome S K A}
    → Leads P x
    → ((a : A) (q : Process S K) → P a q → Q a q)
    → Leads Q x
map-Leads (leads {a} {q} h) k = leads (k a q h)
map-Leads gone k = gone

-- One more number in front.
shown-Leads :
    {S K : Type 0} (line : String × ℕ) (ls : Shown) (J : Process S K → Type 0)
    {x : Outcome S K Shown}
    → Leads (λ lines q. (lines ≡ ls) × J q) x
    → Leads (λ lines q. (lines ≡ line ∷ ls) × J q) (bind x (λ lines q. returned (line ∷ lines) q))
shown-Leads line ls J (leads {a} {q} h) = leads (ap (λ l. line ∷ l) h.0, h.1)
shown-Leads line ls J gone = gone

-- The system calls that a list of steps makes, and the numbers that it shows, behind those of a list
-- `before`, where a static has the number that `num` gives for the calls so far.
module _ {F : Type 0} (io : Io) (num : F → List SyscallRegs → ℕ) where
  unfoldable pub history : ℕ → List (Step F) → List SyscallRegs → List SyscallRegs
  history i [] before = before
  history i (act a ∷ steps) before = history (i + 1) steps (before ++ calls_for io i a)
  history i (show text f ∷ steps) before =
      history (i + 1) steps (before ++ calls_for io i (show_number text (num f before)))
  history i (show_both (text, f) (text', g) ∷ steps) before = history (i + 2) steps (
      (before ++ calls_for io i (show_number text (num f before)))
      ++ calls_for io (i + 1) (show_number text' (num g before)))

  unfoldable pub numbers : ℕ → List (Step F) → List SyscallRegs → Shown
  numbers i [] before = []
  numbers i (act a ∷ steps) before = numbers (i + 1) steps (before ++ calls_for io i a)
  numbers i (show text f ∷ steps) before =
      (text, num f before)
      ∷ numbers (i + 1) steps (before ++ calls_for io i (show_number text (num f before)))
  numbers i (show_both (text, f) (text', g) ∷ steps) before =
      (text, num f before)
      ∷ (text', num g before)
      ∷ numbers (i + 2) steps (
          (before ++ calls_for io i (show_number text (num f before)))
          ++ calls_for io (i + 1) (show_number text' (num g before)))

module _ {S K F : Type 0} (kernel : Kernel K) (depth : ℕ) (io : Io) (load : F → Process S K → ℕ)
    (num : F → List SyscallRegs → ℕ) (I : List SyscallRegs → Process S K → Type 0)
    (Allowed : SyscallRegs → Type 0)
    (others : (i : ℕ) (a : Action) → All Allowed (calls_for io i a))
    (makes : (h calls : List SyscallRegs) (p : Process S K)
      → I h p
      → All Allowed calls
      → Leads (λ (vs : List ℕ) q. I (h ++ calls) q) (make_calls kernel depth calls p))
    (loads : (f : F) (h : List SyscallRegs) (p : Process S K) → I h p → load f p ≡ num f h) where
  abbrev Ends : ℕ → List (Step F) → List SyscallRegs → Shown → Process S K → Type 0
  Ends i steps h lines q = (lines ≡ numbers io num i steps h) × I (history io num i steps h) q

  pub run_steps-Leads :
      (i : ℕ) (steps : List (Step F)) (h : List SyscallRegs) (p : Process S K)
      → I h p
      → Leads (Ends i steps h) (run_steps kernel depth io load i steps p)
  unfolding run_steps numbers history
  run_steps-Leads i [] h p inv = leads (refl, inv)
  run_steps-Leads i (act a ∷ steps) h p inv =
      bind-Leads _ (makes h (calls_for io i a) p inv (others i a))
        (λ vs q k. run_steps-Leads (i + 1) steps (h ++ calls_for io i a) q k)
  run_steps-Leads i (show text f ∷ steps) h p inv = rw (loads f h p inv) (
      shown-Leads (text, num f h) _ _
        (bind-Leads _
          (makes h (calls_for io i (show_number text (num f h))) p inv
            (others i (show_number text (num f h))))
          (λ vs q k. run_steps-Leads (i + 1) steps _ q k)))
  run_steps-Leads i (show_both (text, f) (text', g) ∷ steps) h p inv =
      rw (loads f h p inv, loads g h p inv)
        (shown-Leads (text, num f h) _ _
          (shown-Leads (text', num g h) _ _
            (bind-Leads _
              (makes h (calls_for io i (show_number text (num f h))) p inv
                (others i (show_number text (num f h))))
              (λ vs q k.
                bind-Leads _
                  (makes _ (calls_for io (i + 1) (show_number text' (num g h))) q k
                    (others (i + 1) (show_number text' (num g h))))
                  (λ ws r k'. run_steps-Leads (i + 2) steps _ r k')))))
