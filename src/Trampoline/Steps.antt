-- ===== src/Trampoline/Steps.antt =====
-- Running listed code.
use native.Mathlib.Nat.{suc-add, zero-add}
use mathlib.Core.Path.{subst}
use mathlib.Core.Option.{some-injective}
use zpoline_rs.Prelude.{
  ℕ, zero, suc, ◌+◌, ◌≤◌, ◌<◌, ◌≡◌, refl, sym, ap, ◌∙◌, List, [], ◌∷◌, Option, none, some, inl, inr,
  arith, length, ◌==◌, Bool-cases,
}
use zpoline_rs.Slice.{◌>>=◌}
use zpoline_rs.Trampoline.Machine.{
  rax, rdx, rsi, rdi, r8, r9, r10, Instr, nop, push, pop, add_rsp, sub_rsp, lea_rdi, mov_r11,
  call_r11, ret, Machine, decode, execute, behind, step, step_with, run,
}
use zpoline_rs.Trampoline.Generate.{max_syscall_nr, trampoline_size}
use zpoline_rs.Trampoline.Listing.{Lists}

abbrev pub execute_all : List (Instr × ℕ) → Machine → Machine
execute_all [] m = m
execute_all ((i, n) ∷ is) m = execute_all is (execute i (behind n m))

abbrev IsStraight : Instr → Type 0
IsStraight call_r11 = ⊥
IsStraight ret = ⊥
IsStraight _ = Unit

abbrev pub AllStraight : List (Instr × ℕ) → Type 0
AllStraight [] = Unit
AllStraight ((i, n) ∷ is) = IsStraight i × AllStraight is

abbrev pub size : List (Instr × ℕ) → ℕ
size [] = 0
size ((i, n) ∷ is) = n + size is

rip-execute : (i : Instr) (m : Machine) → IsStraight i → (execute i m).rip ≡ m.rip
rip-execute nop m h = refl
rip-execute (push r) m h = refl
rip-execute (pop rax) m h = refl
rip-execute (pop rdx) m h = refl
rip-execute (pop rsi) m h = refl
rip-execute (pop rdi) m h = refl
rip-execute (pop r8) m h = refl
rip-execute (pop r9) m h = refl
rip-execute (pop r10) m h = refl
rip-execute (add_rsp n) m h = refl
rip-execute (sub_rsp n) m h = refl
rip-execute (lea_rdi n) m h = refl
rip-execute (mov_r11 n) m h = refl
rip-execute call_r11 m h = elim h [ ]
rip-execute ret m h = elim h [ ]

bind-some :
    (x : Option Machine) (f : Machine → Option Machine) {m' : Machine}
    → (x >>= f) ≡ some m'
    → (m : Machine) × (x ≡ some m) × (f m ≡ some m')
bind-some none f h = cc
bind-some (some m) f h = (m, refl, h)

module _ (code : ℕ → ℕ) (addr : ℕ) (callee : Machine → Machine) where
  pub run-run :
      (a b : ℕ) (m : Machine) {m' : Machine} {o : Option Machine}
      → run code addr callee a m ≡ some m'
      → run code addr callee b m' ≡ o
      → run code addr callee (a + b) m ≡ o
  unfolding run
  run-run zero b m h k = rw (zero-add) (ap (run code addr callee b) (some-injective _ _ h) ∙ k)
  run-run (suc a) b m h k =
      let (next, e, f) = bind-some (step_with code addr callee m) (run code addr callee a) h in
      rw suc-add (rw e (run-run a b next f k))

  pub step_one :
      (m : Machine) (i : Instr) (n : ℕ)
      → trampoline_size ≤ addr
      → m.rip < trampoline_size
      → decode code m.rip ≡ some (i, n)
      → step_with code addr callee m ≡ some (execute i (behind n m))
  unfolding step_with step
  step_one m i n far low h = elim (Bool-cases (m.rip == addr)) [
    | inl e ↦ absurd (ground arith)
    | inr e ↦ rw e (rw h)
  ]

  pub run_one :
      (m : Machine) (i : Instr) (n : ℕ)
      → trampoline_size ≤ addr
      → m.rip < trampoline_size
      → decode code m.rip ≡ some (i, n)
      → run code addr callee 1 m ≡ some (execute i (behind n m))
  unfolding run
  run_one m i n far low h = rw (step_one m i n far low h)

  pub run-Lists :
      (is : List (Instr × ℕ)) (m : Machine)
      → trampoline_size ≤ addr
      → m.rip + size is < trampoline_size
      → AllStraight is
      → Lists code m.rip is
      → run code addr callee (length is) m ≡ some (execute_all is m)
  unfolding run
  run-Lists [] m far low str lst = refl
  run-Lists ((i, n) ∷ is) m far low str lst =
      let on : (execute i (behind n m)).rip ≡ m.rip + n = rip-execute i (behind n m) str.0 in
      rw (step_one m i n far (omega arith) lst.0) (
        run-Lists is (execute i (behind n m)) far (omega arith) str.1
          (subst (λ a. Lists code a is) (sym on) lst.1))

  pub run_sled :
      (k : ℕ) (m : Machine)
      → trampoline_size ≤ addr
      → ((nr : ℕ) → nr < max_syscall_nr → decode code nr ≡ some (nop, 1))
      → m.rip + k ≡ max_syscall_nr
      → run code addr callee k m ≡ some (record m { rip = max_syscall_nr })
  unfolding run
  run_sled zero m far nops h =
      let e : m.rip ≡ max_syscall_nr = omega arith in ap (λ a. some (record m { rip = a })) e
  run_sled (suc k) m far nops h =
      rw (step_one m nop 1 far (omega arith) (nops m.rip (omega arith)))
        (run_sled k (behind 1 m) far nops (omega arith))
