-- ===== src/Trampoline/Placed.antt =====
-- The trampoline's code, copied.
use zpoline_rs.Prelude.{ℕ, ◌+◌, ◌≤◌, ◌<◌, ◌≡◌, refl, ◌∙◌, List, [], ◌∷◌, arith}
use zpoline_rs.Slice.{Slice}
use zpoline_rs.Trampoline.Generate.{max_syscall_nr, trampoline_size}
use zpoline_rs.Trampoline.Machine.{Instr, decode}
use zpoline_rs.Trampoline.Steps.{size}
use zpoline_rs.Trampoline.Listing.{before_call, after_call, Lists, IsTrampoline}

module _ (code code' : ℕ → ℕ) (same : (a : ℕ) → a < trampoline_size → code' a ≡ code a) where
  decode_same : (a : ℕ) → a + 10 ≤ trampoline_size → decode code' a ≡ decode code a
  unfolding decode
  decode_same a h = rw (
    same (a) (omega arith),
    same (a + 1) (omega arith),
    same (a + 2) (omega arith),
    same (a + 3) (omega arith),
    same (a + 4) (omega arith),
    same (a + 2 + 1) (omega arith),
    same (a + 2 + 2) (omega arith),
    same (a + 2 + 3) (omega arith),
    same (a + 2 + 4) (omega arith),
    same (a + 2 + 5) (omega arith),
    same (a + 2 + 6) (omega arith),
    same (a + 2 + 7) (omega arith),
  )

  Lists-same :
      (is : List (Instr × ℕ)) (a : ℕ)
      → a + size is + 10 ≤ trampoline_size
      → Lists code a is
      → Lists code' a is
  Lists-same [] a h l = tt
  Lists-same ((i, n) ∷ is) a h l =
      (decode_same a (omega arith) ∙ l.0, Lists-same is (a + n) (omega arith) l.1)

-- The bytes of a trampoline make one wherever they are.
pub IsTrampoline-same :
    (addr : ℕ) (mem : Slice) (code : ℕ → ℕ)
    → IsTrampoline addr mem
    → ((a : ℕ) → a < trampoline_size → code a ≡ mem.byte a)
    → IsTrampoline addr (record { len = trampoline_size; byte = code })
IsTrampoline-same addr mem code t same = record {
  same_len = refl;
  sled = λ nr h. decode_same mem.byte code same nr (omega arith) ∙ t.sled nr h;
  saves = Lists-same mem.byte code same (before_call addr) max_syscall_nr (omega arith) t.saves;
  calls = decode_same mem.byte code same 541 (omega arith) ∙ t.calls;
  restores = Lists-same mem.byte code same after_call 544 (omega arith) t.restores;
  returns = decode_same mem.byte code same 561 (omega arith) ∙ t.returns;
}
