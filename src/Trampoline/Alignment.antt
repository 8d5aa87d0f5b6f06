-- ===== src/Trampoline/Alignment.antt =====
-- The stack pointer at the stub's call of `hook_entry`.
use mathlib.Core.Option.{some-injective}
use mathlib.Core.Path.{subst}
use zpoline_rs.Prelude.{ℕ, ◌+◌, ◌-◌, ◌%◌, ◌^◌, ◌≤◌, ◌<◌, ◌≡◌, ◌↔◌, refl, sym, ◌∙◌, some, arith}
use zpoline_rs.Slice.{Slice}
use zpoline_rs.Trampoline.Generate.{max_syscall_nr, trampoline_size, generate_trampoline_code}
use zpoline_rs.Trampoline.Machine.{Machine, run}
use zpoline_rs.Trampoline.Listing.{IsTrampoline, generate_trampoline_code-IsTrampoline}
use zpoline_rs.Trampoline.Call.{at_call, at_call_rsp}
use zpoline_rs.Trampoline.Run.{run-at_call}

parity : (a b : ℕ) → 72 ≤ a → b ≡ a - 72 → ((b + 8) % 16 ≡ 0) ↔ ((a + 8) % 16 ≡ 8)
parity a b h e = ((λ k. omega arith), (λ k. omega arith))

-- The machine arrives at `hook_entry` with the stack as the calling convention wants it, rsp + 8 a
-- multiple of 16, exactly when the application's own stack pointer, before its call of the sled, was 8
-- beyond a multiple of 16. The padding of the stub is the wrong way round for a 16-byte aligned stack.
pub call_alignment :
    (callee : Machine → Machine) (addr : ℕ) (page mem : Slice) (m : Machine)
    → trampoline_size ≤ addr
    → addr < 2 ^ 64
    → page.len ≡ trampoline_size
    → generate_trampoline_code addr page ≡ some mem
    → m.rip < max_syscall_nr
    → 72 ≤ m.rsp
    → m.rsp < 2 ^ 64
    → (c : Machine) × (run mem.byte addr callee (max_syscall_nr - m.rip + 11) m ≡ some c)
      × (c.rip ≡ addr)
      × (((c.rsp + 8) % 16 ≡ 0) ↔ ((m.rsp + 8) % 16 ≡ 8))
call_alignment callee addr page mem m far below len made low room top =
    let (mem', made', t') = generate_trampoline_code-IsTrampoline addr page below len in
    let t : IsTrampoline addr mem =
      subst (IsTrampoline addr) (some-injective _ _ (sym made' ∙ made)) t' in
    let stub = record m { rip = max_syscall_nr } in
    (
      at_call addr stub,
      run-at_call addr mem callee t far m low,
      refl,
      parity m.rsp _ room (at_call_rsp addr stub room top),
    )
