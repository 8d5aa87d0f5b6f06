-- ===== src/Trampoline/Listing.antt =====
-- The emitted bytes are the intended instructions.
use zpoline_rs.Prelude.{
  ℕ, zero, suc, ◌+◌, ◌^◌, ◌*◌, ◌/◌, ◌%◌, ◌≤◌, ◌<◌, ◌≡◌, refl, ap, ◌∙◌, List, [], ◌∷◌, Option, some,
  arith, ltb, leb, ◌&&◌, if◌then◌else◌,
}
use zpoline_rs.Slice.{Slice, write, tail_from, put_tail, update}
use zpoline_rs.Trampoline.Generate.{
  max_syscall_nr, trampoline_size, generate_hook_stub, fill_nops, generate_trampoline_code,
}
use zpoline_rs.Trampoline.Machine.{
  Instr, nop, push, pop, add_rsp, sub_rsp, lea_rdi, mov_r11, call_r11, ret, rax, rdx, rsi, rdi, r8,
  r9, r10, decode,
}

-- `code` has these instructions, with these lengths, from address `a` on.
abbrev pub Lists : (ℕ → ℕ) → ℕ → List (Instr × ℕ) → Type 0
Lists code a [] = Unit
Lists code a ((i, n) ∷ is) = (decode code a ≡ some (i, n)) × Lists code (a + n) is

-- Save the registers in the order of the fields of `SyscallRegs`, and load the callee's address.
-- The call follows.
abbrev pub before_call : ℕ → List (Instr × ℕ)
before_call hook_entry_addr =
    (push r9, 2)
    ∷ (push r8, 2)
    ∷ (push r10, 2)
    ∷ (push rdx, 1)
    ∷ (push rsi, 1)
    ∷ (push rdi, 1)
    ∷ (push rax, 1)
    ∷ (sub_rsp 8, 4)
    ∷ (lea_rdi 8, 5)
    ∷ (mov_r11 hook_entry_addr, 10)
    ∷ []

-- Drop the padding and rax, and restore the others. The return follows.
abbrev pub after_call : List (Instr × ℕ)
after_call =
    (add_rsp 8, 4)
    ∷ (add_rsp 8, 4)
    ∷ (pop rdi, 1)
    ∷ (pop rsi, 1)
    ∷ (pop rdx, 1)
    ∷ (pop r10, 2)
    ∷ (pop r8, 2)
    ∷ (pop r9, 2)
    ∷ []

-- The addresses of the call, of the instruction behind it, and of the return.
abbrev pub call_point : ℕ
call_point = 541

abbrev pub return_point : ℕ
return_point = 544

abbrev pub ret_point : ℕ
ret_point = 561

-- The sled, the two halves of the stub, and the size of the memory.
pub record IsTrampoline (hook_entry_addr : ℕ) (mem : Slice) : Type 0 where
  pub same_len : mem.len ≡ trampoline_size
  pub sled : (nr : ℕ) → nr < max_syscall_nr → decode mem.byte nr ≡ some (nop, 1)
  pub saves : Lists mem.byte max_syscall_nr (before_call hook_entry_addr)
  pub calls : decode mem.byte call_point ≡ some (call_r11, 3)
  pub restores : Lists mem.byte return_point after_call
  pub returns : decode mem.byte ret_point ≡ some (ret, 1)

abbrev filled : ℕ → ℕ → (ℕ → ℕ) → ℕ → ℕ
filled i n f j = if leb i j && ltb j (i + n) then 0x90 else f j

fill_nops_lem :
    (n i : ℕ) (mem : Slice)
    → i + n ≤ mem.len
    → (mem' : Slice) × (fill_nops n i mem ≡ some mem')
      × (mem'.len ≡ mem.len)
      × ((j : ℕ) → mem'.byte j ≡ filled i n mem.byte j)
unfolding fill_nops write
fill_nops_lem zero i mem h = (mem, refl, refl, λ j. ground arith)
fill_nops_lem (suc n) i mem h =
    let (mem', e, l, b) =
      fill_nops_lem n (i + 1) (record mem { byte = update mem.byte i 0x90 }) (omega arith) in
    (mem', ground (arith, e), l, λ j. ground (arith, b j))

le_word-to_le_bytes :
    (x : ℕ)
    → x < 2 ^ 64
    → x % 256
        + x / 2 ^ 8 % 256 * 2 ^ 8
        + x / 2 ^ 16 % 256 * 2 ^ 16
        + x / 2 ^ 24 % 256 * 2 ^ 24
        + x / 2 ^ 32 % 256 * 2 ^ 32
        + x / 2 ^ 40 % 256 * 2 ^ 40
        + x / 2 ^ 48 % 256 * 2 ^ 48
        + x / 2 ^ 56 % 256 * 2 ^ 56
      ≡ x
le_word-to_le_bytes x h = omega arith

mov_r11-eq :
    (m n : ℕ) → m ≡ n → ◌≡◌ {A = Option (Instr × ℕ)} (some (mov_r11 m, 10)) (some (mov_r11 n, 10))
mov_r11-eq m n e = ap (λ k. some (mov_r11 k, 10)) e

generate_hook_stub_lem :
    (addr : ℕ) (old : Slice) (f : ℕ → ℕ)
    → addr < 2 ^ 64
    → (stub : Slice) × (generate_hook_stub addr (record { len = 4096; byte = f }) ≡ some stub)
      × Lists (put_tail max_syscall_nr old stub).byte max_syscall_nr (before_call addr)
      × (decode (put_tail max_syscall_nr old stub).byte call_point ≡ some (call_r11, 3))
      × Lists (put_tail max_syscall_nr old stub).byte return_point after_call
      × (decode (put_tail max_syscall_nr old stub).byte ret_point ≡ some (ret, 1))
unfolding generate_hook_stub put_tail decode
generate_hook_stub_lem addr old f h = (
  _,
  refl,
  (
    refl,
    (
      refl,
      (
        refl,
        (
          refl,
          (
            refl,
            (refl, (refl, (refl, (refl, ((mov_r11-eq _ _ (le_word-to_le_bytes addr h)), tt))))),
          ),
        ),
      ),
    ),
  ),
  refl,
  (refl, (refl, (refl, (refl, (refl, (refl, (refl, (refl, tt)))))))),
  refl,
)

decode_nop :
    (nops stub : Slice) (nr : ℕ) (f : ℕ → ℕ)
    → nr < max_syscall_nr
    → nops.byte nr ≡ filled 0 max_syscall_nr f nr
    → decode (put_tail max_syscall_nr nops stub).byte nr ≡ some (nop, 1)
unfolding put_tail decode
decode_nop nops stub nr f h e = ground arith

-- For memory of the size that is mapped, whatever it holds, the generator does not panic, and leaves
-- there the sled of one-byte nops, from which every number below MAX_SYSCALL_NR runs into the stub,
-- and the two halves of the stub, with the address of `hook_entry` in its call.
pub generate_trampoline_code-IsTrampoline :
    (addr : ℕ) (mem : Slice)
    → addr < 2 ^ 64
    → mem.len ≡ trampoline_size
    → (mem' : Slice) × (generate_trampoline_code addr mem ≡ some mem') × IsTrampoline addr mem'
unfolding generate_trampoline_code tail_from put_tail
generate_trampoline_code-IsTrampoline addr mem h l =
    let (nops, e, l', b) = fill_nops_lem max_syscall_nr 0 mem (omega arith) in
    let full : nops.len ≡ 4608 = l' ∙ l in
    let (stub, made, saves, calls, restores, returns) =
      generate_hook_stub_lem addr nops (λ i. nops.byte (512 + i)) h in
    (
      put_tail max_syscall_nr nops stub,
      rw e (rw (full) (rw made)),
      record {
        same_len = full;
        sled = λ nr lt. decode_nop nops stub nr mem.byte lt (b nr);
        saves = saves;
        calls = calls;
        restores = restores;
        returns = returns;
      },
    )
