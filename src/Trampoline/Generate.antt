-- ===== src/Trampoline/Generate.antt =====
-- `generate_trampoline_code` and `generate_hook_stub`.
use zpoline_rs.Prelude.{ℕ, zero, suc, ◌+◌, ◌/◌, ◌%◌, ◌^◌, List, [], ◌∷◌, Option, some}
use zpoline_rs.Slice.{Slice, write, tail_from, put_tail, ◌>>=◌}

-- MAX_SYSCALL_NR and TRAMPOLINE_SIZE.
abbrev pub max_syscall_nr : ℕ
max_syscall_nr = 512

abbrev pub trampoline_size : ℕ
trampoline_size = max_syscall_nr + 4096

-- `usize::to_le_bytes`.
abbrev pub to_le_bytes : ℕ → List ℕ
to_le_bytes x =
    (x % 256)
    ∷ (x / 2 ^ 8 % 256)
    ∷ (x / 2 ^ 16 % 256)
    ∷ (x / 2 ^ 24 % 256)
    ∷ (x / 2 ^ 32 % 256)
    ∷ (x / 2 ^ 40 % 256)
    ∷ (x / 2 ^ 48 % 256)
    ∷ (x / 2 ^ 56 % 256)
    ∷ []

-- The memory with the running `offset`.
pub record Writer : Type 0 where
  pub mem : Slice
  pub offset : ℕ

-- `mem[offset] = b; mem[offset + 1] = …; offset += n`.
unfoldable pub emit : List ℕ → Writer → Option Writer
unfolding write
emit [] w = some w
emit (b ∷ bs) w = do
  mem ← write w.offset b w.mem
  emit bs (record { mem = mem; offset = w.offset + 1 })

-- The argument is the address of `zpoline_hook_api::hook_entry`.
unfoldable pub generate_hook_stub : ℕ → Slice → Option Slice
unfolding emit
generate_hook_stub hook_entry_addr mem = do
  w ← emit (0x41 ∷ 0x51 ∷ []) (record { mem = mem; offset = 0 })
  w ← emit (0x41 ∷ 0x50 ∷ []) w
  w ← emit (0x41 ∷ 0x52 ∷ []) w
  w ← emit (0x52 ∷ []) w
  w ← emit (0x56 ∷ []) w
  w ← emit (0x57 ∷ []) w
  w ← emit (0x50 ∷ []) w
  w ← emit (0x48 ∷ 0x83 ∷ 0xec ∷ 0x08 ∷ []) w
  w ← emit (0x48 ∷ 0x8d ∷ 0x7c ∷ 0x24 ∷ 0x08 ∷ []) w
  w ← emit (0x49 ∷ 0xbb ∷ to_le_bytes hook_entry_addr) w
  w ← emit (0x41 ∷ 0xff ∷ 0xd3 ∷ []) w
  w ← emit (0x48 ∷ 0x83 ∷ 0xc4 ∷ 0x08 ∷ []) w
  w ← emit (0x48 ∷ 0x83 ∷ 0xc4 ∷ 0x08 ∷ []) w
  w ← emit (0x5f ∷ []) w
  w ← emit (0x5e ∷ []) w
  w ← emit (0x5a ∷ []) w
  w ← emit (0x41 ∷ 0x5a ∷ []) w
  w ← emit (0x41 ∷ 0x58 ∷ []) w
  w ← emit (0x41 ∷ 0x59 ∷ []) w
  w ← emit (0xc3 ∷ []) w
  some w.mem

-- `for i in i..i + rounds { mem[i] = 0x90; }`
unfoldable pub fill_nops : ℕ → ℕ → Slice → Option Slice
fill_nops zero i mem = some mem
fill_nops (suc rounds) i mem = do mem ← write i 0x90 mem; fill_nops rounds (i + 1) mem

unfoldable pub generate_trampoline_code : ℕ → Slice → Option Slice
generate_trampoline_code hook_entry_addr mem = do
  mem ← fill_nops max_syscall_nr 0 mem
  rest ← tail_from max_syscall_nr mem
  stub ← generate_hook_stub hook_entry_addr rest
  some (put_tail max_syscall_nr mem stub)
