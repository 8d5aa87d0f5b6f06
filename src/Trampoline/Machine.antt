-- ===== src/Trampoline/Machine.antt =====
-- The processor, as far as the trampoline needs it: an independent description of the instructions
-- that the emitted bytes are meant to be, after the manual of the x86-64 instruction set. A byte
-- sequence outside this subset is not decoded.
--
-- The stack is a function from addresses to 64-bit words: all accesses below are 8 bytes wide and
-- at distances of multiples of 8. It is taken to be apart from the code.
use zpoline_rs.Prelude.{
  ℕ, zero, suc, ◌+◌, ◌-◌, ◌*◌, ◌%◌, ◌^◌, List, ◌&&◌, Option, none, some, ◌==◌, leb, if◌then◌else◌,
}
use zpoline_rs.Slice.{update, ◌>>=◌}

pub data Reg : Type 0 where
  rax rdx rsi rdi r8 r9 r10 : Reg

pub data Instr : Type 0 where
  nop : Instr
  push : Reg → Instr
  pop : Reg → Instr
  add_rsp : ℕ → Instr
  sub_rsp : ℕ → Instr
  -- lea rdi, [rsp + n]
  lea_rdi : ℕ → Instr
  mov_r11 : ℕ → Instr
  call_r11 : Instr
  ret : Instr

pub record Machine : Type 0 where
  pub rip : ℕ
  pub rsp : ℕ
  pub rax_v : ℕ
  pub rdx_v : ℕ
  pub rsi_v : ℕ
  pub rdi_v : ℕ
  pub r8_v : ℕ
  pub r9_v : ℕ
  pub r10_v : ℕ
  pub r11_v : ℕ
  -- rbx, rbp, r12 to r15 in this order, which no instruction here touches
  pub callee_saved : List ℕ
  pub stack : ℕ → ℕ

abbrev pub get : Reg → Machine → ℕ
get rax m = m.rax_v
get rdx m = m.rdx_v
get rsi m = m.rsi_v
get rdi m = m.rdi_v
get r8 m = m.r8_v
get r9 m = m.r9_v
get r10 m = m.r10_v

abbrev pub put : Reg → ℕ → Machine → Machine
put rax v m = record m { rax_v = v }
put rdx v m = record m { rdx_v = v }
put rsi v m = record m { rsi_v = v }
put rdi v m = record m { rdi_v = v }
put r8 v m = record m { r8_v = v }
put r9 v m = record m { r9_v = v }
put r10 v m = record m { r10_v = v }

-- Addresses are 64 bits wide and wrap.
unfoldable pub up : ℕ → ℕ → ℕ
up a n = (a + n) % 2 ^ 64

unfoldable pub down : ℕ → ℕ → ℕ
down a n = (a + 2 ^ 64 - n) % 2 ^ 64

-- The number in the eight bytes at `a`, the lowest first.
abbrev pub le_word : (ℕ → ℕ) → ℕ → ℕ
le_word code a =
    code a
    + code (a + 1) * 2 ^ 8
    + code (a + 2) * 2 ^ 16
    + code (a + 3) * 2 ^ 24
    + code (a + 4) * 2 ^ 32
    + code (a + 5) * 2 ^ 40
    + code (a + 6) * 2 ^ 48
    + code (a + 7) * 2 ^ 56

-- The register in the low three bits of an opcode, without and with REX.B.
abbrev low_reg : ℕ → Option Reg
low_reg n =
    if n == 0
    then some rax
    else if n == 2
    then some rdx
    else if n == 6
    then some rsi
    else if n == 7
    then some rdi
    else none

abbrev high_reg : ℕ → Option Reg
high_reg n =
    if n == 0 then some r8 else if n == 1 then some r9 else if n == 2 then some r10 else none

-- An instruction with its length.
abbrev sized : ℕ → (Reg → Instr) → Option Reg → Option (Instr × ℕ)
sized n f none = none
sized n f (some r) = some (f r, n)

-- Opcodes 50+r and 58+r.
abbrev push_or_pop : ℕ → (ℕ → Option Reg) → ℕ → Option (Instr × ℕ)
push_or_pop n regs op =
    if leb 0x50 op && leb op 0x57
    then sized n push (regs (op - 0x50))
    else if leb 0x58 op && leb op 0x5f
    then sized n pop (regs (op - 0x58))
    else none

-- An 8-bit immediate or displacement that is not negative.
abbrev small : (ℕ → Instr) → ℕ → ℕ → Option (Instr × ℕ)
small f n b = if leb b 0x7f then some (f b, n) else none

unfoldable pub decode : (ℕ → ℕ) → ℕ → Option (Instr × ℕ)
decode code a =
    let b = code a in
    let b1 = code (a + 1) in
    let b2 = code (a + 2) in
    if b == 0x90
    then some (nop, 1)
    else if b == 0xc3
    then some (ret, 1)
    else if b == 0x41 && b1 == 0xff && b2 == 0xd3
    then some (call_r11, 3)
    else if b == 0x41
    then push_or_pop 2 high_reg b1
    else if b == 0x48 && b1 == 0x83 && b2 == 0xec
    then small sub_rsp 4 (code (a + 3))
    else if b == 0x48 && b1 == 0x83 && b2 == 0xc4
    then small add_rsp 4 (code (a + 3))
    else if b == 0x48 && b1 == 0x8d && b2 == 0x7c && code (a + 3) == 0x24
    then small lea_rdi 5 (code (a + 4))
    else if b == 0x49 && b1 == 0xbb
    then some (mov_r11 (le_word code (a + 2)), 10)
    else push_or_pop 1 low_reg b

abbrev pub push_word : ℕ → Machine → Machine
push_word v m = record m { rsp = down m.rsp 8; stack = update m.stack (down m.rsp 8) v }

-- rip points behind the instruction while it executes.
abbrev pub execute : Instr → Machine → Machine
execute nop m = m
execute (push r) m = push_word (get r m) m
execute (pop r) m = put r (m.stack m.rsp) (record m { rsp = up m.rsp 8 })
execute (add_rsp n) m = record m { rsp = up m.rsp n }
execute (sub_rsp n) m = record m { rsp = down m.rsp n }
execute (lea_rdi n) m = record m { rdi_v = up m.rsp n }
execute (mov_r11 n) m = record m { r11_v = n }
execute call_r11 m = record (push_word m.rip m) { rip = m.r11_v }
execute ret m = record m { rip = m.stack m.rsp; rsp = up m.rsp 8 }

abbrev pub behind : ℕ → Machine → Machine
behind n m = record m { rip = m.rip + n }

unfoldable pub step : (ℕ → ℕ) → Machine → Option Machine
step code m = do r ← decode code m.rip; some (execute r.0 (behind r.1 m))

-- Code that is compiled apart, such as `hook_entry`: where rip is its address, it runs to its end.
unfoldable pub step_with : (ℕ → ℕ) → ℕ → (Machine → Machine) → Machine → Option Machine
step_with code hook_entry_addr callee m =
    if m.rip == hook_entry_addr then some (callee m) else step code m

unfoldable pub run : (ℕ → ℕ) → ℕ → (Machine → Machine) → ℕ → Machine → Option Machine
run code hook_entry_addr callee zero m = some m
run code hook_entry_addr callee (suc n) m = do
  m ← step_with code hook_entry_addr callee m
  run code hook_entry_addr callee n m
