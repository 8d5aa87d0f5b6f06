-- ===== src/Rewriter/Decoder.antt =====
-- The instruction decoder of the crate iced_x86 as a parameter: its interface, and what its
-- documentation says of it.
use zpoline_rs.Prelude.{ℕ, ◌+◌, ◌≤◌, ◌≡◌, Bool, true, ltb, add_64}
use zpoline_rs.Slice.{Slice}

-- The mnemonics that the rewriter looks for; all the others are one.
pub data Mnemonic : Type 0 where
  syscall sysenter other : Mnemonic

pub record Instruction : Type 0 where
  pub mnemonic : Mnemonic
  pub ip : ℕ
  pub len : ℕ

-- `Decoder::with_ip`, `can_decode` and `decode`.
pub record Decoder (D : Type 0) : Type 0 where
  pub with_ip : Slice → ℕ → D
  pub can_decode : D → Bool
  pub decode : D → Instruction
  pub after : D → D

-- The documentation: a decoder stands at a position in its code and can decode while there is a byte
-- left; `decode` takes at least one byte and none behind the end, and gives the address of the
-- instruction's first byte. syscall is 0f 05 and sysenter 0f 34, behind any prefixes.
pub record FollowsDocs {D : Type 0} (decoder : Decoder D) : Type 0 where
  pub code : D → Slice
  pub base : D → ℕ
  pub position : D → ℕ
  pub starts_code : (c : Slice) (b : ℕ) → code (decoder.with_ip c b) ≡ c
  pub starts_base : (c : Slice) (b : ℕ) → base (decoder.with_ip c b) ≡ b
  pub starts_position : (c : Slice) (b : ℕ) → position (decoder.with_ip c b) ≡ 0
  pub can_decode_lem : (d : D) → decoder.can_decode d ≡ ltb (position d) (code d).len
  pub keeps_code : (d : D) → code (decoder.after d) ≡ code d
  pub keeps_base : (d : D) → base (decoder.after d) ≡ base d
  pub decode_ip : (d : D) → (decoder.decode d).ip ≡ add_64 (base d) (position d)
  pub advances :
      (d : D)
      → decoder.can_decode d ≡ true
      → position (decoder.after d) ≡ position d + (decoder.decode d).len
  pub takes_bytes : (d : D) → decoder.can_decode d ≡ true → 1 ≤ (decoder.decode d).len
  pub stays_inside :
      (d : D) → decoder.can_decode d ≡ true → position d + (decoder.decode d).len ≤ (code d).len
  pub syscall_bytes :
      (d : D)
      → decoder.can_decode d ≡ true
      → (decoder.decode d).mnemonic ≡ syscall
      → (n : ℕ) × ((decoder.decode d).len ≡ n + 2)
        × ((code d).byte (position d + n) ≡ 0x0f)
        × ((code d).byte (position d + n + 1) ≡ 0x05)
  pub sysenter_bytes :
      (d : D)
      → decoder.can_decode d ≡ true
      → (decoder.decode d).mnemonic ≡ sysenter
      → (n : ℕ) × ((decoder.decode d).len ≡ n + 2)
        × ((code d).byte (position d + n) ≡ 0x0f)
        × ((code d).byte (position d + n + 1) ≡ 0x34)
