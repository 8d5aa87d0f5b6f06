-- ===== src/Rewriter/Sample.antt =====
-- A decoder, a region and its memory for tests.
use zpoline_rs.Prelude.{
  ℕ, ◌+◌, refl, true, false, ◌&&◌, ◌||◌, [], ◌∷◌, some, arith, ltb, ◌==◌, add_64, if◌then◌else◌,
}
use zpoline_rs.Slice.{Slice}
use zpoline_rs.Rewriter.Region.{MemoryRegion}
use zpoline_rs.Rewriter.Decoder.{Mnemonic, syscall, sysenter, other, Decoder, FollowsDocs}
use zpoline_rs.Rewriter.World.{read_exec, World}

-- A decoder for code whose instructions are nop, syscall and sysenter.
pub record Cursor : Type 0 where
  pub text : Slice
  pub base_addr : ℕ
  pub place : ℕ

abbrev pub second_byte : Cursor → Mnemonic
second_byte d =
    if d.text.byte (d.place + 1) == 0x05
    then syscall
    else if d.text.byte (d.place + 1) == 0x34
    then sysenter
    else other

abbrev pub kind_at : Cursor → Mnemonic
kind_at d =
    if ltb (d.place + 1) d.text.len && d.text.byte d.place == 0x0f then second_byte d else other

abbrev pub width_of : Mnemonic → ℕ
width_of syscall = 2
width_of sysenter = 2
width_of other = 1

abbrev pub nop_decoder : Decoder Cursor
nop_decoder = record {
  with_ip = λ c b. record { text = c; base_addr = b; place = 0 };
  can_decode = λ d. ltb d.place d.text.len;
  decode = λ d. record {
    mnemonic = kind_at d;
    ip = add_64 d.base_addr d.place;
    len = width_of (kind_at d);
  };
  after = λ d. record d {
    place = if ltb d.place d.text.len then d.place + width_of (kind_at d) else d.place;
  };
}

pub nop_decoder-FollowsDocs : FollowsDocs nop_decoder
nop_decoder-FollowsDocs = record {
  code = λ d. d.text;
  base = λ d. d.base_addr;
  position = λ d. d.place;
  starts_code = λ c b. refl;
  starts_base = λ c b. refl;
  starts_position = λ c b. refl;
  can_decode_lem = λ d. refl;
  keeps_code = λ d. refl;
  keeps_base = λ d. refl;
  decode_ip = λ d. refl;
  advances = λ d h. rw h refl;
  takes_bytes = λ d h. ground arith;
  stays_inside = λ d h. ground arith;
  syscall_bytes = λ d h e. (0, ground arith, ground arith, ground arith);
  sysenter_bytes = λ d h e. (0, ground arith, ground arith, ground arith);
}

-- nop, nop, syscall, nop, sysenter, nop at the bottom of a page, and nops.
abbrev pub text_memory : ℕ → ℕ
text_memory a =
    if a == 0x10002 || a == 0x10005
    then 0x0f
    else if a == 0x10003
    then 0x05
    else if a == 0x10006
    then 0x34
    else 0x90

abbrev pub text_world : World
text_world = record { memory = text_memory; prot = λ _. read_exec }

-- /a
abbrev pub text_region : MemoryRegion
text_region = record {
  start = 0x10000;
  end = 0x10008;
  readable = true;
  writable = false;
  executable = true;
  private = true;
  offset = 0;
  device = [];
  inode = 7;
  pathname = some (47 ∷ 97 ∷ []);
}
