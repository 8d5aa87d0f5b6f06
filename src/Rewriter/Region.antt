-- ===== src/Rewriter/Region.antt =====
-- zpoline_rewriter/src/maps.rs: `MemoryRegion`. Texts are lists of code points.
use zpoline_rs.Prelude.{ℕ, Bool, List, Option, sub_64}

pub record MemoryRegion : Type 0 where
  pub start : ℕ
  pub end : ℕ
  pub readable : Bool
  pub writable : Bool
  pub executable : Bool
  pub private : Bool
  pub offset : ℕ
  pub device : List ℕ
  pub inode : ℕ
  pub pathname : Option (List ℕ)

abbrev pub is_executable : MemoryRegion → Bool
is_executable r = r.executable

abbrev pub is_writable : MemoryRegion → Bool
is_writable r = r.writable

-- `size`: the subtraction wraps.
abbrev pub size : MemoryRegion → ℕ
size r = sub_64 r.end r.start
