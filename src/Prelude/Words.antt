-- ===== src/Prelude/Words.antt =====
-- Machine integers as bit patterns: a value of a w-bit type, signed or not, is a number below
-- 2 ^ w. A Rust `as` between them is one of the functions below.
use Prim.Native.Nat.{ℕ, ◌+◌, ◌-◌, ◌%◌, ◌^◌, ◌<◌}
use mathlib.Core.Path.{◌≡◌}
use native.Mathlib.Omega.{arith}
use zpoline_rs.Prelude.Tests.{ltb, if◌then◌else◌}

-- The low 32 bits: `as c_int`, `as pid_t`, `as c_uint` and `as u32` of a 64-bit value.
abbrev pub low_32 : ℕ → ℕ
low_32 x = x % 2 ^ 32

-- `as u64` or `as i64` of an i32: the sign bit is copied into the upper half.
abbrev pub sign_extend : ℕ → ℕ
sign_extend x = if ltb x (2 ^ 31) then x else x + (2 ^ 64 - 2 ^ 32)

-- The 64-bit pattern that is left of `x` after a pass through a c_int.
abbrev pub through_c_int : ℕ → ℕ
through_c_int x = sign_extend (low_32 x)

pub through_c_int-lt : (x : ℕ) → through_c_int x < 2 ^ 64
through_c_int-lt x = ground arith

pub through_c_int_idem : (x : ℕ) → through_c_int (through_c_int x) ≡ through_c_int x
through_c_int_idem x = ground arith

-- usize and u64 arithmetic of a release build.
abbrev pub add_64 : ℕ → ℕ → ℕ
add_64 a b = (a + b) % 2 ^ 64

abbrev pub sub_64 : ℕ → ℕ → ℕ
sub_64 a b = (a + 2 ^ 64 - b) % 2 ^ 64
