-- ===== src/Slice.antt =====
-- `&mut [u8]`: a write out of bounds is a panic, `none` here.
use zpoline_rs.Prelude.{ℕ, ◌+◌, ◌-◌, ◌<◌, Option, none, some, ltb, leb, ◌==◌, if◌then◌else◌}

pub record Slice : Type 0 where
  pub len : ℕ
  pub byte : ℕ → ℕ

infixl 5 ◌>>=◌
abbrev pub ◌>>=◌ : {A B : Type 0} → Option A → (A → Option B) → Option B
none >>= f = none
some a >>= f = f a

abbrev pub update : (ℕ → ℕ) → ℕ → ℕ → ℕ → ℕ
update f i v j = if j == i then v else f j

-- `mem[i] = v`.
unfoldable pub write : ℕ → ℕ → Slice → Option Slice
write i v mem = if ltb i mem.len then some (record mem { byte = update mem.byte i v }) else none

-- `&mem[from..]`, and what `mem` is once that part has been written.
unfoldable pub tail_from : ℕ → Slice → Option Slice
tail_from from mem =
    if leb from mem.len
    then some (record { len = mem.len - from; byte = λ i. mem.byte (from + i) })
    else none

unfoldable pub put_tail : ℕ → Slice → Slice → Slice
put_tail from mem part = record mem {
  byte = λ i. if ltb i from then mem.byte i else part.byte (i - from);
}

-- A memory of bytes.
abbrev pub AreBytes : (ℕ → ℕ) → Type 0
AreBytes f = (a : ℕ) → f a < 256

-- If there is no panic, the result has the property.
abbrev pub IfSome : {A : Type 0} → (A → Type 0) → Option A → Type 0
IfSome P none = Unit
IfSome P (some a) = P a

pub chain-IfSome :
    {A B : Type 0} (P : A → Type 0) (Q : B → Type 0) (x : Option A) (f : A → Option B)
    → IfSome P x
    → ((a : A) → P a → IfSome Q (f a))
    → IfSome Q (x >>= f)
chain-IfSome P Q none f h k = tt
chain-IfSome P Q (some a) f h k = k a h
