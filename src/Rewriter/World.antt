-- ===== src/Rewriter/World.antt =====
-- The process's memory as the rewriter works on it.
--
-- `mprotect` is the operating system's: a parameter says whether a call is refused, and with which
-- errno; a call that is granted sets the protection of its range, one that is refused changes nothing.
use zpoline_rs.Prelude.{
  ℕ, ◌+◌, ◌≡◌, refl, Bool, true, false, ◌&&◌, Option, none, some, ltb, leb, if◌then◌else◌,
}
use zpoline_rs.Slice.{update}

-- ProtFlags.
pub record Prot : Type 0 where
  pub prot_read : Bool
  pub prot_write : Bool
  pub prot_exec : Bool

abbrev pub read_write_exec : Prot
read_write_exec = record { prot_read = true; prot_write = true; prot_exec = true }

abbrev pub read_exec : Prot
read_exec = record { prot_read = true; prot_write = false; prot_exec = true }

pub record World : Type 0 where
  pub memory : ℕ → ℕ
  pub prot : ℕ → Prot

-- A result, a Rust panic, or a fault of the processor; `endless` says that fuel ran out.
pub data Run (A : Type 0) : Type 0 where
  done : A → Run A
  panicked faulted endless : Run A

infixl 5 ◌>>=◌
abbrev pub ◌>>=◌ : {A B : Type 0} → Run A → (A → Run B) → Run B
done a >>= f = f a
panicked >>= f = panicked
faulted >>= f = faulted
endless >>= f = endless

-- The run ends with a value, and that has the property.
abbrev pub Ends : {A : Type 0} → (A → Type 0) → Run A → Type 0
Ends P (done a) = P a
Ends P _ = ⊥

-- Both branches of a test end as they should.
pub if-Ends :
    {A : Type 0} (P : A → Type 0) (b : Bool) (x y : Run A)
    → (b ≡ true → Ends P x)
    → (b ≡ false → Ends P y)
    → Ends P (if b then x else y)
if-Ends P true x y h h' = h refl
if-Ends P false x y h h' = h' refl

-- If the run ends with a value, that has the property.
abbrev pub IfEnds : {A : Type 0} → (A → Type 0) → Run A → Type 0
IfEnds P (done a) = P a
IfEnds P _ = Unit

pub if-IfEnds :
    {A : Type 0} (P : A → Type 0) (b : Bool) (x y : Run A)
    → (b ≡ true → IfEnds P x)
    → (b ≡ false → IfEnds P y)
    → IfEnds P (if b then x else y)
if-IfEnds P true x y h h' = h refl
if-IfEnds P false x y h h' = h' refl

pub map-IfEnds :
    {A : Type 0} (P Q : A → Type 0) (x : Run A) → IfEnds P x → ((a : A) → P a → Q a) → IfEnds Q x
map-IfEnds P Q (done a) p h = h a p
map-IfEnds P Q panicked p h = tt
map-IfEnds P Q faulted p h = tt
map-IfEnds P Q endless p h = tt

pub bind-IfEnds :
    {A B : Type 0} (P : B → Type 0) (x : Run A) (f : A → Run B)
    → ((a : A) → IfEnds P (f a))
    → IfEnds P (x >>= f)
bind-IfEnds P (done a) f h = h a
bind-IfEnds P panicked f h = tt
bind-IfEnds P faulted f h = tt
bind-IfEnds P endless f h = tt

pub bind-Ends :
    {A B : Type 0} (P : A → Type 0) (Q : B → Type 0) (x : Run A) (f : A → Run B)
    → Ends P x
    → ((a : A) → P a → Ends Q (f a))
    → Ends Q (x >>= f)
bind-Ends P Q (done a) f e h = h a e
bind-Ends P Q panicked f e h = absurd e
bind-Ends P Q faulted f e h = absurd e
bind-Ends P Q endless f e h = absurd e

pub map-Ends :
    {A : Type 0} (P Q : A → Type 0) (x : Run A) → Ends P x → ((a : A) → P a → Q a) → Ends Q x
map-Ends P Q (done a) e h = h a e
map-Ends P Q panicked e h = e
map-Ends P Q faulted e h = e
map-Ends P Q endless e h = e

-- One property holds, and one that holds where the run ends.
pub both-Ends :
    {A : Type 0} (P Q R : A → Type 0) (x : Run A)
    → Ends P x
    → IfEnds Q x
    → ((a : A) → P a → Q a → R a)
    → Ends R x
both-Ends P Q R (done a) e i h = h a e i
both-Ends P Q R panicked e i h = absurd e
both-Ends P Q R faulted e i h = absurd e
both-Ends P Q R endless e i h = absurd e

-- The errno of a call that is refused, for its address, length and protection.
abbrev pub Os : Type 0
Os = World → ℕ → ℕ → Prot → Option ℕ

abbrev within : ℕ → ℕ → ℕ → Bool
within addr len a = leb addr a && ltb a (addr + len)

abbrev pub set_prot : (ℕ → Prot) → ℕ → ℕ → Prot → ℕ → Prot
set_prot f addr len p a = if within addr len a then p else f a

unfoldable pub mprotect : Os → ℕ → ℕ → Prot → World → Option ℕ × World
mprotect os addr len p w = elim (os w addr len p) [
  | none ↦ (none, record w { prot = set_prot w.prot addr len p })
  | some e ↦ (some e, w)
]

-- `slice[i]` and `slice[i] = v` for the slice of `size` bytes at `start`.
unfoldable pub load : ℕ → ℕ → ℕ → World → Run ℕ
load start size i w = if ltb i size then done (w.memory (start + i)) else panicked

unfoldable pub store : ℕ → ℕ → ℕ → ℕ → World → Run World
store start size i v w =
    if ltb i size
    then if (w.prot (start + i)).prot_write
      then done (record w { memory = update w.memory (start + i) v })
      else faulted
    else panicked
