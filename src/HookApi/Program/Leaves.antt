-- ===== src/HookApi/Program/Leaves.antt =====
-- What a program gives, whatever the kernel answers it.
use zpoline_rs.Prelude.{ℕ}
use zpoline_rs.HookApi.Program.{Program, done, raw_call, libc_call, unreachable, ◌>>=◌}

-- Whatever the kernel answers, what the program gives has the property.
abbrev pub Leaves : {A : Type 0} → (A → Type 0) → Program A → Type 0
Leaves P (done a) = P a
Leaves P (raw_call r next) = (v : ℕ) → Leaves P (next v)
Leaves P (libc_call r next) = (v : ℕ) → Leaves P (next v)
Leaves P unreachable = Unit

pub bind-Leaves :
    {A B : Type 0} (P : A → Type 0) (Q : B → Type 0) (p : Program A) (f : A → Program B)
    → Leaves P p
    → ((a : A) → P a → Leaves Q (f a))
    → Leaves Q (p >>= f)
bind-Leaves P Q (done a) f h k = k a h
bind-Leaves P Q (raw_call r next) f h k = λ v. bind-Leaves P Q (next v) f (h v) k
bind-Leaves P Q (libc_call r next) f h k = λ v. bind-Leaves P Q (next v) f (h v) k
bind-Leaves P Q unreachable f h k = tt

pub after-Leaves :
    {A B : Type 0} (Q : B → Type 0) (p : Program A) (f : A → Program B)
    → ((a : A) → Leaves Q (f a))
    → Leaves Q (p >>= f)
after-Leaves Q (done a) f k = k a
after-Leaves Q (raw_call r next) f k = λ v. after-Leaves Q (next v) f k
after-Leaves Q (libc_call r next) f k = λ v. after-Leaves Q (next v) f k
after-Leaves Q unreachable f k = tt
