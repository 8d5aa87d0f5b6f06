-- ===== src/Rewriter/Rewrite/Patched.antt =====
-- The loop over the replacements against a description of the memory that it leaves.
use zpoline_rs.Prelude.{
  ℕ, suc, ◌+◌, ◌≤◌, ◌≡◌, refl, Bool, ◌&&◌, List, [], ◌∷◌, arith, ◌==◌, if◌then◌else◌,
}
use zpoline_rs.Slice.{update}
use zpoline_rs.Rewriter.Find.{SyscallType}
use zpoline_rs.Rewriter.Find.Spaced.{Spaced}
use zpoline_rs.Rewriter.Rewrite.{RewriteStats, count_kind, is_second}

-- The bytes at the offset are 0f 05 or 0f 34.
abbrev pub hits : (ℕ → ℕ) → ℕ → ℕ → Bool
hits f start offset = f (start + offset) == 0x0f && is_second (f (start + (offset + 1)))

-- The byte at `a` once every offset of the list that hits has ff d0, read off the memory before.
unfoldable pub patched : (ℕ → ℕ) → ℕ → List (ℕ × SyscallType) → ℕ → ℕ
patched f start [] a = f a
patched f start ((offset, kind) ∷ xs) a =
    let rest = patched f start xs a in
    if hits f start offset
    then if a == start + offset then 0xff else if a == start + (offset + 1) then 0xd0 else rest
    else rest

-- How many offsets hit, and what the counters are then.
unfoldable pub count_hits : (ℕ → ℕ) → ℕ → List (ℕ × SyscallType) → ℕ
count_hits f start [] = 0
count_hits f start ((offset, kind) ∷ xs) =
    let rest = count_hits f start xs in if hits f start offset then suc rest else rest

unfoldable pub counted : (ℕ → ℕ) → ℕ → List (ℕ × SyscallType) → RewriteStats → RewriteStats
counted f start [] s = s
counted f start ((offset, kind) ∷ xs) s =
    counted f start xs (if hits f start offset then count_kind kind s else s)

-- Memory with one call written.
abbrev pub with_call : (ℕ → ℕ) → ℕ → ℕ → ℕ → ℕ
with_call f start offset = update (update f (start + offset) 0xff) (start + (offset + 1)) 0xd0

pub hits-with_call :
    (f : ℕ → ℕ) (start o offset : ℕ)
    → o + 2 ≤ offset
    → hits (with_call f start o) start offset ≡ hits f start offset
hits-with_call f start o offset h = ground arith

pub patched-with_call :
    (f : ℕ → ℕ) (start o lo hi : ℕ) (xs : List (ℕ × SyscallType)) (a : ℕ)
    → o + 2 ≤ lo
    → Spaced lo hi xs
    → patched (with_call f start o) start xs a ≡ (
        if a == start + o
        then 0xff
        else if a == start + (o + 1)
        then 0xd0
        else patched f start xs a)
unfolding patched
patched-with_call f start o lo hi [] a h s = ground arith
patched-with_call f start o lo hi ((offset, kind) ∷ xs) a h (p, q, s) =
    rw (hits-with_call f start o offset (omega arith))
      (rw (patched-with_call f start o (offset + 2) hi xs a (omega arith) s) (ground arith))

pub count_hits-with_call :
    (f : ℕ → ℕ) (start o lo hi : ℕ) (xs : List (ℕ × SyscallType))
    → o + 2 ≤ lo
    → Spaced lo hi xs
    → count_hits (with_call f start o) start xs ≡ count_hits f start xs
unfolding count_hits
count_hits-with_call f start o lo hi [] h s = refl
count_hits-with_call f start o lo hi ((offset, kind) ∷ xs) h (p, q, s) = rw (
  hits-with_call f start o offset (omega arith),
  count_hits-with_call f start o (offset + 2) hi xs (omega arith) s,
)

pub counted-with_call :
    (f : ℕ → ℕ) (start o lo hi : ℕ) (xs : List (ℕ × SyscallType)) (t : RewriteStats)
    → o + 2 ≤ lo
    → Spaced lo hi xs
    → counted (with_call f start o) start xs t ≡ counted f start xs t
unfolding counted
counted-with_call f start o lo hi [] t h s = refl
counted-with_call f start o lo hi ((offset, kind) ∷ xs) t h (p, q, s) =
    rw (hits-with_call f start o offset (omega arith))
      (counted-with_call f start o (offset + 2) hi xs _ (omega arith) s)
