-- ===== src/Rewriter/Find/Spaced.antt =====
-- `find_syscalls` ends, and the offsets that it gives are in order, apart and inside the code.
use mathlib.Core.List.{append_assoc, append-nil}
use zpoline_rs.Prelude.{
  ℕ, zero, suc, ◌+◌, ◌^◌, ◌≤◌, ◌<◌, ◌≡◌, refl, sym, ap, ◌∙◌, true, List, [], ◌∷◌, ◌++◌, some, arith,
  sub_64, Bool-cases, ltb→lt, inl, inr,
}
use zpoline_rs.Slice.{Slice}
use zpoline_rs.Rewriter.Decoder.{Mnemonic, syscall, sysenter, other, Decoder, FollowsDocs}
use zpoline_rs.Rewriter.Find.{SyscallType, found, find_loop, find_syscalls}

-- The offsets lie in [lo, hi), in order, and each has the byte behind it for itself.
abbrev pub Spaced : ℕ → ℕ → List (ℕ × SyscallType) → Type 0
Spaced lo hi [] = Unit
Spaced lo hi ((offset, kind) ∷ rest) =
    (lo ≤ offset) × (offset + 2 ≤ hi) × Spaced (offset + 2) hi rest

pub Spaced_mono :
    (lo lo' hi : ℕ) (xs : List (ℕ × SyscallType)) → lo ≤ lo' → Spaced lo' hi xs → Spaced lo hi xs
Spaced_mono lo lo' hi [] h s = tt
Spaced_mono lo lo' hi ((offset, kind) ∷ rest) h (a, b, s) = (omega arith, b, s)

module _ {D : Type 0} (decoder : Decoder D) (docs : FollowsDocs decoder) where
  open docs use {code, base, position}

  -- An instruction that is found has two bytes at least.
  found-Spaced :
      (d : D) (m : Mnemonic) (rest : List (ℕ × SyscallType))
      → (decoder.decode d).mnemonic ≡ m
      → decoder.can_decode d ≡ true
      → Spaced (position d + (decoder.decode d).len) (code d).len rest
      → Spaced (position d) (code d).len (found m (position d) ++ rest)
  found-Spaced d syscall rest e c s =
      let (n, len, b, b') = docs.syscall_bytes d c e in
      (omega arith, omega (arith, docs.stays_inside d c), Spaced_mono _ _ _ rest (omega arith) s)
  found-Spaced d sysenter rest e c s =
      let (n, len, b, b') = docs.sysenter_bytes d c e in
      (omega arith, omega (arith, docs.stays_inside d c), Spaced_mono _ _ _ rest (omega arith) s)
  found-Spaced d other rest e c s = Spaced_mono _ _ _ rest (omega arith) s

  offset_lem :
      (b : ℕ) (d : D)
      → base d ≡ b
      → b + position d < 2 ^ 64
      → sub_64 (decoder.decode d).ip b ≡ position d
  offset_lem b d e h = rw (docs.decode_ip d, e) (omega arith)

  can_decode-lt : (d : D) → decoder.can_decode d ≡ true → position d < (code d).len
  can_decode-lt d h = ltb→lt (position d) (code d).len (sym (docs.can_decode_lem d) ∙ h)

  -- The fuel lasts if there is one unit for each byte that is left, and one to see the end.
  find_loop_lem :
      (fuel b : ℕ) (acc : List (ℕ × SyscallType)) (d : D)
      → base d ≡ b
      → b + (code d).len ≤ 2 ^ 64
      → position d ≤ (code d).len
      → (code d).len < position d + fuel
      → (xs : List (ℕ × SyscallType)) × (find_loop decoder fuel b acc d ≡ some (acc ++ xs))
        × Spaced (position d) (code d).len xs
  unfolding find_loop
  find_loop_lem zero b acc d e h l k = absurd (omega arith)
  find_loop_lem (suc fuel) b acc d e h l k = elim (Bool-cases (decoder.can_decode d)) [
    | inr stop ↦ ([], rw stop (ap some (sym (append-nil acc))), tt)
    | inl more ↦
        let inside = can_decode-lt d more in
        let here = found (decoder.decode d).mnemonic (position d) in
        let len : (code (decoder.after d)).len ≡ (code d).len =
          ap (λ (s : Slice). s.len) (docs.keeps_code d) in
        let (xs, run, s) =
          find_loop_lem fuel b (acc ++ here) (decoder.after d) (docs.keeps_base d ∙ e) (omega arith)
            (omega (arith, docs.advances d more, docs.stays_inside d more))
            (omega (arith, docs.advances d more, docs.takes_bytes d more)) in
        (
          here ++ xs,
          rw more (rw (offset_lem b d e (omega arith)) (run ∙ ap some (append_assoc acc here xs))),
          found-Spaced d _ xs refl more (rw (docs.advances d more) at (rw len at s)),
        )
  ]

  -- For code that ends below 2 ^ 64 the search ends, and what it gives is in order, no two
  -- instructions overlap, and both bytes of each lie inside the code.
  pub find_syscalls-Spaced :
      (base_addr : ℕ) (c : Slice)
      → base_addr + c.len ≤ 2 ^ 64
      → (xs : List (ℕ × SyscallType)) × (find_syscalls decoder base_addr c ≡ some xs)
        × Spaced 0 c.len xs
  unfolding find_syscalls
  find_syscalls-Spaced base_addr c h =
      let d = decoder.with_ip c base_addr in
      let len : (code d).len ≡ c.len = ap (λ (s : Slice). s.len) (docs.starts_code c base_addr) in
      let (xs, run, s) =
        find_loop_lem (c.len + 1) base_addr [] d (docs.starts_base c base_addr) (omega arith)
          (omega (arith, docs.starts_position c base_addr))
          (omega (arith, docs.starts_position c base_addr)) in
      (xs, run, rw (docs.starts_position c base_addr) at (rw len at s))
