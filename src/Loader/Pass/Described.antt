-- ===== src/Loader/Pass/Described.antt =====
-- zpoline_loader/src/init.rs: a description of the memory behind the pass, read off the memory before
-- it.
use mathlib.Core.Path.{fun_ext}
use zpoline_rs.Prelude.{
  ℕ, ◌+◌, ◌^◌, ◌≤◌, ◌<◌, ◌≡◌, inl, inr, refl, sym, ap, ◌∙◌, List, [], ◌∷◌, Option, none, some,
  arith, ltb, if◌then◌else◌, Bool-cases,
}
use zpoline_rs.Rewriter.Region.{MemoryRegion, size}
use zpoline_rs.Rewriter.Config.{RewriteConfig}
use zpoline_rs.Rewriter.Decoder.{Decoder, FollowsDocs}
use zpoline_rs.Rewriter.Find.{SyscallType, find_syscalls}
use zpoline_rs.Rewriter.Find.Spaced.{Spaced, find_syscalls-Spaced}
use zpoline_rs.Rewriter.Rewrite.Patched.{patched}
use zpoline_rs.Loader.Pass.Protected.{contains_addr, is_spared}

-- The regions of /proc/self/maps: in order, none of them empty, none overlapping the next, and with
-- their pages below 2 ^ 64.
abbrev pub InOrder : ℕ → ℕ → List MemoryRegion → Type 0
InOrder ps lo [] = Unit
InOrder ps lo (r ∷ regions) =
    (lo ≤ r.start) × (r.start < r.end) × (r.end + ps ≤ 2 ^ 64) × InOrder ps r.end regions

abbrev or_nothing : {A : Type 0} → Option (List A) → List A
or_nothing none = []
or_nothing (some xs) = xs

patched_same :
    (f g : ℕ → ℕ) (start : ℕ) (xs : List (ℕ × SyscallType)) (a : ℕ)
    → ((x : ℕ) → start ≤ x → g x ≡ f x)
    → start ≤ a
    → patched g start xs a ≡ patched f start xs a
unfolding patched
patched_same f g start [] a h l = h a l
patched_same f g start ((offset, kind) ∷ xs) a h l =
    rw (h (start + offset) (omega arith), h (start + (offset + 1)) (omega arith))
      (rw (patched_same f g start xs a h l) refl)

module _ {D : Type 0} (decoder : Decoder D) where
  -- The places that the search finds in a region of a memory.
  abbrev pub calls_in : MemoryRegion → (ℕ → ℕ) → List (ℕ × SyscallType)
  calls_in r f =
      or_nothing
        (find_syscalls decoder r.start (record { len = size r; byte = λ i. f (r.start + i) }))

  pub calls_in-Spaced :
      (docs : FollowsDocs decoder) (ps : ℕ) (r : MemoryRegion) (f : ℕ → ℕ)
      → 0 < ps
      → r.start < r.end
      → r.end + ps ≤ 2 ^ 64
      → Spaced 0 (size r) (calls_in r f)
  calls_in-Spaced docs ps r f page order top =
      let (xs, run, s) =
        find_syscalls-Spaced decoder docs r.start
          (record { len = size r; byte = λ i. f (r.start + i) }) (omega arith) in
      rw run s

  -- The byte at `a` behind the pass, read off the memory before: the region that has the address is
  -- spared, or the calls that the search finds in it are patched.
  unfoldable pub rewritten : RewriteConfig → List MemoryRegion → (ℕ → ℕ) → ℕ → ℕ
  rewritten c [] f a = f a
  rewritten c (r ∷ regions) f a =
      let rest = rewritten c regions f a in
      if contains_addr r a
      then if is_spared c r then f a else patched f r.start (calls_in r f) a
      else rest

  pub calls_same :
      (r : MemoryRegion) (f g : ℕ → ℕ)
      → ((x : ℕ) → r.start ≤ x → g x ≡ f x)
      → calls_in r g ≡ calls_in r f
  calls_same r f g h =
      ap (λ b. or_nothing (find_syscalls decoder r.start (record { len = size r; byte = b })))
        (fun_ext (λ i. h (r.start + i) (omega arith)))

  module _ (ps : ℕ) (c : RewriteConfig) where
    rewritten_below :
        (lo : ℕ) (regions : List MemoryRegion) (f : ℕ → ℕ) (a : ℕ)
        → InOrder ps lo regions
        → a < lo
        → rewritten c regions f a ≡ f a
    unfolding rewritten
    rewritten_below lo [] f a o h = refl
    rewritten_below lo (r ∷ regions) f a (l, s, t, o) h =
        ground (arith, rewritten_below r.end regions f a o (omega arith))

    rewritten_above :
        (lo : ℕ) (regions : List MemoryRegion) (f g : ℕ → ℕ) (a : ℕ)
        → InOrder ps lo regions
        → ((x : ℕ) → lo ≤ x → g x ≡ f x)
        → lo ≤ a
        → rewritten c regions g a ≡ rewritten c regions f a
    unfolding rewritten
    rewritten_above lo [] f g a o h l = h a l
    rewritten_above lo (r ∷ regions) f g a (m, s, t, o) h l =
        let above : (x : ℕ) → r.start ≤ x → g x ≡ f x = λ x k. h x (omega arith) in
        let calls = calls_same r f g above in
        elim (Bool-cases (contains_addr r a)) [
          | inl inside ↦
              let same = patched_same f g r.start (calls_in r g) a above (ground arith) in
              rw (inside, h a l, same, calls) refl
          | inr outside ↦ elim (Bool-cases (ltb a r.end)) [
            | inl before ↦ rw outside (
                rewritten_below r.end regions g a o (ground arith)
                ∙ h a l
                ∙ sym (rewritten_below r.end regions f a o (ground arith)))
            | inr behind ↦
                rw outside
                  (rewritten_above r.end regions f g a o (λ x k. h x (omega arith)) (ground arith))
          ]
        ]

    -- The rest of the pass reads what the region's own step does not change.
    pub rewritten-step :
        (r : MemoryRegion) (regions : List MemoryRegion) (f g : ℕ → ℕ)
        → InOrder ps r.end regions
        → r.start < r.end
        → ((a : ℕ)
            → g a ≡ (
                if contains_addr r a
                then if is_spared c r then f a else patched f r.start (calls_in r f) a
                else f a))
        → (a : ℕ) → rewritten c regions g a ≡ rewritten c (r ∷ regions) f a
    unfolding rewritten
    rewritten-step r regions f g o s h a = elim (Bool-cases (ltb a r.end)) [
      | inl before ↦
          rewritten_below r.end regions g a o (ground arith)
          ∙ h a
          ∙ ground (arith, rewritten_below r.end regions f a o)
      | inr behind ↦
          rewritten_above r.end regions f g a o (λ x k. h x ∙ ground arith) (ground arith)
          ∙ ground arith
    ]
