-- ===== src/Loader/Pass/Replaced.antt =====
-- zpoline_loader/src/init.rs: the pass puts `callq *%rax` in the place of a call that the search finds.
use mathlib.Core.List.{Memᴰ}
use mathlib.Core.Path.{subst}
use zpoline_rs.Prelude.{
  ℕ, ◌+◌, ◌^◌, ◌≤◌, ◌<◌, ◌≡◌, refl, sym, ap, true, false, List, [], ◌∷◌, arith, Bool-cases, inl,
  inr,
}
use zpoline_rs.Rewriter.Region.{MemoryRegion, size}
use zpoline_rs.Rewriter.Config.{RewriteConfig}
use zpoline_rs.Rewriter.Decoder.{Decoder, FollowsDocs}
use zpoline_rs.Rewriter.Find.{SyscallType}
use zpoline_rs.Rewriter.Find.Spaced.{Spaced}
use zpoline_rs.Rewriter.Rewrite.Patched.{hits, patched}
use zpoline_rs.Loader.Pass.Protected.{contains_addr, is_spared, SparedAt}
use zpoline_rs.Loader.Pass.Described.{InOrder, calls_in, calls_in-Spaced, rewritten}

-- ff d0 at the place.
abbrev pub HasCall : (ℕ → ℕ) → ℕ → Type 0
HasCall f a = (f a ≡ 0xff) × (f (a + 1) ≡ 0xd0)

found_inside :
    (lo hi o : ℕ) (k : SyscallType) (xs : List (ℕ × SyscallType))
    → Spaced lo hi xs
    → Memᴰ (o, k) xs
    → (lo ≤ o) × (o + 2 ≤ hi)
found_inside lo hi o k [] s m = elim m [ ]
found_inside lo hi o k ((offset, kind) ∷ xs) (p, q, s) (Memᴰ.head e) =
    let same : o ≡ offset = ap (λ x. x.0) e in (omega arith, omega arith)
found_inside lo hi o k ((offset, kind) ∷ xs) (p, q, s) (Memᴰ.tail m) =
    let rest = found_inside (offset + 2) hi o k xs s m in (omega arith, omega arith)

patched-found :
    (f : ℕ → ℕ) (start lo hi o : ℕ) (k : SyscallType) (xs : List (ℕ × SyscallType))
    → Spaced lo hi xs
    → Memᴰ (o, k) xs
    → hits f start o ≡ true
    → HasCall (patched f start xs) (start + o)
unfolding patched
patched-found f start lo hi o k [] s m h = elim m [ ]
patched-found f start lo hi o k ((offset, kind) ∷ xs) (p, q, s) (Memᴰ.head e) h =
    let same : o ≡ offset = ap (λ x. x.0) e in (ground arith, ground arith)
patched-found f start lo hi o k ((offset, kind) ∷ xs) (p, q, s) (Memᴰ.tail m) h =
    let inside = found_inside (offset + 2) hi o k xs s m in
    let rest = patched-found f start (offset + 2) hi o k xs s m h in
    (ground (arith, rest, inside), ground (arith, rest, inside))

pub listed_lem :
    (ps lo : ℕ) (r : MemoryRegion) (regions : List MemoryRegion)
    → InOrder ps lo regions
    → Memᴰ r regions
    → (lo ≤ r.start) × (r.start < r.end) × (r.end + ps ≤ 2 ^ 64)
listed_lem ps lo r [] o m = elim m [ ]
listed_lem ps lo r (x ∷ regions) (l, s, t, o) (Memᴰ.head e) =
    subst (λ y. (lo ≤ y.start) × (y.start < y.end) × (y.end + ps ≤ 2 ^ 64)) (sym e) (l, s, t)
listed_lem ps lo r (x ∷ regions) (l, s, t, o) (Memᴰ.tail m) =
    let (l', s', t') = listed_lem ps x.end r regions o m in (omega arith, s', t')

module _ {D : Type 0} (decoder : Decoder D) (docs : FollowsDocs decoder) (ps : ℕ) (page : 0 < ps)
    (c : RewriteConfig) (r : MemoryRegion) (f : ℕ → ℕ) (o : ℕ) (k : SyscallType)
    (wanted : is_spared c r ≡ false) (found : Memᴰ (o, k) (calls_in decoder r f))
    (hit : hits f r.start o ≡ true) where
  in_region : r.start < r.end → r.end + ps ≤ 2 ^ 64 → r.start + o + 2 ≤ r.end
  in_region order top =
      let inside =
        found_inside 0 (size r) o k _ (calls_in-Spaced decoder docs ps r f page order top) found in
      omega (arith, inside)

  rewritten_head :
      (regions : List MemoryRegion)
      → r.start < r.end
      → r.end + ps ≤ 2 ^ 64
      → HasCall (rewritten decoder c (r ∷ regions) f) (r.start + o)
  unfolding rewritten
  rewritten_head regions order top =
      let spaced = calls_in-Spaced decoder docs ps r f page order top in
      let inside = in_region order top in
      let call = patched-found f r.start 0 (size r) o k _ spaced found hit in
      (ground (arith, call), ground (arith, call))

  -- The bytes at a place that the search finds in a region that is not spared.
  pub rewritten-HasCall :
      (lo : ℕ) (regions : List MemoryRegion)
      → InOrder ps lo regions
      → Memᴰ r regions
      → HasCall (rewritten decoder c regions f) (r.start + o)
  unfolding rewritten
  rewritten-HasCall lo [] order m = elim m [ ]
  rewritten-HasCall lo (x ∷ regions) (l, s, t, order) (Memᴰ.head e) =
      subst (λ y. HasCall (rewritten decoder c (y ∷ regions) f) (r.start + o)) e
        (rewritten_head regions (subst (λ (y : MemoryRegion). y.start < y.end) (sym e) s)
          (subst (λ (y : MemoryRegion). y.end + ps ≤ 2 ^ 64) (sym e) t))
  rewritten-HasCall lo (x ∷ regions) (l, s, t, order) (Memᴰ.tail m) =
      let (lo', s', t') = listed_lem ps x.end r regions order m in
      let rest = rewritten-HasCall x.end regions order m in
      (ground (arith, rest), ground (arith, rest))

-- An address that lies in spared regions only.
pub rewritten-SparedAt :
    {D : Type 0} (decoder : Decoder D) (c : RewriteConfig) (f : ℕ → ℕ) (a : ℕ)
    (regions : List MemoryRegion)
    → SparedAt c a regions
    → rewritten decoder c regions f a ≡ f a
unfolding rewritten
rewritten-SparedAt decoder c f a [] s = refl
rewritten-SparedAt decoder c f a (r ∷ regions) (here, s) =
    let rest = rewritten-SparedAt decoder c f a regions s in
    elim (Bool-cases (contains_addr r a)) [
      | inl inside ↦ rw (inside, here inside) refl
      | inr outside ↦ rw (outside, rest) refl
    ]
