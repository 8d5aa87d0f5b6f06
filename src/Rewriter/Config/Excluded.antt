-- ===== src/Rewriter/Config/Excluded.antt =====
-- Which regions are excluded, said without the code's loops and tests.
use Prim.Native.Nat.{max}
use zpoline_rs.Prelude.{
  ℕ, ◌≤◌, ◌<◌, ◌≡◌, ◌↔◌, ◌⊎◌, inl, inr, true, List, [], ◌∷◌, ◌++◌, Option, none, some, arith,
  Bool-cases, ltb, ◌&&◌,
}
use zpoline_rs.Rewriter.Region.{MemoryRegion}
use zpoline_rs.Rewriter.FilePath.{
  Component, components, has_prefix, has_prefix_iff, same_components-has_prefix,
}
use zpoline_rs.Rewriter.Config.{
  RewriteConfig, path_excluded, named_excluded, range_excluded, is_excluded,
}

-- The path lies at or below an entry of the list.
pub data BelowOne (path : List ℕ) : List (List ℕ) → Type 0 where
  here :
      {e : List ℕ} {es : List (List ℕ)} (rest : List Component)
      → components path ≡ components e ++ rest
      → BelowOne path (e ∷ es)
  there : {e : List ℕ} {es : List (List ℕ)} → BelowOne path es → BelowOne path (e ∷ es)

-- Some address lies in the region and in a range of the list; both are half open.
pub data MeetsOne (r : MemoryRegion) : List (ℕ × ℕ) → Type 0 where
  meets :
      {lo hi : ℕ} {es : List (ℕ × ℕ)} (a : ℕ)
      → r.start ≤ a
      → a < r.end
      → lo ≤ a
      → a < hi
      → MeetsOne r ((lo, hi) ∷ es)
  later : {e : ℕ × ℕ} {es : List (ℕ × ℕ)} → MeetsOne r es → MeetsOne r (e ∷ es)

-- Every range has an address.
abbrev pub NoneEmpty : List (ℕ × ℕ) → Type 0
NoneEmpty [] = Unit
NoneEmpty ((lo, hi) ∷ es) = (lo < hi) × NoneEmpty es

path_excluded-BelowOne :
    (es : List (List ℕ)) (path : List ℕ) → path_excluded es path ≡ true → BelowOne path es
unfolding path_excluded
path_excluded-BelowOne [] path h = cc
path_excluded-BelowOne (e ∷ es) path h =
    elim (Bool-cases (has_prefix (components path) (components e))) [
      | inl yes_prefix ↦ let (rest, eq) = (has_prefix_iff _ _).0 yes_prefix in here rest eq
      | inr no_prefix ↦ there (
          path_excluded-BelowOne es path
            (ground (arith, same_components-has_prefix (components path) (components e))))
    ]

BelowOne-path_excluded :
    (path : List ℕ) {es : List (List ℕ)} → BelowOne path es → path_excluded es path ≡ true
unfolding path_excluded
BelowOne-path_excluded path (here {e} {es} rest h) =
    rw ((has_prefix_iff (components path) (components e)).1 (rest, h))
BelowOne-path_excluded path (there b) = ground (arith, BelowOne-path_excluded path b)

-- The larger of the two starts is in both, if anything is.
range_excluded-MeetsOne :
    (es : List (ℕ × ℕ)) (r : MemoryRegion)
    → r.start < r.end
    → NoneEmpty es
    → range_excluded es r ≡ true
    → MeetsOne r es
unfolding range_excluded
range_excluded-MeetsOne [] r h k e = cc
range_excluded-MeetsOne ((lo, hi) ∷ es) r h k e =
    elim (Bool-cases (ltb r.start hi && ltb lo r.end)) [
      | inl now ↦ meets (max r.start lo) (omega arith) (ground arith) (omega arith) (ground arith)
      | inr not_now ↦ later (range_excluded-MeetsOne es r h k.1 (rw not_now at e))
    ]

MeetsOne-range_excluded :
    (r : MemoryRegion) {es : List (ℕ × ℕ)} → MeetsOne r es → range_excluded es r ≡ true
unfolding range_excluded
MeetsOne-range_excluded r (meets a p q s t) = ground arith
MeetsOne-range_excluded r (later m) = ground (arith, MeetsOne-range_excluded r m)

-- A path that an anonymous region does not have.
abbrev pub NamedBelowOne : Option (List ℕ) → List (List ℕ) → Type 0
NamedBelowOne none es = ⊥
NamedBelowOne (some path) es = BelowOne path es

named_excluded_iff :
    (es : List (List ℕ)) (o : Option (List ℕ)) → (named_excluded es o ≡ true) ↔ NamedBelowOne o es
named_excluded_iff es none = ((λ h. cc), (λ b. absurd b))
named_excluded_iff es (some path) =
    (path_excluded-BelowOne es path, (λ b. BelowOne-path_excluded path b))

-- A region that is not empty is excluded exactly when its file lies at or below an excluded path,
-- component by component, or it shares an address with an excluded range. No range is empty.
pub is_excluded_iff :
    (c : RewriteConfig) (r : MemoryRegion)
    → r.start < r.end
    → NoneEmpty c.exclude_ranges
    → (is_excluded c r ≡ true)
      ↔ (NamedBelowOne r.pathname c.exclude_paths ⊎ MeetsOne r c.exclude_ranges)
unfolding is_excluded
is_excluded_iff c r h k = (
  (λ e. elim (Bool-cases (named_excluded c.exclude_paths r.pathname)) [
    | inl named ↦ inl ((named_excluded_iff c.exclude_paths r.pathname).0 named)
    | inr unnamed ↦ inr (range_excluded-MeetsOne c.exclude_ranges r h k (rw unnamed at e))
  ]),
  (λ d. elim d [
    | inl b ↦ rw ((named_excluded_iff c.exclude_paths r.pathname).1 b)
    | inr m ↦ ground (arith, MeetsOne-range_excluded r m)
  ]),
)
