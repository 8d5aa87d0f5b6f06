-- ===== src/Rewriter/Config.antt =====
-- zpoline_rewriter/src/rewriter.rs: `RewriteConfig`. The set of paths is a list without two paths that
-- are equal; the order in which a HashSet is read does not matter to `is_excluded`.
pub mod Excluded
use zpoline_rs.Prelude.{
  ℕ, Bool, true, false, ◌&&◌, ◌||◌, List, [], ◌∷◌, ◌++◌, Option, none, some, ltb, if◌then◌else◌,
}
use zpoline_rs.Rewriter.Region.{MemoryRegion}
use zpoline_rs.Rewriter.FilePath.{path_starts_with, path_eq}

pub record RewriteConfig : Type 0 where
  pub exclude_paths : List (List ℕ)
  pub exclude_ranges : List (ℕ × ℕ)
  pub dry_run : Bool

-- `RewriteConfig::new` and `default`.
abbrev pub new_config : RewriteConfig
new_config = record { exclude_paths = []; exclude_ranges = []; dry_run = false }

abbrev pub contains_path : List ℕ → List (List ℕ) → Bool
contains_path p [] = false
contains_path p (q ∷ qs) = path_eq p q || contains_path p qs

-- `exclude_path`, `exclude_range`, and the builder `dry_run`.
unfoldable pub exclude_path : RewriteConfig → List ℕ → RewriteConfig
exclude_path c p =
    if contains_path p c.exclude_paths
    then c
    else record c { exclude_paths = c.exclude_paths ++ p ∷ [] }

unfoldable pub exclude_range : RewriteConfig → ℕ → ℕ → RewriteConfig
exclude_range c start end = record c { exclude_ranges = c.exclude_ranges ++ (start, end) ∷ [] }

abbrev pub set_dry_run : RewriteConfig → Bool → RewriteConfig
set_dry_run c enabled = record c { dry_run = enabled }

-- The two loops of `is_excluded`.
unfoldable pub path_excluded : List (List ℕ) → List ℕ → Bool
path_excluded [] path = false
path_excluded (e ∷ es) path =
    if path_starts_with path e || path_eq path e then true else path_excluded es path

unfoldable pub range_excluded : List (ℕ × ℕ) → MemoryRegion → Bool
range_excluded [] r = false
range_excluded ((exclude_start, exclude_end) ∷ es) r =
    if ltb r.start exclude_end && ltb exclude_start r.end then true else range_excluded es r

abbrev pub named_excluded : List (List ℕ) → Option (List ℕ) → Bool
named_excluded es none = false
named_excluded es (some path) = path_excluded es path

unfoldable pub is_excluded : RewriteConfig → MemoryRegion → Bool
unfolding path_excluded range_excluded
is_excluded c r =
    if named_excluded c.exclude_paths r.pathname then true else range_excluded c.exclude_ranges r
