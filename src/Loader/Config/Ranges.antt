-- ===== src/Loader/Config/Ranges.antt =====
-- The ranges and the mode of the configuration that the loader builds.
use zpoline_rs.Prelude.{
  ℕ, ◌≡◌, refl, ◌∙◌, false, List, [], ◌∷◌, Option, none, some, add_64, Bool-cases, inl, inr,
}
use zpoline_rs.Rewriter.Config.{
  RewriteConfig, new_config, contains_path, exclude_path, exclude_range,
}
use zpoline_rs.Loader.Config.{
  Surroundings, exclude_each, exclude_beside, exclude_loader, exclude_variable, parent,
  build_rewrite_config,
}

-- Two configurations with the same ranges and the same mode.
pub record SameRanges (c d : RewriteConfig) : Type 0 where
  pub ranges_lem : c.exclude_ranges ≡ d.exclude_ranges
  pub mode_lem : c.dry_run ≡ d.dry_run

exclude_path-SameRanges : (c : RewriteConfig) (p : List ℕ) → SameRanges (exclude_path c p) c
unfolding exclude_path
exclude_path-SameRanges c p = elim (Bool-cases (contains_path p c.exclude_paths)) [
  | inl old ↦ record { ranges_lem = rw old refl; mode_lem = rw old refl }
  | inr new ↦ record { ranges_lem = rw new refl; mode_lem = rw new refl }
]

exclude_each-SameRanges :
    (ps : List (List ℕ)) (c : RewriteConfig) → SameRanges (exclude_each ps c) c
unfolding exclude_each
exclude_each-SameRanges [] c = record { ranges_lem = refl; mode_lem = refl }
exclude_each-SameRanges ([] ∷ ps) c = exclude_each-SameRanges ps c
exclude_each-SameRanges ((x ∷ xs) ∷ ps) c =
    let rest = exclude_each-SameRanges ps (exclude_path c (x ∷ xs)) in
    let one = exclude_path-SameRanges c (x ∷ xs) in
    record {
      ranges_lem = rest.ranges_lem ∙ one.ranges_lem;
      mode_lem = rest.mode_lem ∙ one.mode_lem;
    }

exclude_loader-SameRanges :
    (o : Option (List ℕ)) (c : RewriteConfig) → SameRanges (exclude_loader o c) c
exclude_loader-SameRanges none c = record { ranges_lem = refl; mode_lem = refl }
exclude_loader-SameRanges (some exe) c = exclude_beside-SameRanges (parent exe) c
  where
    exclude_beside-SameRanges :
        (o : Option (List ℕ)) (c : RewriteConfig) → SameRanges (exclude_beside o c) c
    exclude_beside-SameRanges none c = record { ranges_lem = refl; mode_lem = refl }
    exclude_beside-SameRanges (some dir) c = exclude_path-SameRanges c _

exclude_variable-SameRanges :
    (o : Option (List ℕ)) (c : RewriteConfig) → SameRanges (exclude_variable o c) c
exclude_variable-SameRanges none c = record { ranges_lem = refl; mode_lem = refl }
exclude_variable-SameRanges (some text) c = exclude_each-SameRanges _ c

pub build_rewrite_config-ranges :
    (s : Surroundings)
    → (build_rewrite_config s).exclude_ranges
      ≡ (s.raw_syscall_addr, add_64 s.raw_syscall_addr 4096) ∷ (0, 65536) ∷ []
unfolding build_rewrite_config exclude_range
build_rewrite_config-ranges s =
    let last = exclude_variable-SameRanges s.zpoline_exclude _ in
    let first = exclude_loader-SameRanges s.current_exe new_config in
    last.ranges_lem ∙ rw first.ranges_lem refl

pub build_rewrite_config-mode : (s : Surroundings) → (build_rewrite_config s).dry_run ≡ false
unfolding build_rewrite_config exclude_range
build_rewrite_config-mode s =
    let last = exclude_variable-SameRanges s.zpoline_exclude _ in
    let first = exclude_loader-SameRanges s.current_exe new_config in
    last.mode_lem ∙ rw first.mode_lem refl
