-- ===== src/Loader/Pass/Counted.antt =====
-- zpoline_loader/src/init.rs: what the statistics of the pass count.
use zpoline_rs.Prelude.{
  ℕ, ◌+◌, ◌%◌, ◌^◌, ◌<◌, ◌≡◌, refl, ap, ◌∙◌, Bool, true, false, not, ◌&&◌, List, [], ◌∷◌, arith,
  All, if◌then◌else◌,
}
use zpoline_rs.Rewriter.Region.{MemoryRegion, is_executable}
use zpoline_rs.Rewriter.Config.{RewriteConfig, is_excluded}
use zpoline_rs.Rewriter.Decoder.{Decoder, FollowsDocs}
use zpoline_rs.Rewriter.World.{World, Ends, IfEnds, if-IfEnds, map-IfEnds, both-Ends, Os}
use zpoline_rs.Rewriter.Rewrite.{Result, ok, RewriteStats, Rewriter, new_rewriter, rewrite_region}
use zpoline_rs.Rewriter.Rewrite.Counters.{chain-IfEnds, rewrite_region-counts}
use zpoline_rs.Loader.Config.{Surroundings, build_rewrite_config}
use zpoline_rs.Loader.Pass.{is_special, read_maps, rewrite_each, rewrite_syscalls}
use zpoline_rs.Loader.Pass.Protected.{WellPlaced, rewrite_syscalls-AllKept}

-- A region that the rewriter is given, and one that the configuration then excludes.
abbrev pub is_given : MemoryRegion → Bool
is_given r = is_executable r && not (is_special r.pathname)

abbrev pub is_left_out : RewriteConfig → MemoryRegion → Bool
is_left_out c r = is_given r && is_excluded c r

abbrev pub count_of : (MemoryRegion → Bool) → List MemoryRegion → ℕ
count_of f [] = 0
count_of f (r ∷ regions) = (if f r then 1 else 0) + count_of f regions

-- The statistics with the regions of a list counted.
abbrev pub RegionCounts : RewriteConfig → List MemoryRegion → RewriteStats → RewriteStats → Type 0
RegionCounts c regions s t =
    (t.regions_scanned ≡ (s.regions_scanned + count_of is_given regions) % 2 ^ 64)
    × (t.regions_skipped ≡ (s.regions_skipped + count_of (is_left_out c) regions) % 2 ^ 64)

RegionCounts-nil :
    (c : RewriteConfig) (s : RewriteStats)
    → s.regions_scanned < 2 ^ 64
    → s.regions_skipped < 2 ^ 64
    → RegionCounts c [] s s
RegionCounts-nil c s h k = (omega arith, omega arith)

RegionCounts-other :
    (c : RewriteConfig) (r : MemoryRegion) (regions : List MemoryRegion) (s t : RewriteStats)
    → is_given r ≡ false
    → RegionCounts c regions s t
    → RegionCounts c (r ∷ regions) s t
RegionCounts-other c r regions s t h k = ground arith

RegionCounts-given :
    (c : RewriteConfig) (r : MemoryRegion) (regions : List MemoryRegion) (s t u : RewriteStats)
    → is_given r ≡ true
    → t.regions_scanned ≡ (s.regions_scanned + 1) % 2 ^ 64
    → t.regions_skipped
      ≡ (if is_excluded c r then (s.regions_skipped + 1) % 2 ^ 64 else s.regions_skipped)
    → RegionCounts c regions t u
    → RegionCounts c (r ∷ regions) s u
RegionCounts-given c r regions s t u h a b k = ground arith

-- What the pass gives: the numbers of the regions that were given to the rewriter and left out.
pub data Reports (c : RewriteConfig) (regions : List MemoryRegion)
    : Result RewriteStats → Type 0 where
  reports :
      (stats : RewriteStats)
      → stats.regions_scanned ≡ count_of is_given regions % 2 ^ 64
      → stats.regions_skipped ≡ count_of (is_left_out c) regions % 2 ^ 64
      → Reports c regions (ok stats)

module _ (os : Os) (ps : ℕ) {D : Type 0} (decoder : Decoder D) where
  -- What the loop leaves of the statistics.
  abbrev Counted : RewriteConfig → List MemoryRegion → RewriteStats → Rewriter × World → Type 0
  Counted c regions s l = RegionCounts c regions s l.0.stats

  rewrite_each-Counted :
      (regions : List MemoryRegion) (c : RewriteConfig) (rewriter : Rewriter) (w : World)
      → rewriter.config ≡ c
      → rewriter.stats.regions_scanned < 2 ^ 64
      → rewriter.stats.regions_skipped < 2 ^ 64
      → IfEnds (Counted c regions rewriter.stats) (rewrite_each os ps decoder regions rewriter w)
  unfolding rewrite_each
  rewrite_each-Counted [] c rewriter w e h k = RegionCounts-nil c rewriter.stats h k
  rewrite_each-Counted (r ∷ regions) c rewriter w e h k =
      let rest = rewrite_each-Counted regions c rewriter w e h k in
      if-IfEnds _ (not (is_executable r)) _ _
        (λ static.
          map-IfEnds (Counted c regions rewriter.stats) _
            (rewrite_each os ps decoder regions rewriter w) rest
            (λ l. RegionCounts-other c r regions rewriter.stats l.0.stats (ground arith)))
        (λ code.
          if-IfEnds _ (is_special r.pathname) _ _
            (λ special.
              map-IfEnds (Counted c regions rewriter.stats) _
                (rewrite_each os ps decoder regions rewriter w) rest
                (λ l. RegionCounts-other c r regions rewriter.stats l.0.stats (ground arith)))
            (λ usual.
              chain-IfEnds _ _ (rewrite_region os ps decoder r rewriter w) _
                (rewrite_region-counts os ps r decoder rewriter w (ground arith))
                (λ l step.
                  map-IfEnds (Counted c regions l.1.stats) _
                    (rewrite_each os ps decoder regions l.1 l.2)
                    (rewrite_each-Counted regions c l.1 l.2 (step.2 ∙ e) (omega (arith, step.0))
                      (ground (arith, step.1)))
                    (λ m.
                      RegionCounts-given c r regions rewriter.stats l.1.stats m.0.stats
                        (ground arith) step.0
                        (step.1
                          ∙ ap
                              (λ d.
                                if is_excluded d r
                                then (rewriter.stats.regions_skipped + 1) % 2 ^ 64
                                else rewriter.stats.regions_skipped)
                              e)))))

  rewrite_syscalls-IfReports :
      (s : Surroundings) (regions : List MemoryRegion) (w : World)
      → IfEnds
          (λ l. Reports (build_rewrite_config s) regions l.0)
          (rewrite_syscalls os ps decoder s (read_maps regions) w)
  unfolding rewrite_syscalls
  rewrite_syscalls-IfReports s regions w =
      let c = build_rewrite_config s in
      chain-IfEnds (Counted c regions (new_rewriter c).stats) _
        (rewrite_each os ps decoder regions (new_rewriter c) w) _
        (rewrite_each-Counted regions c (new_rewriter c) w refl (omega arith) (omega arith))
        (λ l h. reports l.0.stats (omega (arith, h.0)) (omega (arith, h.1)))

-- The pass over the regions of /proc/self/maps, all of whose pages end below 2 ^ 64, with a decoder that
-- follows its documentation and whatever the answers of mprotect are: it ends, and its statistics have
-- as the number of regions that were looked at that of the executable ones that are not the kernel's
-- vdso or vsyscall, and as the number of those left out that of those among them that the
-- configuration excludes, both modulo 2 ^ 64, also where the rewriting of regions fails.
pub rewrite_syscalls-Reports :
    (os : Os) (ps : ℕ) (page : 0 < ps) {D : Type 0} (decoder : Decoder D)
    (docs : FollowsDocs decoder) (s : Surroundings) (regions : List MemoryRegion) (w : World)
    → All (WellPlaced ps) regions
    → Ends
        (λ l. Reports (build_rewrite_config s) regions l.0)
        (rewrite_syscalls os ps decoder s (read_maps regions) w)
rewrite_syscalls-Reports os ps page decoder docs s regions w place =
    both-Ends _ _ _ (rewrite_syscalls os ps decoder s (read_maps regions) w)
      (rewrite_syscalls-AllKept os ps page decoder docs s regions w place)
      (rewrite_syscalls-IfReports os ps decoder s regions w) (λ l k h. h)
