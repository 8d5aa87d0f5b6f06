-- ===== src/Rewriter/Tests.antt =====
-- The theorems of the rewriter at a concrete region and a concrete decoder.
use zpoline_rs.Prelude.{
  ℕ, ◌+◌, ◌≤◌, ◌<◌, ◌≡◌, ◌≢◌, ◌↔◌, ◌⊎◌, refl, true, false, List, [], ◌∷◌, none, some, arith,
  if◌then◌else◌,
}
use zpoline_rs.Rewriter.Region.{size}
use zpoline_rs.Rewriter.Config.{RewriteConfig, new_config, exclude_path, exclude_range, is_excluded}
use zpoline_rs.Rewriter.Config.Excluded.{MeetsOne, NamedBelowOne, is_excluded_iff}
use zpoline_rs.Rewriter.Find.{SyscallType, is_syscall, is_sysenter, find_syscalls}
use zpoline_rs.Rewriter.Find.Spaced.{Spaced, find_syscalls-Spaced}
use zpoline_rs.Rewriter.World.{Ends, Os}
use zpoline_rs.Rewriter.Rewrite.{
  Rewriter, new_rewriter, no_stats, aligned_start, aligned_size, rewrite_region,
}
use zpoline_rs.Rewriter.Sample.{
  nop_decoder, nop_decoder-FollowsDocs, text_memory, text_world, text_region,
}
use zpoline_rs.Rewriter.Rewrite.Pages.{pages_cover}
use zpoline_rs.Rewriter.Rewrite.Outcome.{AllOrNothing, code_of, rewrite_region-Ends}
use zpoline_rs.Rewriter.Rewrite.Granted.{Rewritten, rewrite_region-Rewritten}
use zpoline_rs.Rewriter.Rewrite.Refused.{LeftOpen, rewrite_region-LeftOpen}

abbrev text_places : List (ℕ × SyscallType)
text_places = (2, is_syscall) ∷ (5, is_sysenter) ∷ []

find_syscalls_test :
    find_syscalls nop_decoder 0x10000 (code_of text_region text_world) ≡ some text_places
unfolding find_syscalls
find_syscalls_test = refl

find_syscalls-Spaced_example :
    (xs : List (ℕ × SyscallType)) × (find_syscalls nop_decoder 0x10000
        (code_of text_region text_world)
      ≡ some xs)
    × Spaced 0 8 xs
find_syscalls-Spaced_example =
    find_syscalls-Spaced nop_decoder nop_decoder-FollowsDocs 0x10000
      (code_of text_region text_world) (omega arith)

pages_cover_example :
    (aligned_start 4096 text_region ≤ 0x10000)
    × (0x10000 < aligned_start 4096 text_region + 4096)
    × (0x10008 ≤ aligned_start 4096 text_region + aligned_size 4096 text_region)
    × (aligned_start 4096 text_region + aligned_size 4096 text_region < 0x10008 + 4096)
pages_cover_example = pages_cover 4096 text_region (omega arith) (omega arith) (omega arith)

-- The range [0x10004, 0x20000) is excluded.
abbrev half_config : RewriteConfig
unfolding exclude_range
half_config = exclude_range new_config 0x10004 0x20000

is_excluded_iff_example :
    (is_excluded half_config text_region ≡ true)
    ↔ (NamedBelowOne (some (47 ∷ 97 ∷ [])) [] ⊎ MeetsOne text_region ((0x10004, 0x20000) ∷ []))
unfolding exclude_range
is_excluded_iff_example = is_excluded_iff half_config text_region (omega arith) (omega arith, tt)

-- /a is excluded by /a, and not by /ab.
is_excluded_test :
    (is_excluded (exclude_path new_config (47 ∷ 97 ∷ [])) text_region ≡ true)
    × (is_excluded (exclude_path new_config (47 ∷ 97 ∷ 98 ∷ [])) text_region ≡ false)
unfolding is_excluded exclude_path zpoline_rs.Rewriter.FilePath.has_prefix
    zpoline_rs.Rewriter.FilePath.components zpoline_rs.Rewriter.FilePath.same_components
is_excluded_test = (refl, refl)

abbrev fresh : Rewriter
fresh = new_rewriter new_config

-- mprotect grants everything.
abbrev granting : Os
granting w a l p = none

rewrite_region-Ends_example :
    (xs : List (ℕ × SyscallType)) × (find_syscalls nop_decoder 0x10000
        (code_of text_region text_world)
      ≡ some xs)
    × Spaced 0 (size text_region) xs
    × Ends
        (λ l. AllOrNothing text_memory 0x10000 xs l.2.memory)
        (rewrite_region granting 4096 nop_decoder text_region fresh text_world)
rewrite_region-Ends_example =
    rewrite_region-Ends granting 4096 text_region (omega arith) (omega arith) (omega arith)
      nop_decoder nop_decoder-FollowsDocs fresh text_world

-- The rewriter once the region is counted as scanned.
abbrev scanned : Rewriter
scanned = record fresh { stats = record no_stats { regions_scanned = 1 } }

not_excluded : is_excluded new_config text_region ≡ false
unfolding is_excluded
not_excluded = refl

rewrite_region-Rewritten_example :
    (xs : List (ℕ × SyscallType)) × (find_syscalls nop_decoder 0x10000
        (code_of text_region text_world)
      ≡ some xs)
    × Ends
        (Rewritten 4096 text_region xs scanned text_world)
        (rewrite_region granting 4096 nop_decoder text_region fresh text_world)
rewrite_region-Rewritten_example =
    rewrite_region-Rewritten granting 4096 text_region (omega arith) (omega arith) (omega arith)
      (omega arith) (λ w p. refl) nop_decoder nop_decoder-FollowsDocs fresh text_world refl
      not_excluded refl

-- mprotect refuses with EACCES every protection without writing.
abbrev refusing : Os
refusing w a l p = if p.prot_write then none else some 13

some_place : find_syscalls nop_decoder 0x10000 (code_of text_region text_world) ≢ some []
unfolding find_syscalls
some_place h = cc

rewrite_region-LeftOpen_example :
    (xs : List (ℕ × SyscallType)) × (find_syscalls nop_decoder 0x10000
        (code_of text_region text_world)
      ≡ some xs)
    × Ends
        (LeftOpen text_region xs scanned text_world 13)
        (rewrite_region refusing 4096 nop_decoder text_region fresh text_world)
rewrite_region-LeftOpen_example =
    rewrite_region-LeftOpen refusing 4096 text_region (omega arith) (omega arith) (omega arith)
      (omega arith) 13 text_world refl (λ m. refl) nop_decoder nop_decoder-FollowsDocs fresh refl
      not_excluded refl some_place
