-- ===== src/Rewriter/Rewrite/Granted.antt =====
-- What `rewrite_region` leaves of a region that it is to rewrite, where the operating system grants
-- what it asks for.
use mathlib.Core.Bool.{true≢false}
use zpoline_rs.Prelude.{
  ℕ, ◌+◌, ◌^◌, ◌≤◌, ◌<◌, ◌≡◌, refl, sym, ap, ◌∙◌, Bool, true, false, not, List, [], ◌∷◌, none, some,
  arith, ltb, ◌==◌, add_64, if◌then◌else◌,
}
use zpoline_rs.Rewriter.Region.{MemoryRegion, is_executable, size}
use zpoline_rs.Rewriter.Config.{is_excluded}
use zpoline_rs.Rewriter.Decoder.{Decoder, FollowsDocs}
use zpoline_rs.Rewriter.Find.{SyscallType, find_syscalls}
use zpoline_rs.Rewriter.Find.Spaced.{Spaced, find_syscalls-Spaced}
use zpoline_rs.Rewriter.World.{Prot, read_write_exec, World, Ends, if-Ends, Os, set_prot, mprotect}
use zpoline_rs.Rewriter.Rewrite.{
  ok, RewriteStats, Rewriter, Patch, aligned_start, aligned_size, original_prot, Left, settled,
  patch_region, with_replacements, rewrite_region,
}
use zpoline_rs.Rewriter.Rewrite.Patched.{patched, count_hits, counted}
use zpoline_rs.Rewriter.Rewrite.Loop.{Patches}
use zpoline_rs.Rewriter.Rewrite.Pages.{pages_cover}
use zpoline_rs.Rewriter.Rewrite.Outcome.{code_of, mprotect-granted, loop-Ends}

count_hits_le :
    (f : ℕ → ℕ) (start lo hi : ℕ) (xs : List (ℕ × SyscallType))
    → lo ≤ hi
    → Spaced lo hi xs
    → lo + count_hits f start xs ≤ hi
unfolding count_hits
count_hits_le f start lo hi [] h s = omega arith
count_hits_le f start lo hi ((offset, kind) ∷ xs) h (a, b, s) =
    let rest = count_hits_le f start (offset + 2) hi xs b s in ground (arith, rest)

set_prot_twice :
    (f : ℕ → Prot) (a l : ℕ) (p q : Prot) (x : ℕ)
    → set_prot (set_prot f a l p) a l q x ≡ set_prot f a l q x
set_prot_twice f a l p q x = ground arith

-- The counters behind a rewritten region.
abbrev pub with_region : ℕ → RewriteStats → RewriteStats
with_region count s =
    if ltb 0 count then record s { regions_rewritten = add_64 s.regions_rewritten 1 } else s

abbrev is_empty : {A : Type 0} → List A → Bool
is_empty [] = true
is_empty (x ∷ xs) = false

module _ (ps : ℕ) (r : MemoryRegion) where
  -- What a rewriter and the memory are behind the calls of the list.
  pub record Rewritten (xs : List (ℕ × SyscallType)) (rewriter : Rewriter) (w : World) (l : Left)
      : Type 0 where
    pub result_lem : l.0 ≡ ok (count_hits w.memory r.start xs)
    pub config_lem : l.1.config ≡ rewriter.config
    pub stats_lem :
        l.1.stats
        ≡ with_region (count_hits w.memory r.start xs) (counted w.memory r.start xs rewriter.stats)
    pub memory_lem : (a : ℕ) → l.2.memory a ≡ patched w.memory r.start xs a
    pub prot_lem :
        (a : ℕ)
        → l.2.prot a ≡ (
            if is_empty xs
            then w.prot a
            else set_prot w.prot (aligned_start ps r) (aligned_size ps r) (original_prot r) a)

  settled-Rewritten :
      (os : Os) (x : ℕ × SyscallType) (xs : List (ℕ × SyscallType)) (rewriter : Rewriter)
      (w : World) (q : Patch)
      → 0 + count_hits w.memory r.start (x ∷ xs) < 2 ^ 64
      → ((w' : World) (p : Prot) → os w' (aligned_start ps r) (aligned_size ps r) p ≡ none)
      → Patches r.start
          (x ∷ xs)
          (record {
            replaced_count = 0;
            stats = rewriter.stats;
            world = record w {
              prot = set_prot w.prot (aligned_start ps r) (aligned_size ps r) read_write_exec;
            };
          })
          q
      → Rewritten (x ∷ xs) rewriter w (
          settled rewriter.config q
            (mprotect os (aligned_start ps r) (aligned_size ps r) (original_prot r) q.world))
  settled-Rewritten os x xs rewriter w q small grant t =
      let count : q.replaced_count ≡ count_hits w.memory r.start (x ∷ xs) =
        omega (arith, t.count_lem) in
      rw
        (mprotect-granted os (aligned_start ps r) (aligned_size ps r) (original_prot r) q.world
          (grant _ _))
        (record {
          result_lem = ap ok count;
          config_lem = refl;
          stats_lem = rw (count, t.stats_lem);
          memory_lem = t.memory_lem;
          prot_lem =
              λ a. rw t.same_prot (set_prot_twice w.prot _ _ read_write_exec (original_prot r) a);
        })

module _ (os : Os) (ps : ℕ) (r : MemoryRegion) (page : 0 < ps) (order : r.start ≤ r.end)
    (top : r.end + ps ≤ 2 ^ 64) (mapped : ps ≤ r.start)
    (grant : (w : World) (p : Prot) → os w (aligned_start ps r) (aligned_size ps r) p ≡ none) where
  not_null : (aligned_start ps r == 0) ≡ false
  not_null = let cover = pages_cover ps r page order top in ground (arith, cover)

  patch_region-Rewritten :
      (x : ℕ × SyscallType) (xs : List (ℕ × SyscallType)) (rewriter : Rewriter) (w : World)
      → Spaced 0 (size r) (x ∷ xs)
      → Ends (Rewritten ps r (x ∷ xs) rewriter w) (patch_region os ps r (x ∷ xs) rewriter w)
  unfolding patch_region
  patch_region-Rewritten x xs rewriter w s =
      let fits : size r < 2 ^ 64 = omega arith in
      let bound = count_hits_le w.memory r.start 0 (size r) (x ∷ xs) (omega arith) s in
      rw not_null (
        loop-Ends os ps r page order top (Rewritten ps r (x ∷ xs) rewriter w) (x ∷ xs) rewriter w s
          (λ q t. settled-Rewritten ps r os x xs rewriter w q (omega (arith, bound, fits)) grant t)
          (grant w read_write_exec))

  module _ {D : Type 0} (decoder : Decoder D) where
    with_replacements-Rewritten :
        (xs : List (ℕ × SyscallType)) (rewriter : Rewriter) (w : World)
        → rewriter.config.dry_run ≡ false
        → Spaced 0 (size r) xs
        → Ends
            (Rewritten ps r xs rewriter w)
            (with_replacements os ps decoder r (some xs) rewriter w)
    unfolding with_replacements count_hits counted patched
    with_replacements-Rewritten [] rewriter w wet s = record {
      result_lem = refl;
      config_lem = refl;
      stats_lem = refl;
      memory_lem = λ a. refl;
      prot_lem = λ a. refl;
    }
    with_replacements-Rewritten (x ∷ xs) rewriter w wet s =
        if-Ends _ rewriter.config.dry_run _ _ (λ dry. absurd (true≢false (sym dry ∙ wet)))
          (λ h. patch_region-Rewritten x xs rewriter w s)

    -- For a decoder that follows its documentation, an executable region that is not excluded, lies
    -- behind the first page and whose pages end below 2 ^ 64, a configuration without dry run, and an
    -- mprotect that grants what it is asked: `rewrite_region` ends with the number of calls that it
    -- replaced; the memory has ff d0 at each place that the search found and that has 0f 05 or 0f 34,
    -- and is as before elsewhere; the counters have each of them by its kind, the region as scanned
    -- and, if there was a call, as rewritten; if the search found a place, the pages of the region can
    -- be read and executed, and be written if the region could, and no other protection is changed.
    pub rewrite_region-Rewritten :
        FollowsDocs decoder
        → (rewriter : Rewriter) (w : World) → is_executable r ≡ true
        → is_excluded rewriter.config r ≡ false
        → rewriter.config.dry_run ≡ false
        → (xs : List (ℕ × SyscallType)) × (find_syscalls decoder r.start (code_of r w) ≡ some xs)
          × Ends
              (Rewritten ps r xs
                (record rewriter {
                  stats = record (rewriter.stats) {
                    regions_scanned = add_64 rewriter.stats.regions_scanned 1;
                  };
                })
                w)
              (rewrite_region os ps decoder r rewriter w)
    unfolding rewrite_region
    rewrite_region-Rewritten docs rewriter w code wanted wet =
        let (xs, run, s) = find_syscalls-Spaced decoder docs r.start (code_of r w) (omega arith) in
        (
          xs,
          run,
          if-Ends _ (not (is_executable r)) _ _
              (λ static. absurd (true≢false (sym static ∙ ap not code)))
              (λ h.
                if-Ends _ (is_excluded rewriter.config r) _ _
                  (λ left_out. absurd (true≢false (sym left_out ∙ wanted)))
                  (λ h'. rw run (with_replacements-Rewritten xs _ w wet s))),
        )
