-- ===== src/Rewriter/Rewrite/Refused.antt =====
-- What `rewrite_region` leaves of a region whose first mprotect is granted and whose second is not.
use mathlib.Core.Bool.{true≢false}
use zpoline_rs.Prelude.{
  ℕ, ◌+◌, ◌^◌, ◌≤◌, ◌<◌, ◌≡◌, ◌≢◌, refl, sym, ap, ◌∙◌, true, false, not, List, [], ◌∷◌, none, some,
  arith, ◌==◌, add_64,
}
use zpoline_rs.Rewriter.Region.{MemoryRegion, is_executable, size}
use zpoline_rs.Rewriter.Config.{is_excluded}
use zpoline_rs.Rewriter.Decoder.{Decoder, FollowsDocs}
use zpoline_rs.Rewriter.Find.{SyscallType, find_syscalls}
use zpoline_rs.Rewriter.Find.Spaced.{Spaced, find_syscalls-Spaced}
use zpoline_rs.Rewriter.World.{Prot, read_write_exec, World, Ends, if-Ends, Os, set_prot, mprotect}
use zpoline_rs.Rewriter.Rewrite.{
  err, protect_error, Rewriter, Patch, aligned_start, aligned_size, original_prot, Left, settled,
  patch_region, with_replacements, rewrite_region,
}
use zpoline_rs.Rewriter.Rewrite.Patched.{patched, counted}
use zpoline_rs.Rewriter.Rewrite.Loop.{Patches}
use zpoline_rs.Rewriter.Rewrite.Pages.{pages_cover}
use zpoline_rs.Rewriter.Rewrite.Outcome.{code_of, mprotect-refused, set_prot-inside, loop-Ends}

-- The calls are written, the region may be read, written and executed, and the error is given.
pub record LeftOpen (r : MemoryRegion) (xs : List (ℕ × SyscallType)) (rewriter : Rewriter)
    (w : World) (e : ℕ) (l : Left) : Type 0 where
  pub result_lem : l.0 ≡ err (protect_error e)
  pub stats_lem : l.1.stats ≡ counted w.memory r.start xs rewriter.stats
  pub memory_lem : (a : ℕ) → l.2.memory a ≡ patched w.memory r.start xs a
  pub prot_lem : (a : ℕ) → r.start ≤ a → a < r.end → l.2.prot a ≡ read_write_exec

module _ (os : Os) (ps : ℕ) (r : MemoryRegion) (page : 0 < ps) (order : r.start ≤ r.end)
    (top : r.end + ps ≤ 2 ^ 64) (mapped : ps ≤ r.start) where
  not_null : (aligned_start ps r == 0) ≡ false
  not_null = let cover = pages_cover ps r page order top in ground (arith, cover)

  -- The memory protection between the two calls of mprotect.
  abbrev pub opened : World → ℕ → Prot
  opened w = set_prot w.prot (aligned_start ps r) (aligned_size ps r) read_write_exec

  module _ (e : ℕ) (w : World)
      (grant : os w (aligned_start ps r) (aligned_size ps r) read_write_exec ≡ none)
      (refuse : (m : ℕ → ℕ)
        → os
            (record { memory = m; prot = opened w })
            (aligned_start ps r)
            (aligned_size ps r)
            (original_prot r)
          ≡ some e) where
    settled-LeftOpen :
        (xs : List (ℕ × SyscallType)) (rewriter : Rewriter) (q : Patch)
        → Patches r.start xs
            (record {
              replaced_count = 0;
              stats = rewriter.stats;
              world = record w { prot = opened w };
            })
            q
        → LeftOpen r xs rewriter w e (
            settled rewriter.config q
              (mprotect os (aligned_start ps r) (aligned_size ps r) (original_prot r) q.world))
    settled-LeftOpen xs rewriter q t =
        let same : q.world ≡ record { memory = q.world.memory; prot = opened w } =
          ap (λ (p : ℕ → Prot). record { memory = q.world.memory; prot = p }) t.same_prot in
        let refused =
          ap (λ (u : World). os u (aligned_start ps r) (aligned_size ps r) (original_prot r)) same
          ∙ refuse q.world.memory in
        let cover = pages_cover ps r page order top in
        rw
          (mprotect-refused os (aligned_start ps r) (aligned_size ps r) (original_prot r) q.world e
            refused)
          (record {
            result_lem = refl;
            stats_lem = t.stats_lem;
            memory_lem = t.memory_lem;
            prot_lem = λ a lo hi. rw t.same_prot (
                set_prot-inside w.prot (aligned_start ps r) (aligned_size ps r) read_write_exec a
                  (omega (arith, cover)) (omega (arith, cover)));
          })

    patch_region-LeftOpen :
        (x : ℕ × SyscallType) (xs : List (ℕ × SyscallType)) (rewriter : Rewriter)
        → Spaced 0 (size r) (x ∷ xs)
        → Ends (LeftOpen r (x ∷ xs) rewriter w e) (patch_region os ps r (x ∷ xs) rewriter w)
    unfolding patch_region
    patch_region-LeftOpen x xs rewriter s = rw not_null (
        loop-Ends os ps r page order top (LeftOpen r (x ∷ xs) rewriter w e) (x ∷ xs) rewriter w s
          (λ q t. settled-LeftOpen (x ∷ xs) rewriter q t) grant)

    module _ {D : Type 0} (decoder : Decoder D) where
      with_replacements-LeftOpen :
          (xs : List (ℕ × SyscallType)) (rewriter : Rewriter)
          → xs ≢ []
          → rewriter.config.dry_run ≡ false
          → Spaced 0 (size r) xs
          → Ends
              (LeftOpen r xs rewriter w e)
              (with_replacements os ps decoder r (some xs) rewriter w)
      unfolding with_replacements
      with_replacements-LeftOpen [] rewriter some_place wet s = absurd (some_place refl)
      with_replacements-LeftOpen (x ∷ xs) rewriter some_place wet s =
          if-Ends _ rewriter.config.dry_run _ _ (λ dry. absurd (true≢false (sym dry ∙ wet)))
            (λ h. patch_region-LeftOpen x xs rewriter s)

      -- As for `rewrite_region-Rewritten`, but the mprotect that gives the region its protection
      -- back is refused with an errno: if the search found a place, `rewrite_region` ends with that
      -- error, the calls are written and counted all the same, the region is not counted as
      -- rewritten, and all of it can be read, written and executed.
      pub rewrite_region-LeftOpen :
          FollowsDocs decoder
          → (rewriter : Rewriter) → is_executable r ≡ true
          → is_excluded rewriter.config r ≡ false
          → rewriter.config.dry_run ≡ false
          → find_syscalls decoder r.start (code_of r w) ≢ some []
          → (xs : List (ℕ × SyscallType)) × (find_syscalls decoder r.start (code_of r w) ≡ some xs)
            × Ends
                (LeftOpen r xs
                  (record rewriter {
                    stats = record (rewriter.stats) {
                      regions_scanned = add_64 rewriter.stats.regions_scanned 1;
                    };
                  })
                  w
                  e)
                (rewrite_region os ps decoder r rewriter w)
      unfolding rewrite_region
      rewrite_region-LeftOpen docs rewriter code wanted wet some_place =
          let (xs, run, s) =
            find_syscalls-Spaced decoder docs r.start (code_of r w) (omega arith) in
          (
            xs,
            run,
            if-Ends _ (not (is_executable r)) _ _
                (λ static. absurd (true≢false (sym static ∙ ap not code)))
                (λ h.
                  if-Ends _ (is_excluded rewriter.config r) _ _
                    (λ left_out. absurd (true≢false (sym left_out ∙ wanted)))
                    (λ h'.
                      rw run (
                        with_replacements-LeftOpen xs _ (λ n. some_place (run ∙ ap some n)) wet
                          s))),
          )
