-- ===== src/Rewriter/Rewrite/Counters.antt =====
-- What `rewrite_region` does to the numbers of regions in its statistics.
use mathlib.Core.Bool.{true≢false}
use zpoline_rs.Prelude.{
  ℕ, ◌+◌, ◌%◌, ◌^◌, ◌≡◌, refl, sym, ap, ◌∙◌, true, not, List, [], ◌∷◌, Option, none, some, ◌==◌,
  ltb, Bool-cases, inl, inr, if◌then◌else◌, add_64,
}
use zpoline_rs.Rewriter.Region.{MemoryRegion, is_executable, size}
use zpoline_rs.Rewriter.Config.{is_excluded}
use zpoline_rs.Rewriter.Decoder.{Decoder}
use zpoline_rs.Rewriter.Find.{SyscallType, is_syscall, is_sysenter, find_syscalls}
use zpoline_rs.Rewriter.World.{
  World, Run, done, panicked, faulted, endless, IfEnds, bind-IfEnds, if-IfEnds, map-IfEnds, Os,
  load, store, ◌>>=◌,
}
use zpoline_rs.Rewriter.Rewrite.{
  RewriteStats, Rewriter, Patch, count_kind, is_second, overwrite, patch_one, patch_all,
  aligned_start, Left, settled, restore, write_calls, patch_region, with_replacements,
  rewrite_region,
}
use zpoline_rs.Rewriter.Rewrite.Outcome.{code_of}

-- The numbers of regions that were looked at and left out.
abbrev pub SameRegions : RewriteStats → RewriteStats → Type 0
SameRegions s t = (s.regions_scanned ≡ t.regions_scanned) × (s.regions_skipped ≡ t.regions_skipped)

SameRegions-trans : (s t u : RewriteStats) → SameRegions s t → SameRegions t u → SameRegions s u
SameRegions-trans s t u a b = (a.0 ∙ b.0, a.1 ∙ b.1)

count_kind-SameRegions : (kind : SyscallType) (s : RewriteStats) → SameRegions (count_kind kind s) s
count_kind-SameRegions is_syscall s = (refl, refl)
count_kind-SameRegions is_sysenter s = (refl, refl)

-- A run's result has the property, if those of its parts have what is needed.
pub chain-IfEnds :
    {A B : Type 0} (P : A → Type 0) (Q : B → Type 0) (x : Run A) (f : A → Run B)
    → IfEnds P x
    → ((a : A) → P a → IfEnds Q (f a))
    → IfEnds Q (x >>= f)
chain-IfEnds P Q (done a) f h k = k a h
chain-IfEnds P Q panicked f h k = tt
chain-IfEnds P Q faulted f h k = tt
chain-IfEnds P Q endless f h k = tt

abbrev Kept : Patch → Patch → Type 0
Kept p q = SameRegions q.stats p.stats

patch_one-SameRegions :
    (start len : ℕ) (x : ℕ × SyscallType) (p : Patch) → IfEnds (Kept p) (patch_one start len x p)
unfolding patch_one overwrite
patch_one-SameRegions start len (offset, kind) p =
    bind-IfEnds (Kept p) (load start len offset p.world) _ (λ b.
      if-IfEnds (Kept p) (b == 0x0f) _ _
        (λ first. bind-IfEnds (Kept p) (load start len (offset + 1) p.world) _ (λ c.
          if-IfEnds (Kept p) (is_second c) _ _
            (λ second. bind-IfEnds (Kept p) (store start len offset 0xff p.world) _ (λ w.
              bind-IfEnds (Kept p) (store start len (offset + 1) 0xd0 w) _
                (λ w'. count_kind-SameRegions kind p.stats)))
            (λ other. (refl, refl))))
        (λ other. (refl, refl)))

patch_all-SameRegions :
    (start len : ℕ) (xs : List (ℕ × SyscallType)) (p : Patch)
    → IfEnds (Kept p) (patch_all start len xs p)
unfolding patch_all
patch_all-SameRegions start len [] p = (refl, refl)
patch_all-SameRegions start len (x ∷ xs) p =
    chain-IfEnds (Kept p) _ (patch_one start len x p) _ (patch_one-SameRegions start len x p)
      (λ q h.
        map-IfEnds (Kept q) _ (patch_all start len xs q) (patch_all-SameRegions start len xs q)
          (λ t k. SameRegions-trans t.stats q.stats p.stats k h))

settled_stats :
    (p : Patch) (s : RewriteStats)
    → SameRegions p.stats s
    → SameRegions
        (if ltb 0 p.replaced_count
          then record (p.stats) { regions_rewritten = add_64 p.stats.regions_rewritten 1 }
          else p.stats)
        s
settled_stats p s h = elim (Bool-cases (ltb 0 p.replaced_count)) [
  | inl some_replaced ↦ rw some_replaced h
  | inr none_replaced ↦ rw none_replaced h
]

-- The rewriter behind the first line.
abbrev counted : Rewriter → Rewriter
counted rewriter = record rewriter {
  stats = record (rewriter.stats) { regions_scanned = add_64 rewriter.stats.regions_scanned 1 };
}

module _ (os : Os) (ps : ℕ) (r : MemoryRegion) where
  -- The numbers and the configuration are those of a rewriter.
  abbrev LeftWith : Rewriter → Left → Type 0
  LeftWith rewriter l = SameRegions l.1.stats rewriter.stats × (l.1.config ≡ rewriter.config)

  settled-Left :
      (rewriter : Rewriter) (p : Patch) (m : Option ℕ × World)
      → SameRegions p.stats rewriter.stats
      → LeftWith rewriter (settled rewriter.config p m)
  settled-Left rewriter p (some e, w) h = (h, refl)
  settled-Left rewriter p (none, w) h = (settled_stats p rewriter.stats h, refl)

  write_calls-Left :
      (xs : List (ℕ × SyscallType)) (rewriter : Rewriter) (m : Option ℕ × World)
      → IfEnds (LeftWith rewriter) (write_calls os ps r xs rewriter m)
  unfolding write_calls restore
  write_calls-Left xs rewriter (some e, w) = ((refl, refl), refl)
  write_calls-Left xs rewriter (none, w) =
      let p : Patch = record { replaced_count = 0; stats = rewriter.stats; world = w } in
      chain-IfEnds (Kept p) (LeftWith rewriter) (patch_all r.start (size r) xs p) _
        (patch_all-SameRegions r.start (size r) xs p) (λ q h. settled-Left rewriter q _ h)

  patch_region-Left :
      (xs : List (ℕ × SyscallType)) (rewriter : Rewriter) (w : World)
      → IfEnds (LeftWith rewriter) (patch_region os ps r xs rewriter w)
  unfolding patch_region
  patch_region-Left xs rewriter w =
      if-IfEnds _ (aligned_start ps r == 0) _ _ (λ null. ((refl, refl), refl))
        (λ mapped. write_calls-Left xs rewriter _)

  module _ {D : Type 0} (decoder : Decoder D) where
    with_replacements-Left :
        (o : Option (List (ℕ × SyscallType))) (rewriter : Rewriter) (w : World)
        → IfEnds (LeftWith rewriter) (with_replacements os ps decoder r o rewriter w)
    unfolding with_replacements
    with_replacements-Left none rewriter w = tt
    with_replacements-Left (some []) rewriter w = ((refl, refl), refl)
    with_replacements-Left (some (x ∷ xs)) rewriter w =
        if-IfEnds _ rewriter.config.dry_run _ _ (λ dry. ((refl, refl), refl))
          (λ wet. patch_region-Left (x ∷ xs) rewriter w)

    -- The region is counted as looked at, and as left out where the configuration excludes it.
    pub rewrite_region-counts :
        (rewriter : Rewriter) (w : World)
        → is_executable r ≡ true
        → IfEnds
            (λ (l : Left).
              (l.1.stats.regions_scanned ≡ (rewriter.stats.regions_scanned + 1) % 2 ^ 64)
              × (l.1.stats.regions_skipped ≡ (
                  if is_excluded rewriter.config r
                  then (rewriter.stats.regions_skipped + 1) % 2 ^ 64
                  else rewriter.stats.regions_skipped))
              × (l.1.config ≡ rewriter.config))
            (rewrite_region os ps decoder r rewriter w)
    unfolding rewrite_region
    rewrite_region-counts rewriter w code =
        if-IfEnds _ (not (is_executable r)) _ _
          (λ static. absurd (true≢false (sym static ∙ ap not code)))
          (λ usual.
            if-IfEnds _ (is_excluded rewriter.config r) _ _
              (λ left_out. (refl, rw left_out refl, refl))
              (λ wanted.
                map-IfEnds (LeftWith (counted rewriter)) _
                  (with_replacements os ps decoder r (find_syscalls decoder r.start (code_of r w))
                    (counted rewriter) w)
                  (with_replacements-Left (find_syscalls decoder r.start (code_of r w))
                    (counted rewriter) w)
                  (λ l h. (h.0.0, rw wanted (h.0.1), h.1))))
