-- ===== src/Loader/Pass/Rewritten.antt =====
-- zpoline_loader/src/init.rs: what the pass leaves in memory, where the operating system grants what it
-- asks for.
use zpoline_rs.Prelude.{
  ℕ, ◌+◌, ◌^◌, ◌≤◌, ◌<◌, ◌≡◌, inl, inr, refl, ◌∙◌, Bool, true, false, not, ◌||◌, List, [], ◌∷◌,
  none, some, arith, if◌then◌else◌, Bool-cases,
}
use zpoline_rs.Rewriter.Region.{MemoryRegion, is_executable, size}
use zpoline_rs.Rewriter.Config.{RewriteConfig, is_excluded, range_excluded}
use zpoline_rs.Rewriter.Decoder.{Decoder, FollowsDocs}
use zpoline_rs.Rewriter.Find.{SyscallType, find_syscalls}
use zpoline_rs.Rewriter.World.{Prot, World, Ends, if-Ends, bind-Ends, map-Ends, Os}
use zpoline_rs.Rewriter.Rewrite.{ok, RewriteStats, Rewriter, new_rewriter, Left, rewrite_region}
use zpoline_rs.Rewriter.Rewrite.Patched.{patched}
use zpoline_rs.Rewriter.Rewrite.Kept.{patched_outside}
use zpoline_rs.Rewriter.Rewrite.Granted.{rewrite_region-Rewritten}
use zpoline_rs.Loader.Config.{Surroundings, build_rewrite_config}
use zpoline_rs.Loader.Config.Ranges.{build_rewrite_config-ranges, build_rewrite_config-mode}
use zpoline_rs.Loader.Pass.{is_special, read_maps, rewrite_each, rewrite_syscalls}
use zpoline_rs.Loader.Pass.Protected.{
  WellPlaced, outside_slice, contains_addr, is_spared, Step, rewrite_region-Step,
}
use zpoline_rs.Loader.Pass.Described.{InOrder, calls_in, calls_in-Spaced, rewritten, rewritten-step}

pub above_excluded :
    (s : Surroundings) (r : MemoryRegion)
    → r.start < r.end
    → is_excluded (build_rewrite_config s) r ≡ false
    → 65536 ≤ r.start
unfolding is_excluded range_excluded
above_excluded s r o h = ground (arith, build_rewrite_config-ranges s)

not_spared : (a b c : Bool) → a ≡ true → b ≡ false → c ≡ false → (not a || b || c) ≡ false
not_spared a b c h h' h'' = ground arith

module _ (os : Os) (ps : ℕ) (page : 0 < ps)
    (grant : (w : World) (a l : ℕ) (p : Prot) → os w a l p ≡ none) {D : Type 0}
    (decoder : Decoder D) (docs : FollowsDocs decoder) (c : RewriteConfig)
    (wet : c.dry_run ≡ false) where
  -- What one region leaves.
  abbrev Given : MemoryRegion → World → Left → Type 0
  Given r w l =
      (l.1.config ≡ c)
      × ((a : ℕ)
          → l.2.memory a ≡ (
              if contains_addr r a
              then if is_spared c r
                then w.memory a
                else patched w.memory r.start (calls_in decoder r w.memory) a
              else w.memory a))

  wanted_memory :
      (r : MemoryRegion) (f : ℕ → ℕ) (xs : List (ℕ × SyscallType)) (a : ℕ)
      → r.start < r.end
      → r.end + ps ≤ 2 ^ 64
      → is_executable r ≡ true
      → is_special r.pathname ≡ false
      → is_excluded c r ≡ false
      → find_syscalls decoder r.start (record { len = size r; byte = λ i. f (r.start + i) })
        ≡ some xs
      → patched f r.start xs a ≡ (
          if contains_addr r a
          then if is_spared c r then f a else patched f r.start (calls_in decoder r f) a
          else f a)
  wanted_memory r f xs a order top code usual wanted run =
      let spaced = calls_in-Spaced decoder docs ps r f page order top in
      rw run (elim (Bool-cases (contains_addr r a)) [
        | inl inside ↦ rw (inside, not_spared _ _ _ code usual wanted) refl
        | inr outside ↦ rw outside (
            patched_outside f r.start 0 (size r) xs a (rw run at spaced)
              (outside_slice ps a r page (omega arith, top) outside))
      ])

  rewrite_region-Given :
      (r : MemoryRegion) (rewriter : Rewriter) (w : World)
      → rewriter.config ≡ c
      → (is_excluded c r ≡ false → ps ≤ r.start)
      → r.start < r.end
      → r.end + ps ≤ 2 ^ 64
      → is_executable r ≡ true
      → is_special r.pathname ≡ false
      → Ends (Given r w) (rewrite_region os ps decoder r rewriter w)
  rewrite_region-Given r rewriter w e far order top code usual =
      let place : WellPlaced ps r = (omega arith, top) in
      elim (Bool-cases (is_excluded c r)) [
        | inl left_out ↦
            map-Ends (Step os ps page decoder docs r rewriter w) (Given r w) _
              (rewrite_region-Step os ps page decoder docs r rewriter w place)
              (λ l step. (
                step.0 ∙ e,
                (λ a. step.1 a (λ inside. inr (rw e left_out)) ∙ rw left_out (ground arith)),
              ))
        | inr wanted ↦
            let (xs, run, ends) =
              rewrite_region-Rewritten os ps r page place.0 top (far wanted) (λ v p. grant v _ _ p)
                decoder docs rewriter w code (rw e wanted) (rw e wet) in
            map-Ends _ (Given r w) _ ends (λ l t. (
              t.config_lem ∙ e,
              (λ a. t.memory_lem a ∙ wanted_memory r w.memory xs a order top code usual wanted run),
            ))
      ]

  -- What the loop leaves.
  abbrev Leaves : List MemoryRegion → World → Rewriter × World → Type 0
  Leaves regions w l = (a : ℕ) → l.1.memory a ≡ rewritten decoder c regions w.memory a

  rewrite_each-Leaves :
      (far : (r : MemoryRegion) → r.start < r.end → is_excluded c r ≡ false → ps ≤ r.start)
      (regions : List MemoryRegion) (lo : ℕ) (rewriter : Rewriter) (w : World)
      → rewriter.config ≡ c
      → InOrder ps lo regions
      → Ends (Leaves regions w) (rewrite_each os ps decoder regions rewriter w)
  unfolding rewrite_each rewritten
  rewrite_each-Leaves far [] lo rewriter w e o = λ a. refl
  rewrite_each-Leaves far (r ∷ regions) lo rewriter w e (m, order, top, o) =
      let skipped : is_spared c r ≡ true
          → Ends (Leaves (r ∷ regions) w) (rewrite_each os ps decoder regions rewriter w) =
        λ spared.
          map-Ends (Leaves regions w) (Leaves (r ∷ regions) w) _
            (rewrite_each-Leaves far regions r.end rewriter w e o)
            (λ l k a.
              k a
              ∙ rewritten-step decoder ps c r regions w.memory w.memory o order
                  (λ b. rw spared (ground arith)) a) in
      if-Ends _ (not (is_executable r)) _ _ (λ static. skipped (rw static refl))
        (λ code.
          if-Ends _ (is_special r.pathname) _ _ (λ special. skipped (rw (code, special) refl))
            (λ usual.
              bind-Ends (Given r w) _ (rewrite_region os ps decoder r rewriter w) _
                (rewrite_region-Given r rewriter w e (far r order) order top (ground arith) usual)
                (λ l t.
                  map-Ends (Leaves regions l.2) (Leaves (r ∷ regions) w) _
                    (rewrite_each-Leaves far regions r.end l.1 l.2 t.0 o)
                    (λ n k a.
                      k a
                      ∙ rewritten-step decoder ps c r regions w.memory l.2.memory o order t.1 a))))

module _ (os : Os) (ps : ℕ) (page : 0 < ps) (small : ps ≤ 65536)
    (grant : (w : World) (a l : ℕ) (p : Prot) → os w a l p ≡ none) {D : Type 0}
    (decoder : Decoder D) (docs : FollowsDocs decoder) where
  -- The pass over the regions of /proc/self/maps, which are in order, with a decoder that follows its
  -- documentation, pages of at most 65536 bytes, and an mprotect that grants what it is asked: it ends
  -- without a panic or a fault and gives its statistics; in a region that is executable, is not the
  -- kernel's vdso or vsyscall and is not excluded by the configuration, the memory has ff d0 at each
  -- place where the search finds a call in the region as it was before the pass and that has 0f 05 or
  -- 0f 34, and everywhere else it is as before.
  pub rewrite_syscalls-Rewritten :
      (s : Surroundings) (regions : List MemoryRegion) (w : World)
      → InOrder ps 0 regions
      → Ends
          (λ l.
            ((stats : RewriteStats) × (l.0 ≡ ok stats))
            × ((a : ℕ)
                → l.1.memory a ≡ rewritten decoder (build_rewrite_config s) regions w.memory a))
          (rewrite_syscalls os ps decoder s (read_maps regions) w)
  unfolding rewrite_syscalls
  rewrite_syscalls-Rewritten s regions w o =
      let c = build_rewrite_config s in
      bind-Ends (Leaves os ps page grant decoder docs c (build_rewrite_config-mode s) regions w) _
        (rewrite_each os ps decoder regions (new_rewriter c) w) _
        (rewrite_each-Leaves os ps page grant decoder docs c (build_rewrite_config-mode s)
          (λ r order wanted. omega (arith, above_excluded s r order wanted)) regions 0
          (new_rewriter c) w refl o)
        (λ l k. ((l.0.stats, refl), k))
