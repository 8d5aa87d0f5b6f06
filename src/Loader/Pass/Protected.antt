-- ===== src/Loader/Pass/Protected.antt =====
-- zpoline_loader/src/init.rs: the pass ends, and what it never writes to.
use mathlib.Core.Path.{subst}
use zpoline_rs.Prelude.{
  ℕ, ◌+◌, ◌^◌, ◌≤◌, ◌<◌, ◌≡◌, ◌⊎◌, inl, inr, refl, sym, ap, ◌∙◌, Bool, true, false, not, ◌&&◌, ◌||◌,
  List, [], ◌∷◌, arith, ltb, leb, All, Bool-cases,
}
use zpoline_rs.Rewriter.Region.{MemoryRegion, is_executable, size}
use zpoline_rs.Rewriter.Config.{RewriteConfig, is_excluded, range_excluded}
use zpoline_rs.Rewriter.Decoder.{Decoder, FollowsDocs}
use zpoline_rs.Rewriter.World.{World, Ends, if-Ends, bind-Ends, both-Ends, map-Ends, Os}
use zpoline_rs.Rewriter.Rewrite.{ok, RewriteStats, Rewriter, new_rewriter, Left, rewrite_region}
use zpoline_rs.Rewriter.Rewrite.Outcome.{rewrite_region-Ends}
use zpoline_rs.Rewriter.Rewrite.Kept.{patched_outside, rewrite_region-config}
use zpoline_rs.Loader.Config.{Surroundings, build_rewrite_config}
use zpoline_rs.Loader.Config.Ranges.{build_rewrite_config-ranges}
use zpoline_rs.Loader.Pass.{is_special, read_maps, rewrite_each, rewrite_syscalls}

abbrev pub contains_addr : MemoryRegion → ℕ → Bool
contains_addr r a = leb r.start a && ltb a r.end

-- A region of /proc/self/maps: its pages end below 2 ^ 64.
abbrev pub WellPlaced : ℕ → MemoryRegion → Type 0
WellPlaced ps r = (r.start ≤ r.end) × (r.end + ps ≤ 2 ^ 64)

-- The pass does not rewrite the region.
abbrev pub is_spared : RewriteConfig → MemoryRegion → Bool
is_spared c r = not (is_executable r) || is_special r.pathname || is_excluded c r

-- Every region that has the address is spared.
abbrev pub SparedAt : RewriteConfig → ℕ → List MemoryRegion → Type 0
SparedAt c a regions = All (λ r. contains_addr r a ≡ true → is_spared c r ≡ true) regions

pub outside_slice :
    (ps a : ℕ) (r : MemoryRegion)
    → 0 < ps
    → WellPlaced ps r
    → contains_addr r a ≡ false
    → (a < r.start + 0) ⊎ (r.start + size r ≤ a)
outside_slice ps a r page place h = elim (Bool-cases (ltb a r.start)) [
  | inl before ↦ inl (ground arith)
  | inr behind ↦ inr (ground arith)
]

third_true : (a b c : Bool) → a ≡ false → b ≡ false → (a || b || c) ≡ true → c ≡ true
third_true a b c h h' e = ground arith

protected-is_excluded :
    (s : Surroundings) (a : ℕ) (r : MemoryRegion)
    → s.raw_syscall_addr + 4096 < 2 ^ 64
    → (a < 65536) ⊎ ((s.raw_syscall_addr ≤ a) × (a < s.raw_syscall_addr + 4096))
    → contains_addr r a ≡ true
    → is_excluded (build_rewrite_config s) r ≡ true
unfolding is_excluded range_excluded
protected-is_excluded s a r top h inside = rw (build_rewrite_config-ranges s) (ground arith)

pub protected-SparedAt :
    (s : Surroundings) (a : ℕ)
    → s.raw_syscall_addr + 4096 < 2 ^ 64
    → (a < 65536) ⊎ ((s.raw_syscall_addr ≤ a) × (a < s.raw_syscall_addr + 4096))
    → (regions : List MemoryRegion) → SparedAt (build_rewrite_config s) a regions
protected-SparedAt s a top h [] = tt
protected-SparedAt s a top h (r ∷ regions) = (
  (λ inside. rw (protected-is_excluded s a r top h inside) (ground arith)),
  protected-SparedAt s a top h regions,
)

module _ (os : Os) (ps : ℕ) (page : 0 < ps) {D : Type 0} (decoder : Decoder D)
    (docs : FollowsDocs decoder) where
  -- What one region leaves.
  abbrev pub Step : MemoryRegion → Rewriter → World → Left → Type 0
  Step r rewriter w l =
      (l.1.config ≡ rewriter.config)
      × ((a : ℕ)
          → (contains_addr r a ≡ true
              → (is_executable r ≡ false) ⊎ (is_excluded rewriter.config r ≡ true))
          → l.2.memory a ≡ w.memory a)

  pub rewrite_region-Step :
      (r : MemoryRegion) (rewriter : Rewriter) (w : World)
      → WellPlaced ps r
      → Ends (Step r rewriter w) (rewrite_region os ps decoder r rewriter w)
  rewrite_region-Step r rewriter w place =
      let (xs, run, s, ends) =
        rewrite_region-Ends os ps r page place.0 place.1 decoder docs rewriter w in
      both-Ends _ _ (Step r rewriter w) (rewrite_region os ps decoder r rewriter w) ends
        (rewrite_region-config os ps r decoder rewriter w)
        (λ l wrote kept. (
          kept.0,
          (λ a spared. elim (Bool-cases (contains_addr r a)) [
            | inl inside ↦ ap (λ (u : World). u.memory a) (kept.1 (spared inside))
            | inr outside ↦ elim wrote [
              | inl same ↦ same a
              | inr new ↦
                  new a
                  ∙ patched_outside w.memory r.start 0 (size r) xs a s
                      (outside_slice ps a r page place outside)
            ]
          ]),
        ))

  -- What the loop leaves.
  abbrev Kept : RewriteConfig → List MemoryRegion → World → Rewriter × World → Type 0
  Kept c regions w l = (a : ℕ) → SparedAt c a regions → l.1.memory a ≡ w.memory a

  rewrite_each-Kept :
      (regions : List MemoryRegion) (rewriter : Rewriter) (w : World)
      → All (WellPlaced ps) regions
      → Ends (Kept rewriter.config regions w) (rewrite_each os ps decoder regions rewriter w)
  unfolding rewrite_each
  rewrite_each-Kept [] rewriter w place = λ a s. refl
  rewrite_each-Kept (r ∷ regions) rewriter w (here, place) =
      let skipped =
        map-Ends (Kept rewriter.config regions w) (Kept rewriter.config (r ∷ regions) w)
          (rewrite_each os ps decoder regions rewriter w)
          (rewrite_each-Kept regions rewriter w place) (λ l k a s. k a s.1) in
      if-Ends _ (not (is_executable r)) _ _ (λ static. skipped)
        (λ code.
          if-Ends _ (is_special r.pathname) _ _ (λ special. skipped)
            (λ usual.
              bind-Ends (Step r rewriter w) _ (rewrite_region os ps decoder r rewriter w) _
                (rewrite_region-Step r rewriter w here)
                (λ l step.
                  map-Ends (Kept l.1.config regions l.2) _
                    (rewrite_each os ps decoder regions l.1 l.2)
                    (rewrite_each-Kept regions l.1 l.2 place)
                    (λ m k a s.
                      k a (subst (λ c. SparedAt c a regions) (sym step.0) s.1)
                      ∙ step.1 a (λ inside. inr (third_true _ _ _ code usual (s.0 inside)))))))

  pub rewrite_syscalls-AllKept :
      (s : Surroundings) (regions : List MemoryRegion) (w : World)
      → All (WellPlaced ps) regions
      → Ends
          (λ l.
            ((stats : RewriteStats) × (l.0 ≡ ok stats))
            × ((a : ℕ) → SparedAt (build_rewrite_config s) a regions → l.1.memory a ≡ w.memory a))
          (rewrite_syscalls os ps decoder s (read_maps regions) w)
  unfolding rewrite_syscalls
  rewrite_syscalls-AllKept s regions w place =
      bind-Ends (Kept (build_rewrite_config s) regions w) _
        (rewrite_each os ps decoder regions (new_rewriter (build_rewrite_config s)) w) _
        (rewrite_each-Kept regions (new_rewriter (build_rewrite_config s)) w place)
        (λ l k. ((l.0.stats, refl), k))

  -- The pass over the regions of /proc/self/maps, all of whose pages end below 2 ^ 64, with a decoder
  -- that follows its documentation and whatever the answers of mprotect are: it ends without a panic
  -- or a fault and gives its statistics, and the memory is as it was at an address that lies in no
  -- region but such as are not executable, are the kernel's vdso or vsyscall, or are excluded by the
  -- configuration.
  pub rewrite_syscalls-Kept :
      (s : Surroundings) (regions : List MemoryRegion) (w : World) (a : ℕ)
      → All (WellPlaced ps) regions
      → SparedAt (build_rewrite_config s) a regions
      → Ends
          (λ l. ((stats : RewriteStats) × (l.0 ≡ ok stats)) × (l.1.memory a ≡ w.memory a))
          (rewrite_syscalls os ps decoder s (read_maps regions) w)
  rewrite_syscalls-Kept s regions w a place spared =
      map-Ends _ _ (rewrite_syscalls os ps decoder s (read_maps regions) w)
        (rewrite_syscalls-AllKept s regions w place) (λ l k. (k.0, k.1 a spared))

  -- Under the same conditions, in whatever surroundings: the pass ends, and leaves the first 65536
  -- addresses, where the trampoline lies, and the 4096 from the one of `raw_syscall` on as they were,
  -- if these end below 2 ^ 64.
  pub rewrite_syscalls-protected :
      (s : Surroundings) (regions : List MemoryRegion) (w : World) (a : ℕ)
      → All (WellPlaced ps) regions
      → s.raw_syscall_addr + 4096 < 2 ^ 64
      → (a < 65536) ⊎ ((s.raw_syscall_addr ≤ a) × (a < s.raw_syscall_addr + 4096))
      → Ends
          (λ l. l.1.memory a ≡ w.memory a)
          (rewrite_syscalls os ps decoder s (read_maps regions) w)
  rewrite_syscalls-protected s regions w a place top h =
      map-Ends _ _ (rewrite_syscalls os ps decoder s (read_maps regions) w)
        (rewrite_syscalls-AllKept s regions w place)
        (λ l k. k.1 a (protected-SparedAt s a top h regions))
