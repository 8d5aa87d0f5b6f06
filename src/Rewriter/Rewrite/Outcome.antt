-- ===== src/Rewriter/Rewrite/Outcome.antt =====
-- What a call of `rewrite_region` leaves behind, on its branches.
use zpoline_rs.Prelude.{
  ℕ, ◌+◌, ◌-◌, ◌^◌, ◌≤◌, ◌<◌, ◌≡◌, ◌⊎◌, inl, inr, refl, ap, ◌∙◌, true, not, List, [], ◌∷◌, Option,
  none, some, arith, ◌==◌, Bool-cases, Option-cases,
}
use zpoline_rs.Slice.{Slice}
use zpoline_rs.Rewriter.Region.{MemoryRegion, is_executable, size}
use zpoline_rs.Rewriter.Config.{RewriteConfig, is_excluded}
use zpoline_rs.Rewriter.Decoder.{Decoder, FollowsDocs}
use zpoline_rs.Rewriter.Find.{SyscallType, find_syscalls}
use zpoline_rs.Rewriter.Find.Spaced.{Spaced, find_syscalls-Spaced}
use zpoline_rs.Rewriter.World.{Prot, read_write_exec, World, Ends, if-Ends, Os, set_prot, mprotect}
use zpoline_rs.Rewriter.Rewrite.{
  Rewriter, Patch, aligned_start, aligned_size, original_prot, Left, restore, settled, write_calls,
  patch_region, with_replacements, rewrite_region,
}
use zpoline_rs.Rewriter.Rewrite.Patched.{patched}
use zpoline_rs.Rewriter.Rewrite.Loop.{Patches, patch_all-Patches}
use zpoline_rs.Rewriter.Rewrite.Pages.{pages_cover}

-- Nothing is written, or every call that the list has.
abbrev pub AllOrNothing : (ℕ → ℕ) → ℕ → List (ℕ × SyscallType) → (ℕ → ℕ) → Type 0
AllOrNothing f start xs g = ((a : ℕ) → g a ≡ f a) ⊎ ((a : ℕ) → g a ≡ patched f start xs a)

pub mprotect-granted :
    (os : Os) (a l : ℕ) (p : Prot) (w : World)
    → os w a l p ≡ none
    → mprotect os a l p w ≡ (none, record w { prot = set_prot w.prot a l p })
unfolding mprotect
mprotect-granted os a l p w h = rw (h, mprotect)

pub mprotect-refused :
    (os : Os) (a l : ℕ) (p : Prot) (w : World) (e : ℕ)
    → os w a l p ≡ some e
    → mprotect os a l p w ≡ (some e, w)
unfolding mprotect
mprotect-refused os a l p w e h = rw (h, mprotect)

pub set_prot-inside :
    (f : ℕ → Prot) (a l : ℕ) (p : Prot) (x : ℕ) → a ≤ x → x < a + l → set_prot f a l p x ≡ p
set_prot-inside f a l p x lo hi = ground arith

mprotect-memory :
    (os : Os) (a l : ℕ) (p : Prot) (w : World) → (mprotect os a l p w).1.memory ≡ w.memory
unfolding mprotect
mprotect-memory os a l p w = elim (Option-cases (os w a l p)) [
  | inl e ↦ rw (e, mprotect)
  | inr (n, e) ↦ rw (e, mprotect)
]

settled-memory :
    (c : RewriteConfig) (p : Patch) (m : Option ℕ × World) → (settled c p m).2.memory ≡ m.1.memory
settled-memory c p (none, w) = refl
settled-memory c p (some e, w) = refl

-- The slice of a region.
abbrev pub code_of : MemoryRegion → World → Slice
code_of r w = record { len = size r; byte = λ i. w.memory (r.start + i) }

module _ (os : Os) (ps : ℕ) (r : MemoryRegion) (page : 0 < ps) (order : r.start ≤ r.end)
    (top : r.end + ps ≤ 2 ^ 64) where
  size_lem : size r ≡ r.end - r.start
  size_lem = omega arith

  abbrev unprotected : World → World
  unprotected w = record w {
    prot = set_prot w.prot (aligned_start ps r) (aligned_size ps r) read_write_exec;
  }

  -- The region can be written once the pages are unprotected.
  unprotected-writable :
      (w : World) (i : ℕ) → i < size r → ((unprotected w).prot (r.start + i)).prot_write ≡ true
  unprotected-writable w i h =
      let cover = pages_cover ps r page order top in
      ap (λ (p : Prot). p.prot_write)
        (set_prot-inside w.prot (aligned_start ps r) (aligned_size ps r) read_write_exec
          (r.start + i) (omega arith) (omega (arith, size_lem)))

  -- The loop and what follows it, with the pages unprotected.
  pub loop-Ends :
      (P : Left → Type 0) (xs : List (ℕ × SyscallType)) (rewriter : Rewriter) (w : World)
      → Spaced 0 (size r) xs
      → ((q : Patch)
          → Patches r.start xs
              (record { replaced_count = 0; stats = rewriter.stats; world = unprotected w })
              q
          → P (
              settled rewriter.config q
                (mprotect os (aligned_start ps r) (aligned_size ps r) (original_prot r) q.world)))
      → os w (aligned_start ps r) (aligned_size ps r) read_write_exec ≡ none
      → Ends P (
          write_calls os ps r xs rewriter
            (mprotect os (aligned_start ps r) (aligned_size ps r) read_write_exec w))
  unfolding write_calls restore
  loop-Ends P xs rewriter w s keep e =
      let (q, run, t) =
        patch_all-Patches r.start (size r) xs 0
          (record { replaced_count = 0; stats = rewriter.stats; world = unprotected w }) s
          (omega arith) (unprotected-writable w) in
      rw (mprotect-granted os (aligned_start ps r) (aligned_size ps r) read_write_exec w e)
        (rw run (keep q t))

  patch_region-Ends :
      (xs : List (ℕ × SyscallType)) (rewriter : Rewriter) (w : World)
      → Spaced 0 (size r) xs
      → Ends (λ l. AllOrNothing w.memory r.start xs l.2.memory) (patch_region os ps r xs rewriter w)
  unfolding patch_region write_calls
  patch_region-Ends xs rewriter w s = elim (Bool-cases (aligned_start ps r == 0)) [
    | inl null ↦ rw null (inl (λ a. refl))
    | inr mapped ↦
        rw mapped
          (elim (Option-cases (os w (aligned_start ps r) (aligned_size ps r) read_write_exec)) [
            | inl e ↦
                loop-Ends (λ l. AllOrNothing w.memory r.start xs l.2.memory) xs rewriter w s
                  (λ q t. inr (λ a.
                    ap (λ (f : ℕ → ℕ). f a)
                      (settled-memory rewriter.config q (mprotect os _ _ (original_prot r) q.world)
                        ∙ mprotect-memory os _ _ _ q.world)
                    ∙ t.memory_lem a))
                  e
            | inr (n, e) ↦
                rw
                  (mprotect-refused os (aligned_start ps r) (aligned_size ps r) read_write_exec w n
                    e)
                  (inl (λ a. refl))
          ])
  ]

  module _ {D : Type 0} (decoder : Decoder D) where
    with_replacements-Ends :
        (xs : List (ℕ × SyscallType)) (rewriter : Rewriter) (w : World)
        → Spaced 0 (size r) xs
        → Ends
            (λ l. AllOrNothing w.memory r.start xs l.2.memory)
            (with_replacements os ps decoder r (some xs) rewriter w)
    unfolding with_replacements
    with_replacements-Ends [] rewriter w s = inl (λ a. refl)
    with_replacements-Ends (x ∷ xs) rewriter w s =
        if-Ends _ rewriter.config.dry_run _ _ (λ dry. inl (λ a. refl))
          (λ wet. patch_region-Ends (x ∷ xs) rewriter w s)

    -- For a decoder that follows its documentation and a region whose pages end below 2 ^ 64, the
    -- search for syscalls ends, and so does `rewrite_region`, without a panic or a fault, whatever
    -- the configuration and the answers of mprotect are: the memory is as before, or it has ff d0
    -- at each place that the search found and that has 0f 05 or 0f 34, and is as before elsewhere.
    pub rewrite_region-Ends :
        FollowsDocs decoder
        → (rewriter : Rewriter) (w : World)
        → (xs : List (ℕ × SyscallType)) × (find_syscalls decoder r.start (code_of r w) ≡ some xs)
          × Spaced 0 (size r) xs
          × Ends
              (λ l. AllOrNothing w.memory r.start xs l.2.memory)
              (rewrite_region os ps decoder r rewriter w)
    unfolding rewrite_region
    rewrite_region-Ends docs rewriter w =
        let (xs, run, s) =
          find_syscalls-Spaced decoder docs r.start (code_of r w) (omega (arith, size_lem)) in
        (
          xs,
          run,
          s,
          if-Ends _ (not (is_executable r)) _ _ (λ static. inl (λ a. refl))
              (λ code.
                if-Ends _ (is_excluded rewriter.config r) _ _ (λ left_out. inl (λ a. refl))
                  (λ wanted. rw run (with_replacements-Ends xs _ w s))),
        )
