-- ===== src/Rewriter/Rewrite/Kept.antt =====
-- What `rewrite_region` leaves alone: the configuration, and all that is outside the region.
use zpoline_rs.Prelude.{
  ℕ, ◌+◌, ◌≤◌, ◌<◌, ◌≡◌, ◌⊎◌, inl, inr, refl, sym, ap, ◌∙◌, true, false, not, List, [], ◌∷◌, Option,
  none, some, arith, ◌==◌,
}
use mathlib.Core.Bool.{true≢false}
use zpoline_rs.Rewriter.Region.{MemoryRegion, is_executable, size}
use zpoline_rs.Rewriter.Config.{RewriteConfig, is_excluded}
use zpoline_rs.Rewriter.Decoder.{Decoder}
use zpoline_rs.Rewriter.Find.{SyscallType, find_syscalls}
use zpoline_rs.Rewriter.Find.Spaced.{Spaced}
use zpoline_rs.Rewriter.World.{World, IfEnds, if-IfEnds, map-IfEnds, bind-IfEnds, Os}
use zpoline_rs.Rewriter.Rewrite.{
  Rewriter, Patch, patch_all, aligned_start, Left, settled, restore, write_calls, patch_region,
  with_replacements, rewrite_region,
}
use zpoline_rs.Rewriter.Rewrite.Outcome.{code_of}
use zpoline_rs.Rewriter.Rewrite.Patched.{patched}

pub patched_outside :
    (f : ℕ → ℕ) (start lo hi : ℕ) (xs : List (ℕ × SyscallType)) (a : ℕ)
    → Spaced lo hi xs
    → (a < start + lo) ⊎ (start + hi ≤ a)
    → patched f start xs a ≡ f a
unfolding patched
patched_outside f start lo hi [] a s h = refl
patched_outside f start lo hi ((offset, kind) ∷ xs) a (p, q, s) (inl before) =
    ground (arith, patched_outside f start (offset + 2) hi xs a s (inl (omega arith)))
patched_outside f start lo hi ((offset, kind) ∷ xs) a (p, q, s) (inr behind) =
    ground (arith, patched_outside f start (offset + 2) hi xs a s (inr behind))

settled-config :
    (c : RewriteConfig) (p : Patch) (m : Option ℕ × World) → (settled c p m).1.config ≡ c
settled-config c p (none, w) = refl
settled-config c p (some e, w) = refl

module _ (os : Os) (ps : ℕ) (r : MemoryRegion) where
  write_calls-config :
      (xs : List (ℕ × SyscallType)) (rewriter : Rewriter) (m : Option ℕ × World)
      → IfEnds (λ (l : Left). l.1.config ≡ rewriter.config) (write_calls os ps r xs rewriter m)
  unfolding write_calls restore
  write_calls-config xs rewriter (some e, w) = refl
  write_calls-config xs rewriter (none, w) =
      bind-IfEnds (λ (l : Left). l.1.config ≡ rewriter.config) (patch_all r.start (size r) xs _) _
        (λ p. settled-config rewriter.config p _)

  patch_region-config :
      (xs : List (ℕ × SyscallType)) (rewriter : Rewriter) (w : World)
      → IfEnds (λ (l : Left). l.1.config ≡ rewriter.config) (patch_region os ps r xs rewriter w)
  unfolding patch_region
  patch_region-config xs rewriter w =
      if-IfEnds _ (aligned_start ps r == 0) _ _ (λ null. refl)
        (λ mapped. write_calls-config xs rewriter _)

  module _ {D : Type 0} (decoder : Decoder D) where
    with_replacements-config :
        (o : Option (List (ℕ × SyscallType))) (rewriter : Rewriter) (w : World)
        → IfEnds
            (λ (l : Left). l.1.config ≡ rewriter.config)
            (with_replacements os ps decoder r o rewriter w)
    unfolding with_replacements
    with_replacements-config none rewriter w = tt
    with_replacements-config (some []) rewriter w = refl
    with_replacements-config (some (x ∷ xs)) rewriter w =
        if-IfEnds _ rewriter.config.dry_run _ _ (λ dry. refl)
          (λ wet. patch_region-config (x ∷ xs) rewriter w)

    -- The configuration, and the memory of a region that is excluded.
    pub rewrite_region-config :
        (rewriter : Rewriter) (w : World)
        → IfEnds
            (λ (l : Left).
              (l.1.config ≡ rewriter.config)
              × ((is_executable r ≡ false) ⊎ (is_excluded rewriter.config r ≡ true) → l.2 ≡ w))
            (rewrite_region os ps decoder r rewriter w)
    unfolding rewrite_region
    rewrite_region-config rewriter w =
        if-IfEnds _ (not (is_executable r)) _ _ (λ static. (refl, (λ h. refl)))
          (λ code.
            if-IfEnds _ (is_excluded rewriter.config r) _ _ (λ left_out. (refl, (λ h. refl)))
              (λ wanted.
                map-IfEnds (λ (l : Left). l.1.config ≡ rewriter.config) _
                  (with_replacements os ps decoder r (find_syscalls decoder r.start (code_of r w)) _
                    w)
                  (with_replacements-config _ _ w)
                  (λ l e. (
                    e,
                    (λ h. elim h [
                      | inl static ↦ absurd (true≢false (sym (ap not static) ∙ code))
                      | inr left_out ↦ absurd (true≢false (sym left_out ∙ wanted))
                    ]),
                  ))))
