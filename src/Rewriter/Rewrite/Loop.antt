-- ===== src/Rewriter/Rewrite/Loop.antt =====
-- The loop over the replacements leaves the memory that the description says.
use zpoline_rs.Prelude.{
  ℕ, ◌+◌, ◌^◌, ◌≤◌, ◌<◌, ◌≡◌, inl, inr, refl, ◌∙◌, true, List, [], ◌∷◌, arith, add_64,
  if◌then◌else◌, Bool-cases,
}
use zpoline_rs.Rewriter.Find.{SyscallType}
use zpoline_rs.Rewriter.Find.Spaced.{Spaced}
use zpoline_rs.Rewriter.World.{done}
use zpoline_rs.Rewriter.Rewrite.{count_kind, Patch, patch_one, patch_all}
use zpoline_rs.Rewriter.Rewrite.Patched.{
  hits, patched, count_hits, counted, with_call, patched-with_call, count_hits-with_call,
  counted-with_call,
}

pub record Patches (start : ℕ) (xs : List (ℕ × SyscallType)) (p q : Patch) : Type 0 where
  pub same_prot : q.world.prot ≡ p.world.prot
  pub stats_lem : q.stats ≡ counted p.world.memory start xs p.stats
  pub count_lem : q.replaced_count ≡ add_64 p.replaced_count (count_hits p.world.memory start xs)
  pub memory_lem : (a : ℕ) → q.world.memory a ≡ patched p.world.memory start xs a

abbrev replaced : ℕ → ℕ → SyscallType → Patch → Patch
replaced start offset kind p = record {
  replaced_count = add_64 p.replaced_count 1;
  stats = count_kind kind p.stats;
  world = record (p.world) { memory = with_call p.world.memory start offset };
}

-- One round, where both bytes are inside and may be written.
abbrev after_one : ℕ → ℕ × SyscallType → Patch → Patch
after_one start (offset, kind) p =
    if hits p.world.memory start offset then replaced start offset kind p else p

patch_one_lem :
    (start len offset : ℕ) (kind : SyscallType) (p : Patch)
    → offset + 2 ≤ len
    → (p.world.prot (start + offset)).prot_write ≡ true
    → (p.world.prot (start + (offset + 1))).prot_write ≡ true
    → patch_one start len (offset, kind) p ≡ done (after_one start (offset, kind) p)
unfolding patch_one
patch_one_lem start len offset kind p h w w' = ground arith

module _ (start len : ℕ) where
  pub patch_all-Patches :
      (xs : List (ℕ × SyscallType)) (lo : ℕ) (p : Patch)
      → Spaced lo len xs
      → p.replaced_count < 2 ^ 64
      → ((i : ℕ) → i < len → (p.world.prot (start + i)).prot_write ≡ true)
      → (q : Patch) × (patch_all start len xs p ≡ done q) × Patches start xs p q
  unfolding patch_all patched count_hits counted
  patch_all-Patches [] lo p s c w = (
    p,
    refl,
    record { same_prot = refl; stats_lem = refl; count_lem = omega arith; memory_lem = λ a. refl },
  )
  patch_all-Patches ((offset, kind) ∷ xs) lo p (a, b, s) c w =
      elim (Bool-cases (hits p.world.memory start offset)) [
        | inl hit ↦
            let p' = replaced start offset kind p in
            let f = p.world.memory in
            let (q, run, t) = patch_all-Patches xs (offset + 2) p' s (omega arith) w in
            let step =
              patch_one_lem start len offset kind p b (w offset (omega arith))
                (w (offset + 1) (omega arith)) in
            (
              q,
              rw step (rw hit run),
              record {
                same_prot = t.same_prot;
                stats_lem =
                    t.stats_lem
                    ∙ counted-with_call f start offset (offset + 2) len xs _ (omega arith) s
                    ∙ rw hit refl;
                count_lem = rw hit (
                    omega (
                      arith,
                      t.count_lem,
                      count_hits-with_call f start offset (offset + 2) len xs (omega arith) s,
                    ));
                memory_lem = λ x.
                    t.memory_lem x
                    ∙ patched-with_call f start offset (offset + 2) len xs x (omega arith) s
                    ∙ rw hit refl;
              },
            )
        | inr miss ↦
            let (q, run, t) = patch_all-Patches xs (offset + 2) p s c w in
            let step =
              patch_one_lem start len offset kind p b (w offset (omega arith))
                (w (offset + 1) (omega arith)) in
            (
              q,
              rw step (rw miss run),
              record {
                same_prot = t.same_prot;
                stats_lem = rw miss t.stats_lem;
                count_lem = rw miss t.count_lem;
                memory_lem = λ x. rw miss (t.memory_lem x);
              },
            )
      ]
