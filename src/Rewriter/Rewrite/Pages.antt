-- ===== src/Rewriter/Rewrite/Pages.antt =====
-- The pages that are unprotected and protected again.
use zpoline_rs.Prelude.{ℕ, ◌+◌, ◌-◌, ◌*◌, ◌/◌, ◌^◌, ◌≤◌, ◌<◌, ◌≡◌, ap, arith, add_64, sub_64}
use zpoline_rs.Rewriter.Region.{MemoryRegion}
use zpoline_rs.Rewriter.Rewrite.{aligned_start, aligned_size}

round_down : (x ps : ℕ) → 0 < ps → (x / ps * ps ≤ x) × (x < x / ps * ps + ps)
round_down x ps h = grind arith

no_wrap :
    (e a ps : ℕ)
    → 0 < ps
    → a ≤ e
    → e + ps ≤ 2 ^ 64
    → sub_64 (add_64 (sub_64 e a) ps) 1 ≡ e - a + ps - 1
no_wrap e a ps h o t = omega arith

-- The length without the wrapping.
aligned_size_lem :
    (ps : ℕ) (r : MemoryRegion)
    → 0 < ps
    → r.start ≤ r.end
    → r.end + ps ≤ 2 ^ 64
    → aligned_size ps r ≡ (r.end - aligned_start ps r + ps - 1) / ps * ps
aligned_size_lem ps r h o t =
    let below = round_down r.start ps h in
    ap (λ n. n / ps * ps) (no_wrap r.end (aligned_start ps r) ps h (omega arith) t)

-- For a region that ends a page below 2 ^ 64 at the latest, the address and the length for mprotect
-- cover the region, with less than a page too much on each side.
pub pages_cover :
    (ps : ℕ) (r : MemoryRegion)
    → 0 < ps
    → r.start ≤ r.end
    → r.end + ps ≤ 2 ^ 64
    → (aligned_start ps r ≤ r.start)
      × (r.start < aligned_start ps r + ps)
      × (r.end ≤ aligned_start ps r + aligned_size ps r)
      × (aligned_start ps r + aligned_size ps r < r.end + ps)
pages_cover ps r h o t =
    let a = round_down r.start ps h in
    let b = round_down (r.end - aligned_start ps r + ps - 1) ps h in
    rw (aligned_size_lem ps r h o t) (omega arith)
