-- ===== src/Rewriter/Rewrite/Typed.antt =====
-- The memory that `rewrite_region` works on stays one of bytes, and its counters stay words of 64 bits.
use zpoline_rs.Prelude.{
  ℕ, ◌+◌, ◌^◌, ◌<◌, not, List, [], ◌∷◌, Option, none, some, ◌==◌, arith, ltb, Option-cases, inl,
  inr,
}
use zpoline_rs.Slice.{AreBytes}
use zpoline_rs.Rewriter.Region.{MemoryRegion, is_executable, size}
use zpoline_rs.Rewriter.Config.{RewriteConfig, is_excluded}
use zpoline_rs.Rewriter.Decoder.{Decoder}
use zpoline_rs.Rewriter.Find.{SyscallType, is_syscall, is_sysenter, find_syscalls}
use zpoline_rs.Rewriter.World.{
  Prot, World, IfEnds, bind-IfEnds, if-IfEnds, Os, mprotect, load, store,
}
use zpoline_rs.Rewriter.Rewrite.{
  RewriteStats, Rewriter, Patch, count_kind, is_second, overwrite, patch_one, patch_all,
  aligned_start, Left, settled, restore, write_calls, patch_region, with_replacements,
  rewrite_region,
}
use zpoline_rs.Rewriter.Rewrite.Counters.{chain-IfEnds}
use zpoline_rs.Rewriter.Rewrite.Outcome.{code_of}

pub record AreWords (s : RewriteStats) : Type 0 where
  pub scanned_lem : s.regions_scanned < 2 ^ 64
  pub rewritten_lem : s.regions_rewritten < 2 ^ 64
  pub syscalls_lem : s.syscalls_replaced < 2 ^ 64
  pub sysenters_lem : s.sysenters_replaced < 2 ^ 64
  pub skipped_lem : s.regions_skipped < 2 ^ 64

count_kind-AreWords :
    (kind : SyscallType) (s : RewriteStats) → AreWords s → AreWords (count_kind kind s)
count_kind-AreWords is_syscall s h = ground arith
count_kind-AreWords is_sysenter s h = ground arith

store-AreBytes :
    (start len i v : ℕ) (w : World)
    → v < 256
    → AreBytes w.memory
    → IfEnds (λ (u : World). AreBytes u.memory) (store start len i v w)
unfolding store
store-AreBytes start len i v w small h =
    if-IfEnds _ (ltb i len) _ _
      (λ inside.
        if-IfEnds _ (w.prot (start + i)).prot_write _ _ (λ writable a. let b = h a in ground arith)
          (λ denied. tt))
      (λ outside. tt)

-- Where the loop stands.
abbrev IsTyped : Patch → Type 0
IsTyped p = AreWords p.stats × AreBytes p.world.memory

overwrite-IsTyped :
    (start len : ℕ) (x : ℕ × SyscallType) (p : Patch)
    → IsTyped p
    → IfEnds IsTyped (overwrite start len x p)
unfolding overwrite
overwrite-IsTyped start len (offset, kind) p (s, b) =
    chain-IfEnds (λ (u : World). AreBytes u.memory) IsTyped (store start len offset 0xff p.world) _
      (store-AreBytes start len offset 0xff p.world (omega arith) b)
      (λ w h.
        chain-IfEnds (λ (u : World). AreBytes u.memory) IsTyped
          (store start len (offset + 1) 0xd0 w) _
          (store-AreBytes start len (offset + 1) 0xd0 w (omega arith) h)
          (λ w' h'. (count_kind-AreWords kind p.stats s, h')))

patch_one-IsTyped :
    (start len : ℕ) (x : ℕ × SyscallType) (p : Patch)
    → IsTyped p
    → IfEnds IsTyped (patch_one start len x p)
unfolding patch_one
patch_one-IsTyped start len (offset, kind) p h =
    bind-IfEnds IsTyped (load start len offset p.world) _ (λ b.
      if-IfEnds IsTyped (b == 0x0f) _ _
        (λ first. bind-IfEnds IsTyped (load start len (offset + 1) p.world) _ (λ c.
          if-IfEnds IsTyped (is_second c) _ _
            (λ second. overwrite-IsTyped start len (offset, kind) p h) (λ other. h)))
        (λ other. h))

patch_all-IsTyped :
    (start len : ℕ) (xs : List (ℕ × SyscallType)) (p : Patch)
    → IsTyped p
    → IfEnds IsTyped (patch_all start len xs p)
unfolding patch_all
patch_all-IsTyped start len [] p h = h
patch_all-IsTyped start len (x ∷ xs) p h =
    chain-IfEnds IsTyped IsTyped (patch_one start len x p) _ (patch_one-IsTyped start len x p h)
      (λ q k. patch_all-IsTyped start len xs q k)

mprotect-AreBytes :
    (os : Os) (a l : ℕ) (p : Prot) (w : World)
    → AreBytes w.memory
    → AreBytes (mprotect os a l p w).1.memory
unfolding mprotect
mprotect-AreBytes os a l p w h = elim (Option-cases (os w a l p)) [
  | inl e ↦ rw (e, mprotect) h
  | inr (n, e) ↦ rw (e, mprotect) h
]

-- What a call leaves.
abbrev pub LeftTyped : Left → Type 0
LeftTyped l = AreWords l.1.stats × AreBytes l.2.memory

settled-LeftTyped :
    (c : RewriteConfig) (p : Patch) (m : Option ℕ × World)
    → AreWords p.stats
    → AreBytes m.1.memory
    → LeftTyped (settled c p m)
settled-LeftTyped c p (some e, w) h b = (h, b)
settled-LeftTyped c p (none, w) h b = (ground arith, b)

module _ (os : Os) (ps : ℕ) (r : MemoryRegion) where
  write_calls-LeftTyped :
      (xs : List (ℕ × SyscallType)) (rewriter : Rewriter) (m : Option ℕ × World)
      → AreWords rewriter.stats
      → AreBytes m.1.memory
      → IfEnds LeftTyped (write_calls os ps r xs rewriter m)
  unfolding write_calls restore
  write_calls-LeftTyped xs rewriter (some e, w) h b = (h, b)
  write_calls-LeftTyped xs rewriter (none, w) h b =
      let p : Patch = record { replaced_count = 0; stats = rewriter.stats; world = w } in
      chain-IfEnds IsTyped LeftTyped (patch_all r.start (size r) xs p) _
        (patch_all-IsTyped r.start (size r) xs p (h, b))
        (λ q k. settled-LeftTyped rewriter.config q _ k.0 (mprotect-AreBytes os _ _ _ q.world k.1))

  patch_region-LeftTyped :
      (xs : List (ℕ × SyscallType)) (rewriter : Rewriter) (w : World)
      → AreWords rewriter.stats
      → AreBytes w.memory
      → IfEnds LeftTyped (patch_region os ps r xs rewriter w)
  unfolding patch_region
  patch_region-LeftTyped xs rewriter w h b =
      if-IfEnds _ (aligned_start ps r == 0) _ _ (λ null. (h, b))
        (λ mapped. write_calls-LeftTyped xs rewriter _ h (mprotect-AreBytes os _ _ _ w b))

  module _ {D : Type 0} (decoder : Decoder D) where
    with_replacements-LeftTyped :
        (o : Option (List (ℕ × SyscallType))) (rewriter : Rewriter) (w : World)
        → AreWords rewriter.stats
        → AreBytes w.memory
        → IfEnds LeftTyped (with_replacements os ps decoder r o rewriter w)
    unfolding with_replacements
    with_replacements-LeftTyped none rewriter w h b = tt
    with_replacements-LeftTyped (some []) rewriter w h b = (h, b)
    with_replacements-LeftTyped (some (x ∷ xs)) rewriter w h b =
        if-IfEnds _ rewriter.config.dry_run _ _ (λ dry. (ground arith, b))
          (λ wet. patch_region-LeftTyped (x ∷ xs) rewriter w h b)

    pub rewrite_region-LeftTyped :
        (rewriter : Rewriter) (w : World)
        → AreWords rewriter.stats
        → AreBytes w.memory
        → IfEnds LeftTyped (rewrite_region os ps decoder r rewriter w)
    unfolding rewrite_region
    rewrite_region-LeftTyped rewriter w h b =
        if-IfEnds _ (not (is_executable r)) _ _ (λ static. (ground arith, b))
          (λ usual.
            if-IfEnds _ (is_excluded rewriter.config r) _ _ (λ left_out. (ground arith, b))
              (λ wanted.
                with_replacements-LeftTyped (find_syscalls decoder r.start (code_of r w)) _ w
                  (ground arith) b))
