-- ===== src/Loader/Pass/Typed.antt =====
-- zpoline_loader/src/init.rs: the pass works on bytes and counts in words of 64 bits.
use zpoline_rs.Prelude.{ℕ, ◌<◌, All, not, List, [], ◌∷◌, arith}
use zpoline_rs.Slice.{AreBytes}
use zpoline_rs.Rewriter.Region.{MemoryRegion, is_executable}
use zpoline_rs.Rewriter.Decoder.{Decoder, FollowsDocs}
use zpoline_rs.Rewriter.World.{World, Ends, both-Ends, IfEnds, if-IfEnds, Os}
use zpoline_rs.Rewriter.Rewrite.{
  Result, ok, err, RewriteStats, Rewriter, new_rewriter, rewrite_region,
}
use zpoline_rs.Rewriter.Rewrite.Counters.{chain-IfEnds}
use zpoline_rs.Rewriter.Rewrite.Typed.{AreWords, LeftTyped, rewrite_region-LeftTyped}
use zpoline_rs.Loader.Config.{Surroundings, build_rewrite_config}
use zpoline_rs.Loader.Pass.Protected.{WellPlaced, rewrite_syscalls-AllKept}
use zpoline_rs.Loader.Pass.{
  ProcMaps, read_maps, failed_maps, is_special, rewrite_each, rewrite_syscalls,
}

-- The statistics that a pass gives, if it gives any.
abbrev pub WordsIn : Result RewriteStats → Type 0
WordsIn (ok stats) = AreWords stats
WordsIn (err e) = Unit

module _ (os : Os) (ps : ℕ) {D : Type 0} (decoder : Decoder D) where
  abbrev LoopTyped : Rewriter × World → Type 0
  LoopTyped l = AreWords l.0.stats × AreBytes l.1.memory

  rewrite_each-LoopTyped :
      (regions : List MemoryRegion) (rewriter : Rewriter) (w : World)
      → AreWords rewriter.stats
      → AreBytes w.memory
      → IfEnds LoopTyped (rewrite_each os ps decoder regions rewriter w)
  unfolding rewrite_each
  rewrite_each-LoopTyped [] rewriter w h b = (h, b)
  rewrite_each-LoopTyped (r ∷ regions) rewriter w h b =
      let skipped = rewrite_each-LoopTyped regions rewriter w h b in
      if-IfEnds _ (not (is_executable r)) _ _ (λ static. skipped)
        (λ code.
          if-IfEnds _ (is_special r.pathname) _ _ (λ special. skipped)
            (λ usual.
              chain-IfEnds LeftTyped LoopTyped (rewrite_region os ps decoder r rewriter w) _
                (rewrite_region-LeftTyped os ps r decoder rewriter w h b)
                (λ l k. rewrite_each-LoopTyped regions l.1 l.2 k.0 k.1)))

  pub rewrite_syscalls-WordsIn :
      (s : Surroundings) (maps : ProcMaps) (w : World)
      → AreBytes w.memory
      → IfEnds (λ l. WordsIn l.0 × AreBytes l.1.memory) (rewrite_syscalls os ps decoder s maps w)
  unfolding rewrite_syscalls
  rewrite_syscalls-WordsIn s (failed_maps e) w b = (tt, b)
  rewrite_syscalls-WordsIn s (read_maps regions) w b =
      chain-IfEnds LoopTyped _
        (rewrite_each os ps decoder regions (new_rewriter (build_rewrite_config s)) w) _
        (rewrite_each-LoopTyped regions (new_rewriter (build_rewrite_config s)) w (omega arith) b)
        (λ l k. k)

-- What /proc/self/maps says, if it can be read.
abbrev pub MapsPlaced : ℕ → ProcMaps → Type 0
MapsPlaced ps (read_maps regions) = All (WellPlaced ps) regions
MapsPlaced ps (failed_maps e) = Unit

module _ (os : Os) (ps : ℕ) (page : 0 < ps) {D : Type 0} (decoder : Decoder D)
    (docs : FollowsDocs decoder) where
  pub rewrite_syscalls-Typed :
      (s : Surroundings) (maps : ProcMaps) (w : World)
      → MapsPlaced ps maps
      → AreBytes w.memory
      → Ends (λ l. WordsIn l.0 × AreBytes l.1.memory) (rewrite_syscalls os ps decoder s maps w)
  unfolding rewrite_syscalls
  rewrite_syscalls-Typed s (failed_maps e) w place b = (tt, b)
  rewrite_syscalls-Typed s (read_maps regions) w place b =
      both-Ends _ _ _ (rewrite_syscalls os ps decoder s (read_maps regions) w)
        (rewrite_syscalls-AllKept os ps page decoder docs s regions w place)
        (rewrite_syscalls-WordsIn os ps decoder s (read_maps regions) w b) (λ l k h. h)
