-- ===== src/Loader/Pass.antt =====
-- zpoline_loader/src/init.rs: `rewrite_syscalls`. What `parse_proc_maps` gives is an argument.
pub mod Protected
pub mod Counted
pub mod Described
pub mod Rewritten
pub mod Replaced
pub mod Typed
pub use zpoline_rs.Rewriter.Maps.File.{ProcMaps, read_maps, failed_maps}
use Prim.Native.String.{String, ◌++◌}
use zpoline_rs.Prelude.{
  ℕ, Bool, true, false, not, ◌&&◌, ◌||◌, List, [], ◌∷◌, Option, none, some, ◌==◌, if◌then◌else◌,
}
use zpoline_rs.Rewriter.Region.{MemoryRegion, is_executable}
use zpoline_rs.Rewriter.Decoder.{Decoder}
use zpoline_rs.Rewriter.World.{World, Run, done, Os, ◌>>=◌}
use zpoline_rs.Rewriter.Rewrite.{
  Result, ok, err, RewriteError, other_error, RewriteStats, Rewriter, new_rewriter, Left,
  rewrite_region,
}
use zpoline_rs.Loader.Config.{Surroundings, build_rewrite_config}

abbrev pub begins_with : List ℕ → List ℕ → Bool
begins_with text [] = true
begins_with [] (y ∷ ys) = false
begins_with (x ∷ xs) (y ∷ ys) = x == y && begins_with xs ys

-- `str::contains`.
abbrev pub contains_text : List ℕ → List ℕ → Bool
contains_text [] part = begins_with [] part
contains_text (x ∷ xs) part = begins_with (x ∷ xs) part || contains_text xs part

abbrev pub vdso : List ℕ
vdso = b'[' ∷ b'v' ∷ b'd' ∷ b's' ∷ b'o' ∷ b']' ∷ []

abbrev pub vsyscall : List ℕ
vsyscall = b'[' ∷ b'v' ∷ b's' ∷ b'y' ∷ b's' ∷ b'c' ∷ b'a' ∷ b'l' ∷ b'l' ∷ b']' ∷ []

-- The regions that the kernel puts into the process.
abbrev pub is_special : Option (List ℕ) → Bool
is_special none = false
is_special (some path) = contains_text path vdso || contains_text path vsyscall

-- The message of `Failed to parse /proc/self/maps`.
abbrev pub maps_error : String → String
maps_error e = "Failed to parse /proc/self/maps: " ++ e

module _ (os : Os) (page_size : ℕ) {D : Type 0} (decoder : Decoder D) where
  -- The loop; an error of one region is only printed.
  unfoldable pub rewrite_each : List MemoryRegion → Rewriter → World → Run (Rewriter × World)
  rewrite_each [] r w = done (r, w)
  rewrite_each (region ∷ regions) r w =
      if not (is_executable region)
      then rewrite_each regions r w
      else if is_special region.pathname
      then rewrite_each regions r w
      else (rewrite_region os page_size decoder region r w >>= λ l. rewrite_each regions l.1 l.2)

  unfoldable pub rewrite_syscalls :
      Surroundings → ProcMaps → World → Run (Result RewriteStats × World)
  unfolding rewrite_each
  rewrite_syscalls s (failed_maps e) w = done (err (other_error (maps_error e)), w)
  rewrite_syscalls s (read_maps regions) w =
      rewrite_each regions (new_rewriter (build_rewrite_config s)) w >>= λ l.
      done (ok (l.0.stats), l.1)
