-- ===== src/Rewriter/Rewrite.antt =====
-- zpoline_rewriter/src/rewriter.rs: `rewrite_region` and the state of the `Rewriter`.
pub mod Patched
pub mod Loop
pub mod Pages
pub mod Outcome
pub mod Granted
pub mod Refused
pub mod Kept
pub mod Counters
pub mod Typed
use Prim.Native.String.{String}
use zpoline_rs.Prelude.{
  ℕ, ◌+◌, ◌-◌, ◌*◌, ◌/◌, Bool, true, false, not, ◌||◌, List, [], ◌∷◌, Option, none, some, length,
  ltb, ◌==◌, add_64, sub_64, if◌then◌else◌,
}
use zpoline_rs.Slice.{Slice}
use zpoline_rs.Rewriter.Region.{MemoryRegion, is_executable, is_writable, size}
use zpoline_rs.Rewriter.Config.{RewriteConfig, is_excluded}
use zpoline_rs.Rewriter.Decoder.{Decoder}
use zpoline_rs.Rewriter.Find.{SyscallType, is_syscall, is_sysenter, find_syscalls}
use zpoline_rs.Rewriter.World.{
  Prot, read_write_exec, read_exec, World, Run, done, endless, Os, mprotect, load, store, ◌>>=◌,
}

-- `nix::Error` is an errno.
pub data RewriteError : Type 0 where
  protect_error : ℕ → RewriteError
  decode_error : String → RewriteError
  other_error : String → RewriteError

pub data Result (A : Type 0) : Type 0 where
  ok : A → Result A
  err : RewriteError → Result A

pub record RewriteStats : Type 0 where
  pub regions_scanned : ℕ
  pub regions_rewritten : ℕ
  pub syscalls_replaced : ℕ
  pub sysenters_replaced : ℕ
  pub regions_skipped : ℕ

-- `RewriteStats::default`.
abbrev pub no_stats : RewriteStats
no_stats = record {
  regions_scanned = 0;
  regions_rewritten = 0;
  syscalls_replaced = 0;
  sysenters_replaced = 0;
  regions_skipped = 0;
}

pub record Rewriter : Type 0 where
  pub config : RewriteConfig
  pub stats : RewriteStats

-- `Rewriter::new` and `reset_stats`.
abbrev pub new_rewriter : RewriteConfig → Rewriter
new_rewriter c = record { config = c; stats = no_stats }

abbrev pub reset_stats : Rewriter → Rewriter
reset_stats r = record r { stats = no_stats }

abbrev pub count_kind : SyscallType → RewriteStats → RewriteStats
count_kind is_syscall s = record s { syscalls_replaced = add_64 s.syscalls_replaced 1 }
count_kind is_sysenter s = record s { sysenters_replaced = add_64 s.sysenters_replaced 1 }

-- What the loop over the replacements carries.
pub record Patch : Type 0 where
  pub replaced_count : ℕ
  pub stats : RewriteStats
  pub world : World

abbrev pub is_second : ℕ → Bool
is_second b = b == 0x05 || b == 0x34

-- The body of the `if`.
unfoldable pub overwrite : ℕ → ℕ → ℕ × SyscallType → Patch → Run Patch
unfolding store
overwrite start len (offset, kind) p = do
  w ← store start len offset 0xff p.world
  w ← store start len (offset + 1) 0xd0 w
  done (record {
    replaced_count = add_64 p.replaced_count 1;
    stats = count_kind kind p.stats;
    world = w;
  })

-- One round. The second byte is looked at only if the first is 0x0f.
unfoldable pub patch_one : ℕ → ℕ → ℕ × SyscallType → Patch → Run Patch
unfolding load overwrite
patch_one start len (offset, kind) p = load start len offset p.world >>= λ b.
    if b == 0x0f
    then (load start len (offset + 1) p.world >>= λ c.
        if is_second c then overwrite start len (offset, kind) p else done p)
    else done p

unfoldable pub patch_all : ℕ → ℕ → List (ℕ × SyscallType) → Patch → Run Patch
patch_all start len [] p = done p
patch_all start len (x ∷ xs) p = do p ← patch_one start len x p; patch_all start len xs p

-- The pages that hold the region, for mprotect.
abbrev pub aligned_start : ℕ → MemoryRegion → ℕ
aligned_start page_size r = r.start / page_size * page_size

abbrev pub aligned_size : ℕ → MemoryRegion → ℕ
aligned_size page_size r =
    sub_64 (add_64 (sub_64 r.end (aligned_start page_size r)) page_size) 1 / page_size * page_size

abbrev pub original_prot : MemoryRegion → Prot
original_prot r = if is_writable r then read_write_exec else read_exec

-- What `rewrite_region` leaves: its result, the rewriter, and the memory.
abbrev pub Left : Type 0
Left = Result ℕ × Rewriter × World

-- What is left behind the second mprotect: the error, or the number of calls that were replaced.
abbrev pub settled : RewriteConfig → Patch → Option ℕ × World → Left
settled c p (some e, w) = (err (protect_error e), record { config = c; stats = p.stats }, w)
settled c p (none, w) =
    let stats =
      if ltb 0 p.replaced_count
      then record (p.stats) { regions_rewritten = add_64 p.stats.regions_rewritten 1 }
      else p.stats in
    (ok p.replaced_count, record { config = c; stats = stats }, w)

module _ (os : Os) (page_size : ℕ) where
  -- From the second mprotect on.
  unfoldable pub restore : MemoryRegion → RewriteConfig → Patch → Run Left
  restore region c p = done (
      settled c p (
        mprotect os (aligned_start page_size region) (aligned_size page_size region)
          (original_prot region) p.world))

  -- Behind the first mprotect.
  unfoldable pub write_calls :
      MemoryRegion → List (ℕ × SyscallType) → Rewriter → Option ℕ × World → Run Left
  write_calls region replacements r (some e, w) = done (err (protect_error e), r, w)
  write_calls region replacements r (none, w) = do
    p ←
        patch_all region.start (size region) replacements
          (record { replaced_count = 0; stats = r.stats; world = w })
    restore region r.config p

  -- `NonNull::new` refuses address 0.
  unfoldable pub patch_region : MemoryRegion → List (ℕ × SyscallType) → Rewriter → World → Run Left
  patch_region region replacements r w =
      if aligned_start page_size region == 0
      then done (err (other_error "Invalid pointer"), r, w)
      else write_calls region replacements r (
          mprotect os (aligned_start page_size region) (aligned_size page_size region)
            read_write_exec w)

  module _ {D : Type 0} (decoder : Decoder D) where
    -- From the search on.
    unfoldable pub with_replacements :
        MemoryRegion → Option (List (ℕ × SyscallType)) → Rewriter → World → Run Left
    with_replacements region none r w = endless
    with_replacements region (some []) r w = done (ok 0, r, w)
    with_replacements region (some (x ∷ xs)) r w =
        if r.config.dry_run
        then done (
          ok (length (x ∷ xs)),
          record r {
            stats = record (r.stats) {
              syscalls_replaced = add_64 r.stats.syscalls_replaced (length (x ∷ xs));
            };
          },
          w,
        )
        else patch_region region (x ∷ xs) r w

    unfoldable pub rewrite_region : MemoryRegion → Rewriter → World → Run Left
    rewrite_region region r w =
        let r = record r {
          stats = record (r.stats) { regions_scanned = add_64 r.stats.regions_scanned 1 };
        } in
        if not (is_executable region)
        then done (ok 0, r, w)
        else if is_excluded r.config region
        then done (
          ok 0,
          record r {
            stats = record (r.stats) { regions_skipped = add_64 r.stats.regions_skipped 1 };
          },
          w,
        )
        else with_replacements region
            (find_syscalls decoder region.start
              (record { len = size region; byte = λ i. w.memory (region.start + i) }))
            r w
