-- ===== src/Loader/Startup/Intact.antt =====
-- zpoline_loader/src/lib.rs: after the start the trampoline is in place.
use zpoline_rs.Prelude.{ℕ, ◌+◌, ◌^◌, ◌<◌, ◌≡◌, inl, refl, ◌∙◌, List, Option, some, arith, All}
use zpoline_rs.Slice.{Slice}
use zpoline_rs.Trampoline.Generate.{trampoline_size, generate_trampoline_code}
use zpoline_rs.Trampoline.Listing.{IsTrampoline, generate_trampoline_code-IsTrampoline}
use zpoline_rs.HookApi.Process.{HookFn, Process}
use zpoline_rs.Rewriter.Region.{MemoryRegion}
use zpoline_rs.Rewriter.Decoder.{Decoder, FollowsDocs}
use zpoline_rs.Rewriter.World.{World, Ends, bind-Ends, map-Ends, Os}
use zpoline_rs.Rewriter.Rewrite.{Result, ok, err, RewriteStats}
use zpoline_rs.Loader.Config.{Surroundings}
use zpoline_rs.Loader.HookLibrary.{Linker, HookSettings, find_hook}
use zpoline_rs.Loader.Pass.{read_maps, rewrite_syscalls}
use zpoline_rs.Loader.Pass.Protected.{WellPlaced, protected-SparedAt, rewrite_syscalls-AllKept}
use zpoline_rs.Loader.Startup.{
  mapped, zero_memory, with_mapping, setup_trampoline, Init, initialized, set_hook, after_rewriting,
  zpoline_init,
}

-- The process runs, the memory has a property, and the hook that was found is set.
pub record Goes {S K L : Type 0} (Q : World → Type 0) (found : Option HookFn × L) (p : Process S K)
    (i : Init S K L) : Type 0 where
  pub stats : RewriteStats
  pub world : World
  pub runs : i ≡ initialized stats world (set_hook found.0 p) found.1
  pub holds : Q world

-- The trampoline's code is at address 0.
abbrev pub InPlace : Slice → World → Type 0
InPlace mem w = (a : ℕ) → a < trampoline_size → w.memory a ≡ mem.byte a

abbrev pub Ready : {S K L : Type 0} → Slice → Option HookFn × L → Process S K → Init S K L → Type 0
Ready mem found p i = Goes (InPlace mem) found p i

-- The pass gives its statistics and leaves memory that has a property.
abbrev pub PassLeaves : (World → Type 0) → Result RewriteStats × World → Type 0
PassLeaves Q l = ((stats : RewriteStats) × (l.0 ≡ ok stats)) × Q l.1

pub in_mapping :
    (mem : Slice) (w : World) (a : ℕ)
    → mem.len ≡ trampoline_size
    → a < trampoline_size
    → (with_mapping 0 mem w).memory a ≡ mem.byte a
in_mapping mem w a e h = ground arith

module _ (os : Os) (ps : ℕ) {D : Type 0} (decoder : Decoder D) {S K L : Type 0}
    (linker : Linker L) where
  after_rewriting-Goes :
      (Q : World → Type 0) (s : Surroundings) (hooks : HookSettings) (l : L) (p : Process S K)
      (r : Result RewriteStats × World) (stats : RewriteStats)
      → r.0 ≡ ok stats
      → Q r.1
      → Ends
          (Goes Q (find_hook linker hooks s.current_exe l) p)
          (after_rewriting os ps decoder linker s hooks l p r)
  after_rewriting-Goes Q s hooks l p (err e, w) stats h k = cc
  after_rewriting-Goes Q s hooks l p (ok t, w) stats h k = record {
    stats = t;
    world = w;
    runs = refl;
    holds = k;
  }

  -- What the pass leaves behind the trampoline's set-up, the start leaves.
  pub zpoline_init-Goes :
      (Q : World → Type 0) (hook_entry_addr : ℕ) (mem : Slice) (s : Surroundings)
      (regions : List MemoryRegion) (hooks : HookSettings) (l : L) (w : World) (p : Process S K)
      → generate_trampoline_code hook_entry_addr zero_memory ≡ some mem
      → Ends
          (PassLeaves Q)
          (rewrite_syscalls os ps decoder s (read_maps regions) (with_mapping 0 mem w))
      → Ends (Goes Q (find_hook linker hooks s.current_exe l) p) (
          zpoline_init os ps decoder linker hook_entry_addr
            (mapped 0)
            s
            (read_maps regions)
            hooks
            l
            w
            p)
  unfolding zpoline_init setup_trampoline
  zpoline_init-Goes Q hook_entry_addr mem s regions hooks l w p run pass = rw run (
      bind-Ends (PassLeaves Q) (Goes Q (find_hook linker hooks s.current_exe l) p)
        (rewrite_syscalls os ps decoder s (read_maps regions) (with_mapping 0 mem w)) _ pass
        (λ r k. after_rewriting-Goes Q s hooks l p r k.0.0 k.0.1 k.1))

module _ (os : Os) (ps : ℕ) (page : 0 < ps) {D : Type 0} (decoder : Decoder D)
    (docs : FollowsDocs decoder) {S K L : Type 0} (linker : Linker L) where
  -- For a decoder that follows its documentation and regions whose pages end below 2 ^ 64, whatever
  -- they are and whatever mprotect answers, and with `raw_syscall` a page below 2 ^ 64 at least: if
  -- mmap gives address 0, `zpoline_init` ends without a panic, a fault or an exit, whatever the linker
  -- does: the hook of the hook library is set if one is found and loads, the hook stays as it is
  -- otherwise, and the trampoline's code is at address 0, not touched by the rewriting.
  pub zpoline_init-Ready :
      (hook_entry_addr : ℕ) (s : Surroundings) (regions : List MemoryRegion) (hooks : HookSettings)
      (l : L) (w : World) (p : Process S K)
      → hook_entry_addr < 2 ^ 64
      → All (WellPlaced ps) regions
      → s.raw_syscall_addr + 4096 < 2 ^ 64
      → (mem : Slice) × IsTrampoline hook_entry_addr mem
        × Ends (Ready mem (find_hook linker hooks s.current_exe l) p) (
            zpoline_init os ps decoder linker hook_entry_addr
              (mapped 0)
              s
              (read_maps regions)
              hooks
              l
              w
              p)
  zpoline_init-Ready hook_entry_addr s regions hooks l w p fits place top =
      let (mem, run, listed) =
        generate_trampoline_code-IsTrampoline hook_entry_addr zero_memory fits refl in
      (
        mem,
        listed,
        zpoline_init-Goes os ps decoder linker (InPlace mem) hook_entry_addr mem s regions hooks l w
            p run
            (map-Ends _ (PassLeaves (InPlace mem))
              (rewrite_syscalls os ps decoder s (read_maps regions) (with_mapping 0 mem w))
              (rewrite_syscalls-AllKept os ps page decoder docs s regions (with_mapping 0 mem w)
                place)
              (λ r k. (
                k.0,
                (λ a h.
                    k.1 a (protected-SparedAt s a top (inl (omega arith)) regions)
                    ∙ in_mapping mem w a listed.same_len h),
              ))),
      )
