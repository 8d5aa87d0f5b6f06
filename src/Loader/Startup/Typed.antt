-- ===== src/Loader/Startup/Typed.antt =====
-- zpoline_loader/src/lib.rs: the start comes to its end on every branch, with memory of bytes.
use zpoline_rs.Prelude.{ℕ, ◌-◌, ◌^◌, ◌<◌, refl, arith}
use zpoline_rs.Slice.{Slice, AreBytes}
use zpoline_rs.Trampoline.Listing.{generate_trampoline_code-IsTrampoline}
use zpoline_rs.Trampoline.Typed.{generate_trampoline_code-IsTyped}
use zpoline_rs.HookApi.Process.{Process}
use zpoline_rs.Rewriter.Decoder.{Decoder, FollowsDocs}
use zpoline_rs.Rewriter.World.{World, Ends, bind-Ends, Os}
use zpoline_rs.Rewriter.Rewrite.{Result, ok, err, RewriteStats}
use zpoline_rs.Rewriter.Rewrite.Typed.{AreWords}
use zpoline_rs.Loader.Config.{Surroundings}
use zpoline_rs.Loader.HookLibrary.{Linker, HookSettings}
use zpoline_rs.Loader.Pass.{ProcMaps, rewrite_syscalls}
use zpoline_rs.Loader.Pass.Typed.{WordsIn, MapsPlaced, rewrite_syscalls-Typed}
use zpoline_rs.Loader.Startup.{
  Mmap, mapped, map_failed, zero_memory, with_mapping, setup_trampoline, Init, initialized, exited,
  after_rewriting, zpoline_init,
}

-- The process has ended with the status of a failure, or the memory has bytes and the counters are
-- words of 64 bits.
abbrev pub StartTyped : {S K L : Type 0} → Init S K L → Type 0
StartTyped (exited status) = Unit
StartTyped (initialized stats w p l) = AreWords stats × AreBytes w.memory

with_mapping-AreBytes :
    (base : ℕ) (mem : Slice) (w : World)
    → AreBytes mem.byte
    → AreBytes w.memory
    → AreBytes (with_mapping base mem w).memory
with_mapping-AreBytes base mem w h k a = let b = h (a - base) in let c = k a in ground arith

module _ (os : Os) (ps : ℕ) (page : 0 < ps) {D : Type 0} (decoder : Decoder D)
    (docs : FollowsDocs decoder) {S K L : Type 0} (linker : Linker L) where
  after_rewriting-StartTyped :
      (s : Surroundings) (hooks : HookSettings) (l : L) (p : Process S K)
      (r : Result RewriteStats × World)
      → WordsIn r.0
      → AreBytes r.1.memory
      → Ends StartTyped (after_rewriting os ps decoder linker s hooks l p r)
  after_rewriting-StartTyped s hooks l p (err e, w) h b = tt
  after_rewriting-StartTyped s hooks l p (ok stats, w) h b = (h, b)

  -- Whatever mmap, mprotect, the linker and the reading of /proc/self/maps answer: `zpoline_init` comes
  -- to its end without a panic or a fault, by an exit or with the process going on, and where it goes
  -- on from memory of bytes, every cell of the memory has a byte still and every counter of the
  -- statistics is below 2 ^ 64. The decoder follows its documentation, regions that are read have their
  -- pages below 2 ^ 64, and so is `hook_entry`.
  pub zpoline_init-StartTyped :
      (hook_entry_addr : ℕ) (mmap : Mmap) (s : Surroundings) (maps : ProcMaps)
      (hooks : HookSettings) (l : L) (w : World) (p : Process S K)
      → hook_entry_addr < 2 ^ 64
      → MapsPlaced ps maps
      → AreBytes w.memory
      → Ends StartTyped (zpoline_init os ps decoder linker hook_entry_addr mmap s maps hooks l w p)
  unfolding zpoline_init setup_trampoline
  zpoline_init-StartTyped addr (map_failed e) s maps hooks l w p below place b = tt
  zpoline_init-StartTyped addr (mapped base) s maps hooks l w p below place b =
      let (mem, run, listed) = generate_trampoline_code-IsTrampoline addr zero_memory below refl in
      let zeros : AreBytes zero_memory.byte = λ a. omega arith in
      let bytes : AreBytes mem.byte =
        rw run at (generate_trampoline_code-IsTyped addr zero_memory zeros) in
      rw run (
        bind-Ends _ StartTyped (rewrite_syscalls os ps decoder s maps (with_mapping base mem w)) _
          (rewrite_syscalls-Typed os ps page decoder docs s maps (with_mapping base mem w) place
            (with_mapping-AreBytes base mem w bytes b))
          (λ r k. after_rewriting-StartTyped s hooks l p r k.0 k.1))
