-- ===== src/Loader/Startup.antt =====
-- zpoline_loader/src/lib.rs: what `zpoline_init` does, once, and zpoline_loader/src/trampoline.rs:
-- `setup_trampoline`. The answer of mmap and the linker are arguments. Loading a hook library is taken
-- to leave the memory that the process has as it is.
pub mod Intact
pub mod Typed
use zpoline_rs.Prelude.{ℕ, ◌+◌, ◌-◌, Bool, ◌&&◌, Option, none, some, ltb, leb, if◌then◌else◌}
use zpoline_rs.Slice.{Slice}
use zpoline_rs.Trampoline.Generate.{trampoline_size, generate_trampoline_code}
use zpoline_rs.HookApi.Process.{HookFn, Process}
use zpoline_rs.HookApi.Entry.{hook_init}
use zpoline_rs.Rewriter.Decoder.{Decoder}
use zpoline_rs.Rewriter.World.{World, Run, done, panicked, Os, read_write_exec, set_prot, ◌>>=◌}
use zpoline_rs.Rewriter.Rewrite.{Result, ok, err, RewriteStats}
use zpoline_rs.Loader.Config.{Surroundings}
use zpoline_rs.Loader.HookLibrary.{Linker, HookSettings, find_hook}
use zpoline_rs.Loader.Pass.{ProcMaps, rewrite_syscalls}

-- The address that mmap gives, or MAP_FAILED with an errno.
pub data Mmap : Type 0 where
  mapped : ℕ → Mmap
  map_failed : ℕ → Mmap

-- An anonymous mapping is zero.
abbrev pub zero_memory : Slice
zero_memory = record { len = trampoline_size; byte = λ _. 0 }

-- The memory with the mapping in it, as far as the slice goes that the code works on.
abbrev pub with_mapping : ℕ → Slice → World → World
with_mapping base mem w = record {
  memory = λ a. if leb base a && ltb a (base + mem.len) then mem.byte (a - base) else w.memory a;
  prot = set_prot w.prot base trampoline_size read_write_exec;
}

abbrev pub filled_in : ℕ → Option Slice → World → Run (Option ℕ × World)
filled_in base none w = panicked
filled_in base (some mem) w = done (none, with_mapping base mem w)

-- `none` is `Ok(())`, an errno is `MmapFailed`; the first argument is the address of `hook_entry`.
unfoldable pub setup_trampoline : ℕ → Mmap → World → Run (Option ℕ × World)
setup_trampoline hook_entry_addr (map_failed e) w = done (some e, w)
setup_trampoline hook_entry_addr (mapped base) w =
    filled_in base (generate_trampoline_code hook_entry_addr zero_memory) w

-- The process goes on, or `std::process::exit` ends it.
pub data Init (S K L : Type 0) : Type 0 where
  exited : ℕ → Init S K L
  initialized : RewriteStats → World → Process S K → L → Init S K L

module _ {S K : Type 0} where
  -- A hook library that gave a hook function; without one the default hook stays.
  abbrev pub set_hook : Option HookFn → Process S K → Process S K
  set_hook none p = p
  set_hook (some hook_fn) p = hook_init hook_fn p

module _ (os : Os) (page_size : ℕ) {D : Type 0} (decoder : Decoder D) {L : Type 0}
    (linker : Linker L) where
  abbrev pub after_rewriting :
      {S K : Type 0}
      → Surroundings
      → HookSettings
      → L
      → Process S K
      → Result RewriteStats × World
      → Run (Init S K L)
  after_rewriting s hooks l p (err e, w) = done (exited 1)
  after_rewriting s hooks l p (ok stats, w) =
      let found = find_hook linker hooks s.current_exe l in
      done (initialized stats w (set_hook found.0 p) found.1)

  abbrev pub after_setup :
      {S K : Type 0}
      → Surroundings
      → ProcMaps
      → HookSettings
      → L
      → Process S K
      → Option ℕ × World
      → Run (Init S K L)
  after_setup s maps hooks l p (some e, w) = done (exited 1)
  after_setup s maps hooks l p (none, w) =
      rewrite_syscalls os page_size decoder s maps w >>= λ r. after_rewriting s hooks l p r

  unfoldable pub zpoline_init :
      {S K : Type 0}
      → ℕ
      → Mmap
      → Surroundings
      → ProcMaps
      → HookSettings
      → L
      → World
      → Process S K
      → Run (Init S K L)
  unfolding setup_trampoline
  zpoline_init hook_entry_addr mmap s maps hooks l w p =
      setup_trampoline hook_entry_addr mmap w >>= λ r. after_setup s maps hooks l p r
