-- ===== src/Loader/Sample.antt =====
-- A process that the tests start the loader in.
use zpoline_rs.Prelude.{ℕ, ◌+◌, ◌^◌, true, List, [], ◌∷◌, none, some, arith, All}
use zpoline_rs.Rewriter.Region.{MemoryRegion}
use zpoline_rs.Rewriter.World.{Os}
use zpoline_rs.Rewriter.Sample.{text_region}
use zpoline_rs.Loader.Config.{Surroundings}
use zpoline_rs.Loader.HookLibrary.{Linker, HookSettings}
use zpoline_rs.Loader.Pass.{vdso}
use zpoline_rs.HookApi.Program.{raw_call, done as done_program}
use zpoline_rs.HookApi.Process.{HookFn, custom}
use zpoline_rs.Loader.Pass.Protected.{WellPlaced}
use zpoline_rs.Loader.Pass.Described.{InOrder}

-- /b/c runs, raw_syscall is at 2 ^ 32, and ZPOLINE_EXCLUDE is ":/d".
abbrev pub sample_surroundings : Surroundings
sample_surroundings = record {
  current_exe = some (b'/' ∷ b'b' ∷ b'/' ∷ b'c' ∷ []);
  raw_syscall_addr = 2 ^ 32;
  zpoline_exclude = some (b':' ∷ b'/' ∷ b'd' ∷ []);
}

-- The same code in the kernel's region, and where raw_syscall is.
abbrev pub vdso_region : MemoryRegion
vdso_region = record text_region { start = 0x30000; end = 0x30008; pathname = some vdso }

abbrev pub raw_region : MemoryRegion
raw_region = record text_region { start = 2 ^ 32 + 8; end = 2 ^ 32 + 16 }

abbrev pub sample_regions : List MemoryRegion
sample_regions = text_region ∷ vdso_region ∷ raw_region ∷ []

abbrev pub granting : Os
granting w a l p = none

pub sample-WellPlaced : All (WellPlaced 4096) sample_regions
sample-WellPlaced =
    ((omega arith, omega arith), ((omega arith, omega arith), ((omega arith, omega arith), tt)))

pub sample-InOrder : InOrder 4096 0 sample_regions
sample-InOrder = (
  omega arith,
  omega arith,
  omega arith,
  (omega arith, omega arith, omega arith, (omega arith, omega arith, omega arith, tt)),
)

-- A library whose hook makes the call directly.
abbrev pub raw_hook : HookFn
raw_hook = custom (λ r. raw_call r (λ v. done_program (v, r)))

-- Every file opens at 5, its symbol is at 0x7000, which gives 0x8000, where the hook is; the state counts
-- the calls of the linker.
abbrev pub sample_linker : Linker ℕ
sample_linker = record {
  dlmopen = λ path l. (5, l + 1);
  dlsym = λ handle name l. (0x7000, l + 1);
  dlerror = λ l. (none, l);
  call = λ f l. (0x8000, l + 1);
  hook_at = λ a. raw_hook;
  invalid_path_text = λ i. "Invalid path string";
}

-- ZPOLINE_HOOK is "/h"; a file is beside the program.
abbrev pub sample_settings : HookSettings
sample_settings = record {
  zpoline_hook = some (b'/' ∷ b'h' ∷ []);
  exists_at = λ path. true;
  lossy = λ path. path;
}
