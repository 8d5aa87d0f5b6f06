-- ===== src/Loader/Tests.antt =====
-- The theorems of the loader at a concrete process.
use zpoline_rs.Prelude.{map, ℕ, inr, ◌+◌, ◌^◌, ◌≡◌, refl, true, false, [], ◌∷◌, none, some, arith}
use zpoline_rs.Rewriter.Config.{
  is_excluded, path_excluded, range_excluded, exclude_path, exclude_range,
}
use zpoline_rs.Loader.Config.{exclude_each}
use zpoline_rs.Loader.Sample.{
  sample_surroundings, sample_regions, granting, sample-WellPlaced, sample-InOrder, raw_hook,
  sample_linker, sample_settings,
}
use zpoline_rs.Rewriter.World.{Ends}
use zpoline_rs.Rewriter.Rewrite.{ok, RewriteStats}
use zpoline_rs.Rewriter.Sample.{nop_decoder, nop_decoder-FollowsDocs, text_memory, text_world}
use zpoline_rs.Loader.Config.{Surroundings, parent, build_rewrite_config}
use zpoline_rs.Loader.HookLibrary.{
  dlmopen_failed, symbol_not_found, err, zero_byte_at, load_hook_library, hook_impl_library,
  get_hook_library_path, find_hook,
}
use zpoline_rs.Loader.HookLibrary.Sourced.{Sourced}
use zpoline_rs.Loader.Pass.{is_special, vdso, read_maps, rewrite_syscalls}
use zpoline_rs.Slice.{Slice, AreBytes}
use zpoline_rs.Loader.Startup.Typed.{StartTyped, zpoline_init-StartTyped}
use zpoline_rs.Trampoline.Listing.{IsTrampoline}
use zpoline_rs.HookApi.Process.{default_hook, Process}
use zpoline_rs.Loader.Startup.{mapped, map_failed, exited, setup_trampoline, zpoline_init}
use zpoline_rs.Loader.Startup.Intact.{Ready, zpoline_init-Ready}
use zpoline_rs.Rewriter.World.{done}
use zpoline_rs.Loader.Pass.Counted.{
  is_given, is_left_out, count_of, Reports, rewrite_syscalls-Reports,
}
use zpoline_rs.Loader.Pass.Described.{rewritten}
use zpoline_rs.Loader.Pass.Rewritten.{rewrite_syscalls-Rewritten}
use zpoline_rs.Rewriter.Rewrite.Patched.{patched}
use zpoline_rs.Rewriter.Find.{find_syscalls, find_loop}
use zpoline_rs.Loader.Pass.Protected.{SparedAt, rewrite_syscalls-Kept, rewrite_syscalls-protected}

parent_test : parent (b'/' ∷ b'b' ∷ b'/' ∷ b'c' ∷ []) ≡ some (b'/' ∷ b'b' ∷ [])
unfolding parent zpoline_rs.Rewriter.FilePath.components zpoline_rs.Loader.Config.without_last
    zpoline_rs.Loader.Config.joined
parent_test = refl

is_special_test : (is_special (some vdso) ≡ true) × (is_special (some (b'v' ∷ [])) ≡ false)
is_special_test = (refl, refl)

-- An address of the vdso.
sample-SparedAt : SparedAt (build_rewrite_config sample_surroundings) 0x30002 sample_regions
sample-SparedAt = ((λ h. cc), ((λ h. refl), ((λ h. cc), tt)))

rewrite_syscalls-Kept_example :
    Ends
      (λ l. ((stats : RewriteStats) × (l.0 ≡ ok stats)) × (l.1.memory 0x30002 ≡ 0x90))
      (rewrite_syscalls granting 4096 nop_decoder sample_surroundings
        (read_maps sample_regions)
        text_world)
rewrite_syscalls-Kept_example =
    rewrite_syscalls-Kept granting 4096 (omega arith) nop_decoder nop_decoder-FollowsDocs
      sample_surroundings sample_regions text_world 0x30002 sample-WellPlaced sample-SparedAt

-- Two of the three regions are looked at, and one of the two is left out.
rewrite_syscalls-Reports_example :
    Ends
      (λ l. Reports (build_rewrite_config sample_surroundings) sample_regions l.0)
      (rewrite_syscalls granting 4096 nop_decoder sample_surroundings
        (read_maps sample_regions)
        text_world)
rewrite_syscalls-Reports_example =
    rewrite_syscalls-Reports granting 4096 (omega arith) nop_decoder nop_decoder-FollowsDocs
      sample_surroundings sample_regions text_world sample-WellPlaced

counted_regions :
    (count_of is_given sample_regions ≡ 2)
    × (count_of (is_left_out (build_rewrite_config sample_surroundings)) sample_regions ≡ 1)
unfolding is_excluded path_excluded range_excluded build_rewrite_config parent exclude_each
    exclude_path exclude_range zpoline_rs.Rewriter.FilePath.components
    zpoline_rs.Loader.Config.without_last zpoline_rs.Loader.Config.joined
    zpoline_rs.Rewriter.FilePath.split_on zpoline_rs.Rewriter.FilePath.same_components
    zpoline_rs.Rewriter.FilePath.has_prefix
counted_regions = (refl, refl)

-- An address of `raw_syscall`, in a region that is listed.
rewrite_syscalls-protected_example :
    Ends
      (λ l. l.1.memory (2 ^ 32 + 9) ≡ 0x90)
      (rewrite_syscalls granting 4096 nop_decoder sample_surroundings
        (read_maps sample_regions)
        text_world)
rewrite_syscalls-protected_example =
    rewrite_syscalls-protected granting 4096 (omega arith) nop_decoder nop_decoder-FollowsDocs
      sample_surroundings sample_regions text_world (2 ^ 32 + 9) sample-WellPlaced (omega arith)
      (inr (omega arith, omega arith))

abbrev fresh_process : Process (Unit {0}) ℕ
fresh_process = record {
  hook_function = default_hook;
  trait_object = none;
  trait_locked = false;
  trait_poisoned = false;
  in_hook = false;
  entry_count = 0;
  trait_count = 0;
  kernel_state = 0;
}

find_hook_test :
    find_hook sample_linker sample_settings sample_surroundings.current_exe 0 ≡ (some raw_hook, 3)
unfolding find_hook get_hook_library_path load_hook_library zero_byte_at
find_hook_test = refl

-- A path with a zero byte, and a linker that opens nothing.
load_hook_library_tests :
    (load_hook_library sample_linker (some (b'/' ∷ 0 ∷ [])) 0
      ≡ (err (dlmopen_failed "Invalid path string"), 0))
    × (load_hook_library (record sample_linker { dlmopen = λ path l. (0, l) }) (some []) 0
        ≡ (err (dlmopen_failed "Unknown error"), 0))
    × (load_hook_library (record sample_linker { call = λ f l. (0, l) }) (some []) 0
        ≡ (err (symbol_not_found "hook function returned null"), 2))
unfolding load_hook_library zero_byte_at
load_hook_library_tests = (refl, refl, refl)

-- Without the variable it is the file beside the program, /b/libzpoline_hook_impl.so.
default_path_test :
    get_hook_library_path
      (record sample_settings { zpoline_hook = none })
      sample_surroundings.current_exe
    ≡ some (b'/' ∷ b'b' ∷ b'/' ∷ hook_impl_library)
unfolding get_hook_library_path parent zpoline_rs.Rewriter.FilePath.components
    zpoline_rs.Loader.Config.without_last zpoline_rs.Loader.Config.joined
default_path_test = refl

zpoline_init-Ready_example :
    (mem : Slice) × IsTrampoline 0x7f00_0000_1000 mem
    × Ends
        (Ready mem
          (find_hook sample_linker sample_settings sample_surroundings.current_exe 0)
          fresh_process)
        (zpoline_init granting 4096 nop_decoder sample_linker 0x7f00_0000_1000
          (mapped 0)
          sample_surroundings
          (read_maps sample_regions)
          sample_settings
          0
          text_world
          fresh_process)
zpoline_init-Ready_example =
    zpoline_init-Ready granting 4096 (omega arith) nop_decoder nop_decoder-FollowsDocs sample_linker
      0x7f00_0000_1000 sample_surroundings sample_regions sample_settings 0 text_world fresh_process
      (omega arith) sample-WellPlaced (omega arith)

-- Without a page at 0 the process ends.
zpoline_init_test :
    zpoline_init granting 4096 nop_decoder sample_linker 0x7f00_0000_1000
      (map_failed 1)
      sample_surroundings
      (read_maps sample_regions)
      sample_settings
      0
      text_world
      fresh_process
    ≡ done (exited 1)
unfolding zpoline_init setup_trampoline
zpoline_init_test = refl

rewrite_syscalls-Rewritten_example :
    Ends
      (λ l.
        ((stats : RewriteStats) × (l.0 ≡ ok stats))
        × ((a : ℕ)
            → l.1.memory a
              ≡ rewritten nop_decoder
                  (build_rewrite_config sample_surroundings)
                  sample_regions
                  text_memory
                  a))
      (rewrite_syscalls granting 4096 nop_decoder sample_surroundings
        (read_maps sample_regions)
        text_world)
rewrite_syscalls-Rewritten_example =
    rewrite_syscalls-Rewritten granting 4096 (omega arith) (omega arith) (λ w a l p. refl)
      nop_decoder nop_decoder-FollowsDocs sample_surroundings sample_regions text_world
      sample-InOrder

-- Both calls of the first region are patched.
rewritten_test :
    map
      (rewritten nop_decoder (build_rewrite_config sample_surroundings) sample_regions text_memory)
      (0x10001 ∷ 0x10002 ∷ 0x10003 ∷ 0x10004 ∷ 0x10005 ∷ 0x10006 ∷ 0x10007 ∷ [])
    ≡ 0x90 ∷ 0xff ∷ 0xd0 ∷ 0x90 ∷ 0xff ∷ 0xd0 ∷ 0x90 ∷ []
unfolding rewritten patched find_syscalls find_loop is_excluded path_excluded range_excluded
    build_rewrite_config parent exclude_each exclude_path exclude_range
    zpoline_rs.Rewriter.FilePath.components zpoline_rs.Loader.Config.without_last
    zpoline_rs.Loader.Config.joined zpoline_rs.Rewriter.FilePath.split_on
    zpoline_rs.Rewriter.FilePath.same_components zpoline_rs.Rewriter.FilePath.has_prefix
rewritten_test = refl

text_world-AreBytes : AreBytes text_world.memory
text_world-AreBytes a = ground arith

-- mmap gives another address, and /proc/self/maps is read.
zpoline_init-StartTyped_example : Ends StartTyped (
    zpoline_init granting 4096 nop_decoder sample_linker 0x7f00_0000_1000
      (mapped 0x1000)
      sample_surroundings
      (read_maps sample_regions)
      sample_settings
      0
      text_world
      fresh_process)
zpoline_init-StartTyped_example =
    zpoline_init-StartTyped granting 4096 (omega arith) nop_decoder nop_decoder-FollowsDocs
      sample_linker 0x7f00_0000_1000 (mapped 0x1000) sample_surroundings (read_maps sample_regions)
      sample_settings 0 text_world fresh_process (omega arith) sample-WellPlaced text_world-AreBytes
