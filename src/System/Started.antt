-- ===== src/System/Started.antt =====
-- From the start of the loader to a system call of the application.
use zpoline_rs.Prelude.{ℕ, ◌+◌, ◌%◌, ◌^◌, ◌≤◌, ◌<◌, ◌≡◌, false, ap, ◌∙◌, List, none, some, All}
use zpoline_rs.HookApi.Process.{Kernel, default_hook, Process}
use zpoline_rs.HookApi.Entry.{hook_entry}
use zpoline_rs.Trampoline.Generate.{max_syscall_nr, trampoline_size}
use zpoline_rs.Trampoline.Machine.{Machine}
use zpoline_rs.Trampoline.Call.{FollowsConvention}
use zpoline_rs.Trampoline.Placed.{IsTrampoline-same}
use zpoline_rs.Rewriter.Region.{MemoryRegion}
use zpoline_rs.Rewriter.Decoder.{Decoder, FollowsDocs}
use zpoline_rs.Rewriter.World.{World, Ends, map-Ends, Os}
use zpoline_rs.Rewriter.Rewrite.{RewriteStats}
use zpoline_rs.Loader.Config.{Surroundings}
use zpoline_rs.Loader.HookLibrary.{Linker, HookSettings, find_hook}
use zpoline_rs.Loader.Pass.{read_maps}
use zpoline_rs.Loader.Pass.Protected.{WellPlaced}
use zpoline_rs.Loader.Startup.{mapped, Init, initialized, set_hook, zpoline_init}
use zpoline_rs.Loader.Startup.Intact.{Ready, zpoline_init-Ready}
use zpoline_rs.System.Instruction.{syscall, result_of}
use zpoline_rs.System.Answered.{SameOutcome, call_rax-default_hook}

-- The start has come to its end with the process as it was, and a call at a place that was rewritten
-- then has the outcome of the instruction that was there.
pub record Serves {S K L : Type 0} (kernel : Kernel K) (callee : Machine → Machine) (addr : ℕ)
    (p : Process S K) (m n : Machine) (k : K) (i : Init S K L) : Type 0 where
  pub stats : RewriteStats
  pub world : World
  pub linker_state : L
  pub runs : i ≡ initialized stats world p linker_state
  pub outcome : SameOutcome kernel callee addr world.memory 2 p m n k

module _ (os : Os) (ps : ℕ) (page : 0 < ps) {D : Type 0} (decoder : Decoder D)
    (docs : FollowsDocs decoder) {S K L : Type 0} (linker : Linker L) (kernel : Kernel K)
    (callee : Machine → Machine) (space : ℕ) where
  -- The loader starts with address 0 given by mmap and no hook library that loads. When it is through,
  -- a system call with a number that the trampoline takes, made at a place that was rewritten, runs
  -- through the trampoline in the memory of the process and through `hook_entry`, and leaves the
  -- registers, the words from rsp up and the kernel as the `syscall` instruction would have. This is for a
  -- call that returns and whose answer depends on the seven registers alone, made with rsp 8 beyond a
  -- multiple of 16, 80 bytes of stack and those that `hook_entry` needs, a decoder that follows its documentation, regions whose pages end below
  -- 2 ^ 64, `raw_syscall` a page below 2 ^ 64, and `hook_entry` compiled to the calling convention, at
  -- an address outside the trampoline.
  pub zpoline_init-Serves :
      (hook_entry_addr : ℕ) (s : Surroundings) (regions : List MemoryRegion) (hooks : HookSettings)
      (l : L) (w : World) (p : Process S K) (m n : Machine) (k : K) (flags : ℕ)
      → trampoline_size ≤ hook_entry_addr
      → hook_entry_addr < 2 ^ 64
      → All (WellPlaced ps) regions
      → s.raw_syscall_addr + 4096 < 2 ^ 64
      → (find_hook linker hooks s.current_exe l).0 ≡ none
      → p.hook_function ≡ default_hook
      → p.in_hook ≡ false
      → FollowsConvention space (λ regs. result_of (hook_entry kernel 2 regs p)) callee
      → syscall kernel flags p.kernel_state m ≡ some (n, k)
      → m.rax_v < max_syscall_nr
      → m.rsp % 16 ≡ 8
      → space + 80 ≤ m.rsp
      → m.rsp < 2 ^ 64
      → Ends (Serves {L = L} kernel callee hook_entry_addr p m n k) (
          zpoline_init os ps decoder linker hook_entry_addr
            (mapped 0)
            s
            (read_maps regions)
            hooks
            l
            w
            p)
  zpoline_init-Serves addr s regions hooks l w p m n k flags far below place top lone f o abi e low
        aligned room high =
      let (mem, listed, ends) =
        zpoline_init-Ready os ps page decoder docs linker addr s regions hooks l w p below place
          top in
      map-Ends (Ready mem (find_hook linker hooks s.current_exe l) p) _ _ ends (λ i r. record {
        stats = r.stats;
        world = r.world;
        linker_state = (find_hook linker hooks s.current_exe l).1;
        runs =
            r.runs
            ∙ ap
                (λ x.
                  initialized r.stats r.world (set_hook x p)
                    (find_hook linker hooks s.current_exe l).1)
                lone;
        outcome =
            call_rax-default_hook kernel callee addr
              (record { len = trampoline_size; byte = r.world.memory }) far
              (IsTrampoline-same addr mem r.world.memory listed r.holds) space 0 p m n k flags abi f
              o e low aligned room high;
      })
