-- ===== src/System/Replaced.antt =====
-- A `syscall` instruction of the application before the start of the loader, and the instruction that is
-- in its place after it.
use mathlib.Core.List.{Memᴰ}
use mathlib.Core.Path.{subst}
use zpoline_rs.Prelude.{
  ℕ, ◌+◌, ◌%◌, ◌^◌, ◌≤◌, ◌<◌, ◌≡◌, ◌||◌, not, Bool, false, true, inl, refl, sym, ap, ◌∙◌, List,
  none, some, arith,
}
use zpoline_rs.Slice.{Slice}
use zpoline_rs.HookApi.Process.{Kernel, default_hook, Process}
use zpoline_rs.HookApi.Entry.{hook_entry}
use zpoline_rs.Trampoline.Generate.{max_syscall_nr, trampoline_size}
use zpoline_rs.Trampoline.Machine.{Machine}
use zpoline_rs.Trampoline.Call.{FollowsConvention}
use zpoline_rs.Trampoline.Listing.{generate_trampoline_code-IsTrampoline}
use zpoline_rs.Trampoline.Placed.{IsTrampoline-same}
use zpoline_rs.Rewriter.Region.{MemoryRegion, is_executable}
use zpoline_rs.Rewriter.Decoder.{Decoder, FollowsDocs}
use zpoline_rs.Rewriter.Find.{SyscallType}
use zpoline_rs.Rewriter.World.{Prot, World, Ends, map-Ends, Os}
use zpoline_rs.Rewriter.Rewrite.{RewriteStats}
use zpoline_rs.Rewriter.Rewrite.Patched.{hits}
use zpoline_rs.Loader.Config.{Surroundings, build_rewrite_config}
use zpoline_rs.Loader.HookLibrary.{Linker, HookSettings, find_hook}
use zpoline_rs.Loader.Pass.{is_special, read_maps, rewrite_syscalls}
use zpoline_rs.Loader.Pass.Protected.{is_spared, protected-SparedAt}
use zpoline_rs.Loader.Pass.Described.{InOrder, calls_in, calls_same}
use zpoline_rs.Loader.Pass.Rewritten.{above_excluded, rewrite_syscalls-Rewritten}
use zpoline_rs.Loader.Pass.Replaced.{HasCall, rewritten-HasCall, rewritten-SparedAt, listed_lem}
use zpoline_rs.Loader.Startup.{
  mapped, zero_memory, with_mapping, Init, initialized, set_hook, zpoline_init,
}
use zpoline_rs.Loader.Startup.Intact.{InPlace, Goes, PassLeaves, in_mapping, zpoline_init-Goes}
use zpoline_rs.System.Instruction.{syscall, result_of, syscall_op, call_rax_op, opcode_at, past_two}
use zpoline_rs.System.Answered.{SameOutcome, call_rax-default_hook}

above_mapping :
    (mem : Slice) (w : World) (a : ℕ)
    → mem.len ≡ trampoline_size
    → trampoline_size ≤ a
    → (with_mapping 0 mem w).memory a ≡ w.memory a
above_mapping mem w a e h = ground arith

third_false : (a b c : Bool) → (a || b || c) ≡ false → c ≡ false
third_false a b c h = ground arith

syscall_op-hits :
    (f : ℕ → ℕ) (start o : ℕ) → opcode_at f (start + o) ≡ syscall_op → hits f start o ≡ true
unfolding opcode_at
syscall_op-hits f start o h = ground arith

HasCall-call_rax_op : (f : ℕ → ℕ) (a : ℕ) → HasCall f a → opcode_at f a ≡ call_rax_op
unfolding opcode_at
HasCall-call_rax_op f a h = ground arith

-- The trampoline is in place, and the instruction at the address is the call.
abbrev pub Hooked : Slice → ℕ → World → Type 0
Hooked mem a w = InPlace mem w × (opcode_at w.memory a ≡ call_rax_op)

module _ (os : Os) (ps : ℕ) (page : 0 < ps) (small : ps ≤ 65536)
    (grant : (w : World) (a l : ℕ) (p : Prot) → os w a l p ≡ none) {D : Type 0}
    (decoder : Decoder D) (docs : FollowsDocs decoder) (s : Surroundings)
    (regions : List MemoryRegion) (order : InOrder ps 0 regions)
    (top : s.raw_syscall_addr + 4096 < 2 ^ 64) (r : MemoryRegion) (o : ℕ) (kind : SyscallType)
    (listed : Memᴰ r regions) (wanted : is_spared (build_rewrite_config s) r ≡ false) where
  rewrite_syscalls-Hooked :
      (mem : Slice) (w : World)
      → mem.len ≡ trampoline_size
      → Memᴰ (o, kind) (calls_in decoder r w.memory)
      → opcode_at w.memory (r.start + o) ≡ syscall_op
      → Ends
          (PassLeaves (Hooked mem (r.start + o)))
          (rewrite_syscalls os ps decoder s (read_maps regions) (with_mapping 0 mem w))
  unfolding opcode_at
  rewrite_syscalls-Hooked mem w len found code =
      let c = build_rewrite_config s in
      let (lo, ordered, below) = listed_lem ps 0 r regions order listed in
      let far : 65536 ≤ r.start =
        above_excluded s r ordered
          (third_false (not (is_executable r)) (is_special r.pathname) _ wanted) in
      let same : (x : ℕ) → r.start ≤ x → (with_mapping 0 mem w).memory x ≡ w.memory x =
        λ x h. above_mapping mem w x len (omega arith) in
      let found' =
        subst (Memᴰ (o, kind))
          (sym (calls_same decoder r w.memory (with_mapping 0 mem w).memory same)) found in
      let hit =
        syscall_op-hits (with_mapping 0 mem w).memory r.start o
          (ground (arith, same (r.start + o), same (r.start + o + 1))) in
      let call =
        rewritten-HasCall decoder docs ps page c r (with_mapping 0 mem w).memory o kind wanted
          found' hit 0 regions order listed in
      map-Ends _ (PassLeaves (Hooked mem (r.start + o)))
        (rewrite_syscalls os ps decoder s (read_maps regions) (with_mapping 0 mem w))
        (rewrite_syscalls-Rewritten os ps page small grant decoder docs s regions
          (with_mapping 0 mem w) order)
        (λ l k. (
          k.0,
          (
            (λ a h.
                k.1 a
                ∙ rewritten-SparedAt decoder c _ a regions
                    (protected-SparedAt s a top (inl (omega arith)) regions)
                ∙ in_mapping mem w a len h),
            HasCall-call_rax_op l.1.memory (r.start + o) (k.1 _ ∙ call.0, k.1 _ ∙ call.1),
          ),
        ))

-- The start has come to its end with the process as it was; the instruction that was `syscall` is the
-- call through rax now, and that call has the outcome that `syscall` had.
pub record Replaces {S K L : Type 0} (kernel : Kernel K) (callee : Machine → Machine) (addr : ℕ)
    (p : Process S K) (m n : Machine) (k : K) (i : Init S K L) : Type 0 where
  pub stats : RewriteStats
  pub world : World
  pub linker_state : L
  pub runs : i ≡ initialized stats world p linker_state
  pub opcode_lem : opcode_at world.memory m.rip ≡ call_rax_op
  pub outcome : SameOutcome kernel callee addr world.memory 2 p (past_two m) n k

module _ (os : Os) (ps : ℕ) (page : 0 < ps) (small : ps ≤ 65536)
    (grant : (w : World) (a l : ℕ) (p : Prot) → os w a l p ≡ none) {D : Type 0}
    (decoder : Decoder D) (docs : FollowsDocs decoder) {S K L : Type 0} (linker : Linker L)
    (kernel : Kernel K) (callee : Machine → Machine) (space : ℕ) where
  -- The application has a `syscall` instruction, 0f 05, in a region that is executable, is not the
  -- kernel's own and is not excluded, at a place that the search finds. The loader starts with address 0
  -- given by mmap, an mprotect that grants what it is asked, and no hook library that loads. When it
  -- is through, the instruction there is the call through rax; executed with a number that the
  -- trampoline takes, it runs through the trampoline in the memory of the process and through
  -- `hook_entry`, and leaves rip, rsp, rax, the argument registers, the callee-saved ones, the words from
  -- rsp up and the kernel as the `syscall` instruction would have. Below rsp nothing is promised: the red
  -- zone is written over. This is for a call that returns and whose answer depends on the seven registers
  -- alone (that of rt_sigreturn, clone and vfork does not), made with rsp 8 beyond a multiple of 16, with
  -- 80 bytes of stack and those that `hook_entry` needs; for a decoder that follows its documentation,
  -- pages of at most 65536 bytes, regions in order, `raw_syscall` a page below 2 ^ 64, and `hook_entry`
  -- compiled to the calling convention, at an address outside the trampoline.
  pub zpoline_init-Replaces :
      (hook_entry_addr : ℕ) (s : Surroundings) (regions : List MemoryRegion) (hooks : HookSettings)
      (l : L) (w : World) (p : Process S K) (r : MemoryRegion) (o : ℕ) (kind : SyscallType)
      (m n : Machine) (k : K) (flags : ℕ)
      → trampoline_size ≤ hook_entry_addr
      → hook_entry_addr < 2 ^ 64
      → InOrder ps 0 regions
      → s.raw_syscall_addr + 4096 < 2 ^ 64
      → (find_hook linker hooks s.current_exe l).0 ≡ none
      → p.hook_function ≡ default_hook
      → p.in_hook ≡ false
      → FollowsConvention space (λ regs. result_of (hook_entry kernel 2 regs p)) callee
      → Memᴰ r regions
      → is_spared (build_rewrite_config s) r ≡ false
      → Memᴰ (o, kind) (calls_in decoder r w.memory)
      → m.rip ≡ r.start + o
      → opcode_at w.memory m.rip ≡ syscall_op
      → syscall kernel flags p.kernel_state (past_two m) ≡ some (n, k)
      → m.rax_v < max_syscall_nr
      → m.rsp % 16 ≡ 8
      → space + 80 ≤ m.rsp
      → m.rsp < 2 ^ 64
      → Ends (Replaces {L = L} kernel callee hook_entry_addr p m n k) (
          zpoline_init os ps decoder linker hook_entry_addr
            (mapped 0)
            s
            (read_maps regions)
            hooks
            l
            w
            p)
  zpoline_init-Replaces addr s regions hooks l w p r o kind m n k flags far below order top lone f
        out abi listed wanted found at_place code e low aligned room high =
      let (mem, run, t) = generate_trampoline_code-IsTrampoline addr zero_memory below refl in
      map-Ends (Goes (Hooked mem (r.start + o)) (find_hook linker hooks s.current_exe l) p) _ _
        (zpoline_init-Goes os ps decoder linker (Hooked mem (r.start + o)) addr mem s regions hooks
          l w p run
          (rewrite_syscalls-Hooked os ps page small grant decoder docs s regions order top r o kind
            listed wanted mem w t.same_len found
            (subst (λ a. opcode_at w.memory a ≡ syscall_op) at_place code)))
        (λ i g. record {
          stats = g.stats;
          world = g.world;
          linker_state = (find_hook linker hooks s.current_exe l).1;
          runs =
              g.runs
              ∙ ap
                  (λ x.
                    initialized g.stats g.world (set_hook x p)
                      (find_hook linker hooks s.current_exe l).1)
                  lone;
          opcode_lem = ap (opcode_at g.world.memory) at_place ∙ g.holds.1;
          outcome =
              call_rax-default_hook kernel callee addr
                (record { len = trampoline_size; byte = g.world.memory }) far
                (IsTrampoline-same addr mem g.world.memory t g.holds.0) space 0 p (past_two m) n k
                flags abi f out e low aligned room high;
        })
