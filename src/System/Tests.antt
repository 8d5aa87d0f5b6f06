-- ===== src/System/Tests.antt =====
-- The theorems of the whole way at a concrete machine and process.
use zpoline_rs.Prelude.{
  ℕ, ◌+◌, ◌-◌, ◌%◌, ◌^◌, ◌≡◌, ◌∙◌, ap, refl, false, Option, none, some, [], arith, ◌==◌,
  if◌then◌else◌,
}
use zpoline_rs.Slice.{Slice, update}
use zpoline_rs.HookApi.Regs.{SyscallRegs}
use zpoline_rs.HookApi.Abi.{prototype_of}
use zpoline_rs.HookApi.Hooks.{default_hooks}
use zpoline_rs.HookApi.Process.{
  Process, Outcome, returned, exited, undefined, blocked, too_deep, bind, trait_based_hook,
}
use zpoline_rs.HookApi.Entry.{register_syscall_hooks, with_regs, hook_entry}
use zpoline_rs.HookApi.Sample.{counting_kernel, counting_kernel-FollowsAbi, started}
use zpoline_rs.Trampoline.Generate.{trampoline_size, generate_trampoline_code}
use zpoline_rs.Trampoline.Machine.{Machine, up}
use zpoline_rs.Trampoline.Listing.{IsTrampoline, generate_trampoline_code-IsTrampoline}
use zpoline_rs.Trampoline.Call.{load_regs, CallReady, FollowsConvention}
use zpoline_rs.System.Instruction.{syscall, answered, result_of, opcode_at, syscall_op, past_two}
use zpoline_rs.Rewriter.World.{Ends}
use zpoline_rs.Rewriter.Sample.{
  nop_decoder, nop_decoder-FollowsDocs, text_memory, text_region, text_world,
}
use zpoline_rs.Loader.HookLibrary.{
  Linker, zero_byte_at, load_hook_library, get_hook_library_path, find_hook,
}
use zpoline_rs.Loader.Pass.{read_maps}
use zpoline_rs.Loader.Sample.{
  sample_surroundings, sample_regions, granting, sample-WellPlaced, sample-InOrder, sample_linker,
  sample_settings,
}
use zpoline_rs.Loader.Startup.{mapped, zpoline_init}
use mathlib.Core.List.{Memᴰ}
use zpoline_rs.Rewriter.Config.{
  is_excluded, path_excluded, range_excluded, exclude_path, exclude_range,
}
use zpoline_rs.Rewriter.Find.{is_syscall, find_syscalls, find_loop}
use zpoline_rs.Loader.Config.{parent, exclude_each, build_rewrite_config}
use zpoline_rs.Loader.Pass.Protected.{is_spared}
use zpoline_rs.Loader.Pass.Described.{calls_in}
use zpoline_rs.System.Replaced.{Replaces, zpoline_init-Replaces}
use zpoline_rs.System.Started.{Serves, zpoline_init-Serves}
use zpoline_rs.System.Answered.{SameOutcome, call_rax-default_hook, call_rax-default_hooks}

abbrev zero_page : Slice
zero_page = record { len = trampoline_size; byte = λ _. 0 }

abbrev entry_addr : ℕ
entry_addr = 0x7f00_1234_5678

abbrev emitted :
    (mem : Slice) × (generate_trampoline_code entry_addr zero_page ≡ some mem)
    × IsTrampoline entry_addr mem
emitted = generate_trampoline_code-IsTrampoline entry_addr zero_page (omega arith) refl

abbrev value_of : Option (ℕ × SyscallRegs) → ℕ
value_of none = 0
value_of (some r) = r.0

-- Code that does what the hook says, for a hook that leaves the registers alone. It keeps a word in its
-- own frame, and jumps to 0 where the stack is not aligned.
abbrev returning : (SyscallRegs → Option (ℕ × SyscallRegs)) → Machine → Machine
returning hook m = record m {
  rip = m.stack m.rsp;
  rsp = up m.rsp 8;
  rax_v = value_of (hook (load_regs m.stack m.rdi_v));
  rdi_v = 0;
  r11_v = 0;
  stack = update m.stack (m.rsp - 8) m.rdi_v;
}

abbrev compiled : (SyscallRegs → Option (ℕ × SyscallRegs)) → Machine → Machine
compiled hook m = if (m.rsp + 8) % 16 == 0 then returning hook m else record m { rip = 0 }

compiled_lem :
    (hook : SyscallRegs → Option (ℕ × SyscallRegs)) (m : Machine)
    → CallReady 8 m
    → compiled hook m ≡ returning hook m
compiled_lem hook m c = rw c.aligned refl

regs_kept :
    (hook : SyscallRegs → Option (ℕ × SyscallRegs)) (m : Machine)
    → CallReady 8 m
    → load_regs (returning hook m).stack m.rdi_v ≡ load_regs m.stack m.rdi_v
regs_kept hook m c = ground (arith, c.room, c.above)

compiled-FollowsConvention :
    (hook : SyscallRegs → Option (ℕ × SyscallRegs))
    → ((regs : SyscallRegs) (r : ℕ × SyscallRegs) → hook regs ≡ some r → regs ≡ r.1)
    → FollowsConvention 8 hook (compiled hook)
compiled-FollowsConvention hook keeps = record {
  returns = λ m r c h.
      let e = compiled_lem hook m c in
      (
        ap (λ (x : Machine). x.rip) e,
        ap (λ (x : Machine). x.rsp) e,
        ap (λ (x : Machine). x.rax_v) e ∙ rw h refl,
        ap (λ (x : Machine). load_regs x.stack m.rdi_v) e ∙ regs_kept hook m c ∙ keeps _ r h,
        ap (λ (x : Machine). x.callee_saved) e,
      );
  frame = λ m r a c h k l.
      ap (λ (x : Machine). x.stack a) (compiled_lem hook m c) ∙ ground (arith, c.room);
}

same_regs :
    {S K : Type 0} (regs : SyscallRegs) (x : Outcome S K ℕ) (r : ℕ × SyscallRegs)
    → result_of (bind (with_regs regs x) (λ v q. returned v (record q { in_hook = false })))
      ≡ some r
    → regs ≡ r.1
same_regs regs (returned v q) r h = cc
same_regs regs exited r h = absurd (cc)
same_regs regs undefined r h = absurd (cc)
same_regs regs blocked r h = absurd (cc)
same_regs regs too_deep r h = absurd (cc)

abbrev plain : Process (Unit {0}) ℕ
plain = started

abbrev registered : Process (Unit {0}) ℕ
registered = record plain {
  hook_function = trait_based_hook;
  trait_object = some (default_hooks, tt);
}

abbrev plain_hook : SyscallRegs → Option (ℕ × SyscallRegs)
plain_hook regs = result_of (hook_entry counting_kernel 2 regs plain)

abbrev registered_hook : SyscallRegs → Option (ℕ × SyscallRegs)
registered_hook regs = result_of (hook_entry counting_kernel 2 regs registered)

plain_hook-same : (regs : SyscallRegs) (r : ℕ × SyscallRegs) → plain_hook regs ≡ some r → regs ≡ r.1
unfolding hook_entry
plain_hook-same regs r h = same_regs regs _ r h

registered_hook-same :
    (regs : SyscallRegs) (r : ℕ × SyscallRegs) → registered_hook regs ≡ some r → regs ≡ r.1
unfolding hook_entry
registered_hook-same regs r h = same_regs regs _ r h

-- brk(0) and write(1, p, 5), behind the instruction at 0x401000.
abbrev at_brk : Machine
at_brk = record {
  rip = 0x401002;
  rsp = 0x7fff_0008;
  rax_v = 12;
  rdx_v = 3;
  rsi_v = 2;
  rdi_v = 0;
  r8_v = 5;
  r9_v = 6;
  r10_v = 4;
  r11_v = 0;
  callee_saved = [];
  stack = λ a. a;
}

abbrev at_write : Machine
at_write = record at_brk { rax_v = 1; rdi_v = 1; rsi_v = 0x5000; rdx_v = 5 }

brk_answered : syscall counting_kernel 0 0 at_brk ≡ some (answered 0 at_brk (2 ^ 40), 1)
unfolding prototype_of
brk_answered = refl

write_answered : syscall counting_kernel 0 0 at_write ≡ some (answered 0 at_write (2 ^ 40), 1)
unfolding prototype_of
write_answered = refl

call_rax-default_hook_example :
    SameOutcome counting_kernel
      (compiled plain_hook)
      entry_addr
      emitted.0.byte
      2
      plain
      at_brk
      (answered 0 at_brk (2 ^ 40))
      1
call_rax-default_hook_example =
    call_rax-default_hook counting_kernel (compiled plain_hook) entry_addr emitted.0 (omega arith)
      emitted.2 8 0 plain at_brk (answered 0 at_brk (2 ^ 40)) 1 0
      (compiled-FollowsConvention plain_hook plain_hook-same) refl refl brk_answered (omega arith)
      (omega arith) (omega arith) (omega arith)

registers : register_syscall_hooks default_hooks tt plain ≡ some registered
unfolding register_syscall_hooks
registers = refl

call_rax-default_hooks_example :
    SameOutcome counting_kernel
      (compiled registered_hook)
      entry_addr
      emitted.0.byte
      2
      registered
      at_write
      (answered 0 at_write (2 ^ 40))
      1
call_rax-default_hooks_example =
    call_rax-default_hooks counting_kernel (compiled registered_hook) entry_addr emitted.0
      (omega arith) emitted.2 8 counting_kernel-FollowsAbi 0 tt plain registered at_write
      (answered 0 at_write (2 ^ 40)) 1 0
      (compiled-FollowsConvention registered_hook registered_hook-same) registers refl refl
      (omega arith) write_answered (omega arith) (omega arith) (omega arith) (omega arith)

-- The library of the variable does not open.
abbrev closed_linker : Linker ℕ
closed_linker = record sample_linker { dlmopen = λ path l. (0, l) }

nothing_loads : (find_hook closed_linker sample_settings sample_surroundings.current_exe 0).0 ≡ none
unfolding find_hook get_hook_library_path load_hook_library zero_byte_at
nothing_loads = refl

served_start_test :
    Ends
      (Serves counting_kernel
        (compiled plain_hook)
        entry_addr
        plain
        at_brk
        (answered 0 at_brk (2 ^ 40))
        1)
      (zpoline_init granting 4096 nop_decoder closed_linker entry_addr
        (mapped 0)
        sample_surroundings
        (read_maps sample_regions)
        sample_settings
        0
        text_world
        plain)
served_start_test =
    zpoline_init-Serves granting 4096 (omega arith) nop_decoder nop_decoder-FollowsDocs
      closed_linker counting_kernel (compiled plain_hook) 8 entry_addr sample_surroundings
      sample_regions sample_settings 0 text_world plain at_brk (answered 0 at_brk (2 ^ 40)) 1 0
      (omega arith) (omega arith) sample-WellPlaced (omega arith) nothing_loads refl refl
      (compiled-FollowsConvention plain_hook plain_hook-same) brk_answered (omega arith)
      (omega arith) (omega arith) (omega arith)

-- brk(0) by the `syscall` instruction that the region /a has at 0x10002.
abbrev at_text : Machine
at_text = record at_brk { rip = 0x10002 }

text_is_given : is_spared (build_rewrite_config sample_surroundings) text_region ≡ false
unfolding is_excluded path_excluded range_excluded build_rewrite_config parent exclude_each
    exclude_path exclude_range zpoline_rs.Rewriter.FilePath.components
    zpoline_rs.Loader.Config.without_last zpoline_rs.Loader.Config.joined
    zpoline_rs.Rewriter.FilePath.split_on zpoline_rs.Rewriter.FilePath.same_components
    zpoline_rs.Rewriter.FilePath.has_prefix
text_is_given = refl

text_found : Memᴰ (2, is_syscall) (calls_in nop_decoder text_region text_memory)
unfolding find_syscalls find_loop
text_found = Memᴰ.head refl

text_opcode : opcode_at text_memory at_text.rip ≡ syscall_op
unfolding opcode_at
text_opcode = refl

text_answered :
    syscall counting_kernel 0 0 (past_two at_text)
    ≡ some (answered 0 (past_two at_text) (2 ^ 40), 1)
unfolding prototype_of
text_answered = refl

zpoline_init-Replaces_example :
    Ends
      (Replaces counting_kernel
        (compiled plain_hook)
        entry_addr
        plain
        at_text
        (answered 0 (past_two at_text) (2 ^ 40))
        1)
      (zpoline_init granting 4096 nop_decoder closed_linker entry_addr
        (mapped 0)
        sample_surroundings
        (read_maps sample_regions)
        sample_settings
        0
        text_world
        plain)
zpoline_init-Replaces_example =
    zpoline_init-Replaces granting 4096 (omega arith) (omega arith) (λ w a l p. refl) nop_decoder
      nop_decoder-FollowsDocs closed_linker counting_kernel (compiled plain_hook) 8 entry_addr
      sample_surroundings sample_regions sample_settings 0 text_world plain text_region 2 is_syscall
      at_text (answered 0 (past_two at_text) (2 ^ 40)) 1 0 (omega arith) (omega arith)
      sample-InOrder (omega arith) nothing_loads refl refl
      (compiled-FollowsConvention plain_hook plain_hook-same) (Memᴰ.head refl) text_is_given
      text_found refl text_opcode text_answered (omega arith) (omega arith) (omega arith)
      (omega arith)
