-- ===== src/Rewriter/Find.antt =====
-- zpoline_rewriter/src/rewriter.rs: `find_syscalls`.
pub mod Spaced
use zpoline_rs.Prelude.{
  ℕ, zero, suc, ◌+◌, Bool, true, false, List, [], ◌∷◌, ◌++◌, Option, none, some, sub_64,
  if◌then◌else◌,
}
use zpoline_rs.Slice.{Slice}
use zpoline_rs.Rewriter.Decoder.{Mnemonic, syscall, sysenter, other, Instruction, Decoder}

pub data SyscallType : Type 0 where
  is_syscall is_sysenter : SyscallType

-- What one instruction adds to `replacements`.
abbrev pub found : Mnemonic → ℕ → List (ℕ × SyscallType)
found syscall offset = (offset, is_syscall) ∷ []
found sysenter offset = (offset, is_sysenter) ∷ []
found other offset = []

module _ {D : Type 0} (decoder : Decoder D) where
  -- The loop, on fuel; `none` says that the fuel ran out.
  unfoldable pub find_loop : ℕ → ℕ → List (ℕ × SyscallType) → D → Option (List (ℕ × SyscallType))
  find_loop zero base_addr replacements d = none
  find_loop (suc fuel) base_addr replacements d =
      let instr = decoder.decode d in
      let rest =
        find_loop fuel base_addr (replacements ++ found instr.mnemonic (sub_64 instr.ip base_addr))
          (decoder.after d) in
      if decoder.can_decode d then rest else some replacements

  -- One round for each byte is enough, and one to see the end.
  unfoldable pub find_syscalls : ℕ → Slice → Option (List (ℕ × SyscallType))
  unfolding find_loop
  find_syscalls base_addr code =
      find_loop (code.len + 1) base_addr [] (decoder.with_ip code base_addr)
