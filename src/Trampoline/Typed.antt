-- ===== src/Trampoline/Typed.antt =====
-- The trampoline that is generated consists of bytes.
use zpoline_rs.Prelude.{
  ℕ, zero, suc, ◌+◌, ◌-◌, ◌<◌, List, [], ◌∷◌, Option, arith, ltb, leb, All, Bool-cases, inl, inr,
}
use zpoline_rs.Slice.{Slice, write, tail_from, put_tail, AreBytes, IfSome, chain-IfSome, ◌>>=◌}
use zpoline_rs.Trampoline.Generate.{
  max_syscall_nr, to_le_bytes, Writer, emit, generate_hook_stub, fill_nops,
  generate_trampoline_code,
}

abbrev IsTyped : Slice → Type 0
IsTyped mem = AreBytes mem.byte

write-IsTyped : (i v : ℕ) (mem : Slice) → v < 256 → IsTyped mem → IfSome IsTyped (write i v mem)
unfolding write
write-IsTyped i v mem small h = elim (Bool-cases (ltb i mem.len)) [
  | inl inside ↦ rw inside (λ a. let b = h a in ground arith)
  | inr outside ↦ rw outside tt
]

emit-IsTyped :
    (bs : List ℕ) (w : Writer)
    → All (λ b. b < 256) bs
    → IsTyped w.mem
    → IfSome (λ (v : Writer). IsTyped v.mem) (emit bs w)
unfolding emit
emit-IsTyped [] w small h = h
emit-IsTyped (b ∷ bs) w (here, small) h =
    chain-IfSome IsTyped _ (write w.offset b w.mem) _ (write-IsTyped w.offset b w.mem here h)
      (λ mem k. emit-IsTyped bs (record { mem = mem; offset = w.offset + 1 }) small k)

fill_nops-IsTyped : (n i : ℕ) (mem : Slice) → IsTyped mem → IfSome IsTyped (fill_nops n i mem)
unfolding fill_nops
fill_nops-IsTyped zero i mem h = h
fill_nops-IsTyped (suc n) i mem h =
    chain-IfSome IsTyped IsTyped (write i 0x90 mem) _ (write-IsTyped i 0x90 mem (omega arith) h)
      (λ mem' k. fill_nops-IsTyped n (i + 1) mem' k)

-- One group of bytes and what follows it.
then_emit :
    (bs : List ℕ) (f : Writer → Option Slice)
    → All (λ b. b < 256) bs
    → ((w : Writer) → IsTyped w.mem → IfSome IsTyped (f w))
    → (w : Writer) → IsTyped w.mem
    → IfSome IsTyped (emit bs w >>= f)
then_emit bs f small k w h =
    chain-IfSome (λ (v : Writer). IsTyped v.mem) IsTyped (emit bs w) f (emit-IsTyped bs w small h) k

generate_hook_stub-IsTyped :
    (hook_entry_addr : ℕ) (mem : Slice)
    → IsTyped mem
    → IfSome IsTyped (generate_hook_stub hook_entry_addr mem)
unfolding generate_hook_stub
generate_hook_stub-IsTyped addr mem h =
    then_emit (0x41 ∷ 0x51 ∷ []) _ (ground arith)
      (then_emit (0x41 ∷ 0x50 ∷ []) _ (ground arith) (
        then_emit (0x41 ∷ 0x52 ∷ []) _ (ground arith) (
          then_emit (0x52 ∷ []) _ (ground arith) (
            then_emit (0x56 ∷ []) _ (ground arith) (
              then_emit (0x57 ∷ []) _ (ground arith) (
                then_emit (0x50 ∷ []) _ (ground arith) (
                  then_emit (0x48 ∷ 0x83 ∷ 0xec ∷ 0x08 ∷ []) _ (ground arith) (
                    then_emit (0x48 ∷ 0x8d ∷ 0x7c ∷ 0x24 ∷ 0x08 ∷ []) _ (ground arith) (
                      then_emit (0x49 ∷ 0xbb ∷ to_le_bytes addr) _ (ground arith) (
                        then_emit (0x41 ∷ 0xff ∷ 0xd3 ∷ []) _ (ground arith) (
                          then_emit (0x48 ∷ 0x83 ∷ 0xc4 ∷ 0x08 ∷ []) _ (ground arith) (
                            then_emit (0x48 ∷ 0x83 ∷ 0xc4 ∷ 0x08 ∷ []) _ (ground arith) (
                              then_emit (0x5f ∷ []) _ (ground arith) (
                                then_emit (0x5e ∷ []) _ (ground arith) (
                                  then_emit (0x5a ∷ []) _ (ground arith) (
                                    then_emit (0x41 ∷ 0x5a ∷ []) _ (ground arith) (
                                      then_emit (0x41 ∷ 0x58 ∷ []) _ (ground arith) (
                                        then_emit (0x41 ∷ 0x59 ∷ []) _ (ground arith) (
                                          then_emit (0xc3 ∷ []) _ (ground arith)
                                            (λ w h. h))))))))))))))))))))
      (record { mem = mem; offset = 0 }) h

put_tail-IsTyped :
    (from : ℕ) (mem part : Slice) → IsTyped mem → IsTyped part → IsTyped (put_tail from mem part)
unfolding put_tail
put_tail-IsTyped from mem part h k a = let b = h a in let c = k (a - from) in ground arith

tail_from-IsTyped : (from : ℕ) (mem : Slice) → IsTyped mem → IfSome IsTyped (tail_from from mem)
unfolding tail_from
tail_from-IsTyped from mem h = elim (Bool-cases (leb from mem.len)) [
  | inl inside ↦ rw inside (λ i. h (from + i))
  | inr outside ↦ rw outside tt
]

pub generate_trampoline_code-IsTyped :
    (hook_entry_addr : ℕ) (mem : Slice)
    → AreBytes mem.byte
    → IfSome (λ (m : Slice). AreBytes m.byte) (generate_trampoline_code hook_entry_addr mem)
unfolding generate_trampoline_code
generate_trampoline_code-IsTyped addr mem h =
    chain-IfSome IsTyped IsTyped (fill_nops max_syscall_nr 0 mem) _
      (fill_nops-IsTyped max_syscall_nr 0 mem h)
      (λ filled k.
        chain-IfSome IsTyped IsTyped (tail_from max_syscall_nr filled) _
          (tail_from-IsTyped max_syscall_nr filled k)
          (λ rest k'.
            chain-IfSome IsTyped IsTyped (generate_hook_stub addr rest) _
              (generate_hook_stub-IsTyped addr rest k')
              (λ stub k''. put_tail-IsTyped max_syscall_nr filled stub k k'')))
