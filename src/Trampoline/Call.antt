-- ===== src/Trampoline/Call.antt =====
-- The call of `hook_entry` that the stub makes, and what the stub leaves to the application.
use zpoline_rs.Prelude.{
  ℕ, ◌+◌, ◌-◌, ◌%◌, ◌^◌, ◌≤◌, ◌<◌, ◌≡◌, ◌⊎◌, refl, Option, some, ap, ◌∙◌, arith,
}
use zpoline_rs.HookApi.Regs.{SyscallRegs, new}
use zpoline_rs.Slice.{update}
use zpoline_rs.Trampoline.Machine.{Machine, up, down, execute, behind, call_r11, ret}
use zpoline_rs.Trampoline.Listing.{before_call, after_call}
use zpoline_rs.Trampoline.Steps.{execute_all}

-- The argument registers of the application's system call, and a `SyscallRegs` in memory (repr(C)).
abbrev pub app_regs : Machine → SyscallRegs
app_regs m = new m.rax_v m.rdi_v m.rsi_v m.rdx_v m.r10_v m.r8_v m.r9_v

abbrev pub load_regs : (ℕ → ℕ) → ℕ → SyscallRegs
load_regs st a =
    new (st a) (st (a + 8)) (st (a + 16)) (st (a + 24)) (st (a + 32)) (st (a + 40)) (st (a + 48))

-- A call that System V allows, of a function of one pointer to a `SyscallRegs` that needs so many bytes
-- of stack below its return address: rsp + 8 is a multiple of 16, the bytes are there, and the structure
-- is memory of the caller, above the return address.
pub record CallReady (space : ℕ) (m : Machine) : Type 0 where
  pub aligned : (m.rsp + 8) % 16 ≡ 0
  pub room : space ≤ m.rsp
  pub above : m.rsp + 8 ≤ m.rdi_v
  pub inside : m.rdi_v + 56 < 2 ^ 64

-- The calling convention of System V for a function of one pointer to a `SyscallRegs`, of which
-- `hook` says what it returns and leaves in the structure, where it returns, for the calls that the
-- convention allows: rip and rsp are those of a return, the callee-saved registers are kept, and so is
-- the memory above the return address outside the structure. Below the return address the function has
-- its own frame. Of any other call, and of one that does not return, nothing is known.
pub record FollowsConvention (space : ℕ) (hook : SyscallRegs → Option (ℕ × SyscallRegs))
    (callee : Machine → Machine) : Type 0 where
  pub returns :
      (m : Machine) (r : ℕ × SyscallRegs)
      → CallReady space m
      → hook (load_regs m.stack m.rdi_v) ≡ some r
      → ((callee m).rip ≡ m.stack m.rsp)
        × ((callee m).rsp ≡ up m.rsp 8)
        × ((callee m).rax_v ≡ r.0)
        × (load_regs (callee m).stack m.rdi_v ≡ r.1)
        × ((callee m).callee_saved ≡ m.callee_saved)
  pub frame :
      (m : Machine) (r : ℕ × SyscallRegs) (a : ℕ)
      → CallReady space m
      → hook (load_regs m.stack m.rdi_v) ≡ some r
      → m.rsp + 8 ≤ a
      → (a < m.rdi_v) ⊎ (m.rdi_v + 56 ≤ a)
      → (callee m).stack a ≡ m.stack a

pub down_lem : (a n : ℕ) → n ≤ a → a < 2 ^ 64 → down a n ≡ a - n
unfolding down
down_lem a n h k = omega arith

pub up_lem : (a n : ℕ) → a + n < 2 ^ 64 → up a n ≡ a + n
unfolding up
up_lem a n h = omega arith

-- The machine at the call, from the stub's first instruction on.
abbrev pub at_call : ℕ → Machine → Machine
at_call addr m = execute call_r11 (behind 3 (execute_all (before_call addr) m))

module _ (addr : ℕ) (m : Machine) (room : 72 ≤ m.rsp) (top : m.rsp < 2 ^ 64) where
  down_1 : down m.rsp 8 ≡ m.rsp - 8
  down_1 = ground (arith, down_lem m.rsp 8)

  down_2 : down (m.rsp - 8) 8 ≡ m.rsp - 16
  down_2 = ground (arith, down_lem (m.rsp - 8) 8)

  down_3 : down (m.rsp - 16) 8 ≡ m.rsp - 24
  down_3 = ground (arith, down_lem (m.rsp - 16) 8)

  down_4 : down (m.rsp - 24) 8 ≡ m.rsp - 32
  down_4 = ground (arith, down_lem (m.rsp - 24) 8)

  down_5 : down (m.rsp - 32) 8 ≡ m.rsp - 40
  down_5 = ground (arith, down_lem (m.rsp - 32) 8)

  down_6 : down (m.rsp - 40) 8 ≡ m.rsp - 48
  down_6 = ground (arith, down_lem (m.rsp - 40) 8)

  down_7 : down (m.rsp - 48) 8 ≡ m.rsp - 56
  down_7 = ground (arith, down_lem (m.rsp - 48) 8)

  down_8 : down (m.rsp - 56) 8 ≡ m.rsp - 64
  down_8 = ground (arith, down_lem (m.rsp - 56) 8)

  down_9 : down (m.rsp - 64) 8 ≡ m.rsp - 72
  down_9 = ground (arith, down_lem (m.rsp - 64) 8)

  up_back : up (m.rsp - 64) 8 ≡ m.rsp - 56
  up_back = ground (arith, up_lem (m.rsp - 64) 8)

  -- The pushed words, from the highest address down: the structure, eight bytes of padding, and the
  -- return address.
  abbrev call_frame : ℕ → ℕ
  call_frame =
      update
        (update
          (update
            (update
              (update
                (update (update (update m.stack (m.rsp - 8) m.r9_v) (m.rsp - 16) m.r8_v)
                  (m.rsp - 24) m.r10_v)
                (m.rsp - 32) m.rdx_v)
              (m.rsp - 40) m.rsi_v)
            (m.rsp - 48) m.rdi_v)
          (m.rsp - 56) m.rax_v)
        (m.rsp - 72) (behind 3 (execute_all (before_call addr) m)).rip

  pub at_call_rsp : (at_call addr m).rsp ≡ m.rsp - 72
  at_call_rsp = simp (down_1, down_2, down_3, down_4, down_5, down_6, down_7, down_8, down_9)

  pub at_call_rdi : (at_call addr m).rdi_v ≡ m.rsp - 56
  at_call_rdi = simp (down_1, down_2, down_3, down_4, down_5, down_6, down_7, down_8, up_back)

  at_call_stack : (at_call addr m).stack ≡ call_frame
  at_call_stack = simp (down_1, down_2, down_3, down_4, down_5, down_6, down_7, down_8, down_9)

  load_regs-call_frame : load_regs call_frame (m.rsp - 56) ≡ app_regs m
  load_regs-call_frame = ground arith

  -- The callee gets the application's registers.
  pub load_regs-at_call : load_regs (at_call addr m).stack (m.rsp - 56) ≡ app_regs m
  load_regs-at_call =
      ap (λ (st : ℕ → ℕ). load_regs st (m.rsp - 56)) at_call_stack ∙ load_regs-call_frame

  call_frame-return : call_frame (m.rsp - 72) ≡ m.rip + 2 + 2 + 2 + 1 + 1 + 1 + 1 + 4 + 5 + 10 + 3
  call_frame-return = ground arith

  call_frame-above : (a : ℕ) → m.rsp ≤ a → call_frame a ≡ m.stack a
  call_frame-above a h = ground arith

  pub at_call_return :
      (at_call addr m).stack (m.rsp - 72) ≡ m.rip + 2 + 2 + 2 + 1 + 1 + 1 + 1 + 4 + 5 + 10 + 3
  at_call_return = ap (λ (st : ℕ → ℕ). st (m.rsp - 72)) at_call_stack ∙ call_frame-return

  pub at_call_above : (a : ℕ) → m.rsp ≤ a → (at_call addr m).stack a ≡ m.stack a
  at_call_above a h = ap (λ (st : ℕ → ℕ). st a) at_call_stack ∙ call_frame-above a h

-- The machine behind the stub's return, from the instruction after its call on.
abbrev pub at_return : Machine → Machine
at_return m = execute ret (behind 1 (execute_all after_call m))

-- The machine that the callee leaves, for the application's stack pointer `a`.
abbrev pub left : ℕ → Machine → Machine
left a m = record m { rsp = a - 64; rip = 544 }

pub left_eq : (a : ℕ) (m : Machine) → m.rsp ≡ a - 64 → m.rip ≡ 544 → m ≡ left a m
left_eq a m h k = λ i. record m { rsp = h i; rip = k i }

module _ (a : ℕ) (m : Machine) (room : 64 ≤ a) (top : a + 8 < 2 ^ 64) where
  up_1 : up (a - 64) 8 ≡ a - 56
  up_1 = ground (arith, up_lem (a - 64) 8)

  up_2 : up (a - 56) 8 ≡ a - 48
  up_2 = ground (arith, up_lem (a - 56) 8)

  up_3 : up (a - 48) 8 ≡ a - 40
  up_3 = ground (arith, up_lem (a - 48) 8)

  up_4 : up (a - 40) 8 ≡ a - 32
  up_4 = ground (arith, up_lem (a - 40) 8)

  up_5 : up (a - 32) 8 ≡ a - 24
  up_5 = ground (arith, up_lem (a - 32) 8)

  up_6 : up (a - 24) 8 ≡ a - 16
  up_6 = ground (arith, up_lem (a - 24) 8)

  up_7 : up (a - 16) 8 ≡ a - 8
  up_7 = ground (arith, up_lem (a - 16) 8)

  up_8 : up (a - 8) 8 ≡ a
  up_8 = ground (arith, up_lem (a - 8) 8)

  up_9 : up a 8 ≡ a + 8
  up_9 = ground (arith, up_lem a 8)

  pub at_return_lem :
      (at_return (left a m)).rip ≡ m.stack a
      × (at_return (left a m)).rsp ≡ a + 8
      × (at_return (left a m)).rax_v ≡ m.rax_v
      × (at_return (left a m)).rdi_v ≡ m.stack (a - 48)
      × (at_return (left a m)).rsi_v ≡ m.stack (a - 40)
      × (at_return (left a m)).rdx_v ≡ m.stack (a - 32)
      × (at_return (left a m)).r10_v ≡ m.stack (a - 24)
      × (at_return (left a m)).r8_v ≡ m.stack (a - 16)
      × (at_return (left a m)).r9_v ≡ m.stack (a - 8)
  at_return_lem = (
    simp (up_1, up_2, up_3, up_4, up_5, up_6, up_7, up_8),
    simp (up_1, up_2, up_3, up_4, up_5, up_6, up_7, up_8, up_9),
    refl,
    simp (up_1, up_2),
    simp (up_1, up_2, up_3),
    simp (up_1, up_2, up_3, up_4),
    simp (up_1, up_2, up_3, up_4, up_5),
    simp (up_1, up_2, up_3, up_4, up_5, up_6),
    simp (up_1, up_2, up_3, up_4, up_5, up_6, up_7),
  )
