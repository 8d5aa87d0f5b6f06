-- ===== src/HookLibs/Names/Agreement.antt =====
-- The tables against one another.
use zpoline_rs.Prelude.{ℕ, ◌≡◌, ◌≢◌, arith}
use zpoline_rs.HookLibs.Names.{syscall_name, trace_name}

-- Whatever name the sample prints for a number, other than <unknown> and that of 158 (arch_prctl), the hook
-- library prints the same.
pub trace_name-syscall_name :
    (nr : ℕ) → trace_name nr ≢ "<unknown>" → nr ≢ 158 → trace_name nr ≡ syscall_name nr
unfolding trace_name syscall_name
trace_name-syscall_name nr h k = ground arith
