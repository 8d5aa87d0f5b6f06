-- ===== src/HookLibs/Stats.antt =====
-- zpoline_hook_trait_example/src/lib.rs: `StatsHook`, which counts four system calls in statics and prints
-- the first three of two of them. The statics are the object's state, which changes when a method is
-- through. In the code a static is counted up where the method begins; only `get_stats` could tell.
pub mod Observing
pub mod Tally
pub mod Threads
use zpoline_rs.Prelude.{ℕ, ◌+◌, ◌%◌, ◌^◌, Bool, Option, ltb, ◌==◌, add_64, low_32, if◌then◌else◌}
use zpoline_rs.HookApi.Regs.{SyscallRegs}
use zpoline_rs.HookApi.Program.{Program, done, ◌>>=◌}
use zpoline_rs.HookApi.Hooks.{SyscallHooks, keep, default_hooks}
use zpoline_rs.HookApi.Process.{HookFn, Process}
use zpoline_rs.HookApi.Entry.{register_syscall_hooks, get_trait_dispatch_hook}
use zpoline_rs.HookApi.Defaults.{default_read, default_write, default_open, default_getpid}

-- WRITE_COUNT, READ_COUNT, OPEN_COUNT, GETPID_COUNT.
pub record Counts : Type 0 where
  pub write_count : ℕ
  pub read_count : ℕ
  pub open_count : ℕ
  pub getpid_count : ℕ

-- The two messages: the file descriptor, the number of bytes, and which call it is.
pub data Message : Type 0 where
  write_called read_called : (fd count nr : ℕ) → Message

abbrev pub count_write : Counts → Counts
count_write s = record s { write_count = add_64 s.write_count 1 }

abbrev pub count_read : Counts → Counts
count_read s = record s { read_count = add_64 s.read_count 1 }

abbrev pub count_open : Counts → Counts
count_open s = record s { open_count = add_64 s.open_count 1 }

abbrev pub count_getpid : Counts → Counts
count_getpid s = record s { getpid_count = add_64 s.getpid_count 1 }

-- `if count_val < 3`.
abbrev pub first_three : (Message → Program (Unit {0})) → ℕ → Message → Program (Unit {0})
first_three print count m = if ltb count 3 then print m else done tt

unfoldable pub stats_hooks : (Message → Program (Unit {0})) → SyscallHooks Counts
unfolding default_hooks default_read default_write default_open default_getpid
stats_hooks print = record default_hooks {
  hook_write = λ s fd buf count.
      first_three print s.write_count (write_called fd count (s.write_count + 1)) >>= λ _.
      keep (count_write s) (default_write fd buf count);
  hook_read = λ s fd buf count.
      first_three print s.read_count (read_called fd count (s.read_count + 1)) >>= λ _.
      keep (count_read s) (default_read fd buf count);
  hook_open = λ s pathname flags mode. keep (count_open s) (default_open pathname flags mode);
  hook_getpid = λ s. keep (count_getpid s) default_getpid;
}

-- The statics at the start.
abbrev pub zero_counts : Counts
zero_counts = record { write_count = 0; read_count = 0; open_count = 0; getpid_count = 0 }

-- `init_hooks`, which runs when the library is loaded, and `zpoline_hook_init`; their messages are left out.
abbrev pub init_hooks :
    {K : Type 0} → (Message → Program (Unit {0})) → Process Counts K → Option (Process Counts K)
init_hooks print p = register_syscall_hooks (stats_hooks print) zero_counts p

abbrev pub zpoline_hook_init : HookFn
zpoline_hook_init = get_trait_dispatch_hook
