-- ===== src/HookLibs/Samples.antt =====
-- zpoline_samples/examples: `LoggingHook` of simple_hooks.rs and `StatisticsHook` of trait_hooks.rs.
pub mod Silent
pub mod Bytes
pub mod Totals
pub mod Counters
pub mod Demos
mod Tests
use zpoline_rs.Prelude.{
  ℕ, ◌+◌, ◌^◌, Bool, ◌&&◌, List, Option, none, some, ltb, ◌==◌, add_64, if◌then◌else◌,
}
use zpoline_rs.HookApi.Program.{Program, done, ◌>>=◌}
use zpoline_rs.HookApi.Hooks.{SyscallHooks, keep, default_hooks}
use zpoline_rs.HookApi.Defaults.{default_read, default_write, default_open, default_getpid}
use zpoline_rs.HookLibs.Stats.{Counts, count_write, count_read, count_open, count_getpid}

-- `LoggingHook` counts like `StatsHook`, and prints nothing.
unfoldable pub logging_hooks : SyscallHooks Counts
unfolding default_hooks default_read default_write default_open default_getpid
logging_hooks = record default_hooks {
  hook_write = λ s fd buf count. keep (count_write s) (default_write fd buf count);
  hook_read = λ s fd buf count. keep (count_read s) (default_read fd buf count);
  hook_open = λ s pathname flags mode. keep (count_open s) (default_open pathname flags mode);
  hook_getpid = λ s. keep (count_getpid s) default_getpid;
}

-- The fields of `StatisticsHook`; `StatisticsHook::new` is all zeros.
pub record Statistics : Type 0 where
  pub write_count : ℕ
  pub read_count : ℕ
  pub open_count : ℕ
  pub total_bytes_written : ℕ
  pub total_bytes_read : ℕ

abbrev pub new_statistics : Statistics
new_statistics = record {
  write_count = 0;
  read_count = 0;
  open_count = 0;
  total_bytes_written = 0;
  total_bytes_read = 0;
}

-- The two messages; a path is `none` where the pointer is null.
pub data Report : Type 0 where
  open_called : (path : Option (List ℕ)) (flags mode : ℕ) → Report
  getpid_gave : (pid : ℕ) → Report

-- `result > 0` for an isize.
abbrev pub is_positive : ℕ → Bool
is_positive v = ltb 0 v && ltb v (2 ^ 63)

abbrev pub wrote : ℕ → Statistics → Statistics
wrote result s =
    if is_positive result
    then record s { total_bytes_written = add_64 s.total_bytes_written result }
    else s

abbrev pub read_in : ℕ → Statistics → Statistics
read_in result s =
    if is_positive result
    then record s { total_bytes_read = add_64 s.total_bytes_read result }
    else s

-- The text at an address of the application's memory is an argument.
abbrev pub path_text : (ℕ → List ℕ) → ℕ → Option (List ℕ)
path_text text_at pathname = if pathname == 0 then none else some (text_at pathname)

module _ (print : Report → Program (Unit {0})) (text_at : ℕ → List ℕ) where
  unfoldable pub statistics_hooks : SyscallHooks Statistics
  unfolding default_hooks default_read default_write default_open default_getpid
  statistics_hooks = record default_hooks {
    hook_write = λ s fd buf count. do
      let s = record s { write_count = add_64 s.write_count 1 }
      result ← default_write fd buf count
      done (result, wrote result s);
    hook_read = λ s fd buf count. do
      let s = record s { read_count = add_64 s.read_count 1 }
      result ← default_read fd buf count
      done (result, read_in result s);
    hook_open = λ s pathname flags mode.
        print (open_called (path_text text_at pathname) flags mode) >>= λ _.
        keep (record s { open_count = add_64 s.open_count 1 }) (default_open pathname flags mode);
    hook_getpid = λ s. do
      pid ← default_getpid
      u ← print (getpid_gave pid)
      done (pid, s);
  }
