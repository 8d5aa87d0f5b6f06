-- ===== src/HookLibs/Stats/Threads.antt =====
-- `StatsHook` in a process of many threads.
use zpoline_rs.Prelude.{ℕ, ◌≡◌, List, ◌∷◌, some}
use zpoline_rs.HookApi.Regs.{SyscallRegs}
use zpoline_rs.HookApi.Program.{Program}
use zpoline_rs.HookApi.Program.Leaves.{Leaves}
use zpoline_rs.HookApi.Threads.{
  Object, Thread, outside, entered, holding, leaving, ended, Shared, running, registering, gone,
  System,
}
use zpoline_rs.HookLibs.Stats.{Counts, Message, stats_hooks}
use zpoline_rs.HookLibs.Stats.Observing.{count_call}
use zpoline_rs.HookLibs.Stats.Tally.{with_calls}

module _ (print : Message → Program (Unit {0})) where
  -- The program for a call leaves the counters with the call added.
  abbrev Adds : Counts → SyscallRegs → ℕ × Counts → Type 0
  Adds s regs r = r.1 ≡ count_call regs.rax s

  -- The object with the calls added.
  abbrev counting : List SyscallRegs → Counts → Object Counts
  counting calls s = some (stats_hooks print, with_calls calls s)

  abbrev Ready : List SyscallRegs → Counts → ℕ × Object Counts → Type 0
  Ready calls s r = r.1 ≡ counting calls s

  -- What is left of a thread's program gives the object with its call added.
  abbrev Holds : List SyscallRegs → Counts → Thread Counts → Type 0
  Holds calls s outside = Unit
  Holds calls s (entered regs) = Unit
  Holds calls s (holding regs p) = Leaves (Ready (regs ∷ calls) s) p
  Holds calls s (running p) = Unit
  Holds calls s (leaving v) = Unit
  Holds calls s registering = Unit
  Holds calls s ended = Unit
  Holds calls s gone = Unit

  -- The object has counted the calls that are through, and each thread's program will add its own.
  record Counted {K : Type 0} (s : Counts) (x : System Counts K) : Type 0 where
    pub object_lem : x.shared.object ≡ counting x.shared.calls s
    pub holds_lem : (j : ℕ) → Holds x.shared.calls s (x.threads j)

  -- `StatsHook` was registered last, with these counts.
  abbrev Registered : {K : Type 0} → Counts → Shared Counts K → Type 0
  Registered s m = m.registered ≡ some (stats_hooks print, s)
