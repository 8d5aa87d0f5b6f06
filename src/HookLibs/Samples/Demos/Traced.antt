-- ===== src/HookLibs/Samples/Demos/Traced.antt =====
-- zpoline_samples/src/main.rs: every system call of `main` is made, behind its trace line.
use zpoline_rs.Prelude.{ℕ, suc, ◌+◌, ◌≡◌, refl, ◌∙◌, List, [], ◌∷◌, ◌++◌, some, false, All}
use zpoline_rs.HookApi.Regs.{SyscallRegs}
use zpoline_rs.HookApi.Program.{Program}
use zpoline_rs.HookApi.Process.{Kernel, custom, Process, Outcome}
use zpoline_rs.HookApi.Entry.{hook_init}
use zpoline_rs.HookLibs.Printing.{CallsOnly, answers}
use zpoline_rs.HookLibs.Observer.Calls.{make_calls}
use zpoline_rs.HookLibs.Names.{trace_name}
use zpoline_rs.HookLibs.Tracer.{TraceLine, trace_hook}
use zpoline_rs.HookLibs.Tracer.Traced.{Traced, traced, line_ended, call_ended, trace_hook-Traced}
use zpoline_rs.HookLibs.Samples.Demos.{
  Action, println, eprintln, process_id, read_to_string, metadata, Io, calls_for, Shown,
}
use zpoline_rs.HookLibs.Samples.Demos.Mains.{load_number, sample_steps, sample_main}
use zpoline_rs.HookLibs.Samples.Demos.Shown.{
  Leads, leads, gone, bind-Leads, map-Leads, history, numbers, run_steps-Leads,
}

module _ {K : Type 0} (kernel : Kernel K) (print : TraceLine → Program (Unit {0})) where
  -- The line of a call.
  abbrev pub line_of : SyscallRegs → Program (Unit {0})
  line_of regs = print (record { name = trace_name regs.rax; regs = regs })

  -- The kernel has answered the calls of a list in order, before each of them those of its line, and no
  -- other.
  pub data Answers : List SyscallRegs → K → K → Type 0 where
    none_asked : {k : K} → Answers [] k k
    asked :
        {regs : SyscallRegs} {calls : List SyscallRegs} {k k' k'' k3 : K} (v : ℕ)
        → answers kernel (line_of regs) k ≡ some (tt, k')
        → kernel regs k' ≡ some (v, k'')
        → Answers calls k'' k3
        → Answers (regs ∷ calls) k k3

  Answers-append :
      {xs ys : List SyscallRegs} {a b c : K}
      → Answers xs a b
      → Answers ys b c
      → Answers (xs ++ ys) a c
  Answers-append none_asked s = s
  Answers-append (asked v r e rest) s = asked v r e (Answers-append rest s)

-- What the sample does, one thing after another.
abbrev pub sample_actions : List Action
sample_actions =
    println "zpoline-rs sample program"
    ∷ println "This program traces system calls made by the process."
    ∷ println ""
    ∷ println "Executing some system calls..."
    ∷ println "1. Hello from zpoline-rs!"
    ∷ process_id
    ∷ println "2. Process ID: {}"
    ∷ read_to_string "/proc/self/comm"
    ∷ println "3. Process name: {}"
    ∷ eprintln "3. Failed to read process name: {}"
    ∷ metadata "/tmp"
    ∷ println "4. /tmp is a directory: {}"
    ∷ eprintln "4. Failed to stat /tmp: {}"
    ∷ println ""
    ∷ println "Sample completed. Check stderr for syscall trace output."
    ∷ []

-- The calls of things that are done, behind those of a list.
abbrev pub then_calls : Io → ℕ → List Action → List SyscallRegs → List SyscallRegs
then_calls io i [] before = before
then_calls io i (a ∷ actions) before = then_calls io (i + 1) actions (before ++ io i a)

pub any_calls-All : (calls : List SyscallRegs) → All (λ regs. Unit {0}) calls
any_calls-All [] = tt
any_calls-All (regs ∷ calls) = (tt, any_calls-All calls)

module _ {S K : Type 0} (kernel : Kernel K) (print : TraceLine → Program (Unit {0})) where
  -- The sample's hook is set, no hook runs, and the kernel went from `k` to where it is by the calls.
  pub record Tracing (k : K) (h : List SyscallRegs) (p : Process S K) : Type 0 where
    pub function_lem : p.hook_function ≡ custom (trace_hook print)
    pub outside : p.in_hook ≡ false
    pub answers_lem : Answers kernel print h k p.kernel_state

module _ {S K : Type 0} (kernel : Kernel K) (print : TraceLine → Program (Unit {0}))
    (prints : (l : TraceLine) → CallsOnly (print l)) where
  -- One call that came back.
  abbrev First : SyscallRegs → Process S K → ℕ × SyscallRegs → Process S K → Type 0
  First regs p v q =
      (q.hook_function ≡ p.hook_function)
      × (q.in_hook ≡ p.in_hook)
      × ((k : K) × (answers kernel (line_of kernel print regs) p.kernel_state ≡ some (tt, k))
          × (kernel regs k ≡ some (v.0, q.kernel_state)))

  Traced-Leads :
      (regs : SyscallRegs) (p : Process S K) (x : Outcome S K (ℕ × SyscallRegs))
      → Traced kernel (line_of kernel print regs) regs p x
      → Leads (First regs p) x
  Traced-Leads regs p _ (traced {k} r e keeps object) =
      leads (keeps.same_function, keeps.same_guard, (k, r, e))
  Traced-Leads regs p _ (line_ended e) = gone
  Traced-Leads regs p _ (call_ended r e) = gone

  from_here :
      (depth : ℕ) (calls : List SyscallRegs) (p : Process S K)
      → p.hook_function ≡ custom (trace_hook print)
      → p.in_hook ≡ false
      → Leads
          (λ (vs : List ℕ) q. Tracing kernel print p.kernel_state calls q)
          (make_calls kernel (suc (suc depth)) calls p)
  unfolding make_calls
  from_here depth [] p f o =
      leads (record { function_lem = f; outside = o; answers_lem = none_asked })
  from_here depth (regs ∷ calls) p f o =
      bind-Leads _ (Traced-Leads regs p _ (trace_hook-Traced kernel print prints depth regs p f o))
        (λ v q first. bind-Leads _ (from_here depth calls q (first.0 ∙ f) (first.1 ∙ o)) (λ vs r t.
          leads (record {
            function_lem = t.function_lem;
            outside = t.outside;
            answers_lem = asked v.0 first.2.1 first.2.2 t.answers_lem;
          })))

  more_calls :
      (depth : ℕ) (k : K) (h calls : List SyscallRegs) (p : Process S K)
      → Tracing kernel print k h p
      → Leads
          (λ (vs : List ℕ) q. Tracing kernel print k (h ++ calls) q)
          (make_calls kernel (suc (suc depth)) calls p)
  more_calls depth k h calls p t =
      map-Leads (from_here depth calls p t.function_lem t.outside) (λ vs q u. record {
        function_lem = u.function_lem;
        outside = u.outside;
        answers_lem = Answers-append kernel print t.answers_lem u.answers_lem;
      })

  -- `main` of the sample, with no hook running before, whatever system calls std makes for its lines
  -- and whatever the trace lines make: it comes to its end, unless a call ends the process, and for each
  -- of the calls for the fifteen things that it does, in their order, the kernel has answered the calls that print the line with
  -- the name and the registers of the call, then the call with the very registers, and no other. The hook
  -- is set still, and the guard is down. Printing a line makes system calls only.
  pub sample_main-Tracing :
      (depth : ℕ) (io : Io) (p : Process S K)
      → p.in_hook ≡ false
      → Leads
          (λ (lines : Shown) q.
            (lines ≡ [])
            × Tracing kernel print p.kernel_state (then_calls io 0 sample_actions []) q)
          (sample_main kernel (suc (suc depth)) io print p)
  unfolding sample_main numbers history
  sample_main-Tracing depth io p o =
      run_steps-Leads kernel (suc (suc depth)) io load_number (λ n h. n)
        (Tracing kernel print p.kernel_state) (λ regs. Unit)
        (λ i a. any_calls-All (calls_for io i a))
        (λ h calls q t any. more_calls depth p.kernel_state h calls q t) (λ f h q t. refl) 0
        sample_steps [] (hook_init (custom (trace_hook print)) p)
        (record { function_lem = refl; outside = o; answers_lem = none_asked })
