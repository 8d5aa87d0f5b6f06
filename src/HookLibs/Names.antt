-- ===== src/HookLibs/Names.antt =====
-- The names that the tracing hooks print: the `match` of zpoline_hook_impl/src/lib.rs and the one of
-- zpoline_samples/src/main.rs, as the tables of their arms, looked up in order.
pub mod Agreement
use Prim.Native.String.{String}
use zpoline_rs.Prelude.{ℕ, List, [], ◌∷◌, Option, none, some, ◌==◌, if◌then◌else◌}

abbrev pub name_in : List (ℕ × String) → ℕ → Option String
name_in [] nr = none
name_in ((n, name) ∷ rows) nr = if nr == n then some name else name_in rows nr

abbrev pub or_unknown : Option String → String
or_unknown none = "<unknown>"
or_unknown (some name) = name

-- `zpoline_hook_function`.
abbrev pub hook_names : List (ℕ × String)
hook_names =
    (0, "read")
    ∷ (1, "write")
    ∷ (2, "open")
    ∷ (3, "close")
    ∷ (4, "stat")
    ∷ (5, "fstat")
    ∷ (6, "lstat")
    ∷ (7, "poll")
    ∷ (8, "lseek")
    ∷ (9, "mmap")
    ∷ (10, "mprotect")
    ∷ (11, "munmap")
    ∷ (12, "brk")
    ∷ (13, "rt_sigaction")
    ∷ (14, "rt_sigprocmask")
    ∷ (15, "rt_sigreturn")
    ∷ (16, "ioctl")
    ∷ (17, "pread64")
    ∷ (18, "pwrite64")
    ∷ (19, "readv")
    ∷ (20, "writev")
    ∷ (21, "access")
    ∷ (22, "pipe")
    ∷ (23, "select")
    ∷ (24, "sched_yield")
    ∷ (25, "mremap")
    ∷ (26, "msync")
    ∷ (27, "mincore")
    ∷ (28, "madvise")
    ∷ (29, "shmget")
    ∷ (30, "shmat")
    ∷ (31, "shmctl")
    ∷ (32, "dup")
    ∷ (33, "dup2")
    ∷ (34, "pause")
    ∷ (35, "nanosleep")
    ∷ (36, "getitimer")
    ∷ (37, "alarm")
    ∷ (38, "setitimer")
    ∷ (39, "getpid")
    ∷ (40, "sendfile")
    ∷ (41, "socket")
    ∷ (42, "connect")
    ∷ (43, "accept")
    ∷ (44, "sendto")
    ∷ (45, "recvfrom")
    ∷ (46, "sendmsg")
    ∷ (47, "recvmsg")
    ∷ (48, "shutdown")
    ∷ (49, "bind")
    ∷ (50, "listen")
    ∷ (51, "getsockname")
    ∷ (52, "getpeername")
    ∷ (53, "socketpair")
    ∷ (54, "setsockopt")
    ∷ (55, "getsockopt")
    ∷ (56, "clone")
    ∷ (57, "fork")
    ∷ (58, "vfork")
    ∷ (59, "execve")
    ∷ (60, "exit")
    ∷ (61, "wait4")
    ∷ (62, "kill")
    ∷ (63, "uname")
    ∷ (186, "gettid")
    ∷ (231, "exit_group")
    ∷ (257, "openat")
    ∷ (262, "newfstatat")
    ∷ []

unfoldable pub syscall_name : ℕ → String
syscall_name nr = or_unknown (name_in hook_names nr)

-- `trace_hook`.
abbrev pub trace_names : List (ℕ × String)
trace_names =
    (0, "read")
    ∷ (1, "write")
    ∷ (2, "open")
    ∷ (3, "close")
    ∷ (4, "stat")
    ∷ (5, "fstat")
    ∷ (9, "mmap")
    ∷ (10, "mprotect")
    ∷ (11, "munmap")
    ∷ (39, "getpid")
    ∷ (60, "exit")
    ∷ (158, "arch_prctl")
    ∷ (186, "gettid")
    ∷ (231, "exit_group")
    ∷ []

unfoldable pub trace_name : ℕ → String
trace_name nr = or_unknown (name_in trace_names nr)
