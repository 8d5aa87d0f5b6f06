-- ===== src/HookApi/Hooks.antt =====
-- zpoline_hook_api/src/syscall_hooks.rs: the trait `SyscallHooks`. A method takes `self` and returns it
-- changed; `!` is the empty type. The record of the trait's default methods is `default_hooks`.
use zpoline_rs.Prelude.{ℕ}
use zpoline_rs.HookApi.Program.{Program, done, ◌>>=◌}
use zpoline_rs.HookApi.Defaults.{
  default_read, default_write, default_open, default_close, default_lseek, default_openat,
  default_dup, default_dup2, default_pipe, default_mmap, default_munmap, default_mprotect,
  default_brk, default_getpid, default_gettid, default_fork, default_execve, default_exit,
  default_exit_group, default_wait4, default_kill, default_socket, default_connect, default_accept,
  default_bind, default_listen, default_ioctl, default_access,
}

pub record SyscallHooks (S : Type 0) : Type 0 where
  pub hook_read : S → (fd buf count : ℕ) → Program (ℕ × S)
  pub hook_write : S → (fd buf count : ℕ) → Program (ℕ × S)
  pub hook_open : S → (pathname flags mode : ℕ) → Program (ℕ × S)
  pub hook_close : S → (fd : ℕ) → Program (ℕ × S)
  pub hook_lseek : S → (fd offset whence : ℕ) → Program (ℕ × S)
  pub hook_openat : S → (dirfd pathname flags mode : ℕ) → Program (ℕ × S)
  pub hook_dup : S → (oldfd : ℕ) → Program (ℕ × S)
  pub hook_dup2 : S → (oldfd newfd : ℕ) → Program (ℕ × S)
  pub hook_pipe : S → (pipefd : ℕ) → Program (ℕ × S)
  pub hook_mmap : S → (addr length prot flags fd offset : ℕ) → Program (ℕ × S)
  pub hook_munmap : S → (addr length : ℕ) → Program (ℕ × S)
  pub hook_mprotect : S → (addr len prot : ℕ) → Program (ℕ × S)
  pub hook_brk : S → (addr : ℕ) → Program (ℕ × S)
  pub hook_getpid : S → Program (ℕ × S)
  pub hook_gettid : S → Program (ℕ × S)
  pub hook_fork : S → Program (ℕ × S)
  pub hook_execve : S → (pathname argv envp : ℕ) → Program (ℕ × S)
  pub hook_exit : S → (status : ℕ) → Program ⊥
  pub hook_exit_group : S → (status : ℕ) → Program ⊥
  pub hook_wait4 : S → (pid wstatus options rusage : ℕ) → Program (ℕ × S)
  pub hook_kill : S → (pid sig : ℕ) → Program (ℕ × S)
  pub hook_socket : S → (domain ty protocol : ℕ) → Program (ℕ × S)
  pub hook_connect : S → (sockfd addr addrlen : ℕ) → Program (ℕ × S)
  pub hook_accept : S → (sockfd addr addrlen : ℕ) → Program (ℕ × S)
  pub hook_bind : S → (sockfd addr addrlen : ℕ) → Program (ℕ × S)
  pub hook_listen : S → (sockfd backlog : ℕ) → Program (ℕ × S)
  pub hook_ioctl : S → (fd request arg : ℕ) → Program (ℕ × S)
  pub hook_access : S → (pathname mode : ℕ) → Program (ℕ × S)

-- A method that leaves `self` alone.
abbrev pub keep : {S : Type 0} → S → Program ℕ → Program (ℕ × S)
keep s p = do v ← p; done (v, s)

unfoldable pub default_hooks : {S : Type 0} → SyscallHooks S
unfolding default_read default_write default_open default_close default_lseek default_openat
    default_dup default_dup2 default_pipe default_mmap default_munmap default_mprotect default_brk
    default_getpid default_gettid default_fork default_execve default_exit default_exit_group
    default_wait4 default_kill default_socket default_connect default_accept default_bind
    default_listen default_ioctl default_access
default_hooks = record {
  hook_read = λ s fd buf count. keep s (default_read fd buf count);
  hook_write = λ s fd buf count. keep s (default_write fd buf count);
  hook_open = λ s pathname flags mode. keep s (default_open pathname flags mode);
  hook_close = λ s fd. keep s (default_close fd);
  hook_lseek = λ s fd offset whence. keep s (default_lseek fd offset whence);
  hook_openat = λ s dirfd pathname flags mode. keep s (default_openat dirfd pathname flags mode);
  hook_dup = λ s oldfd. keep s (default_dup oldfd);
  hook_dup2 = λ s oldfd newfd. keep s (default_dup2 oldfd newfd);
  hook_pipe = λ s pipefd. keep s (default_pipe pipefd);
  hook_mmap =
      λ s addr length prot flags fd offset. keep s (default_mmap addr length prot flags fd offset);
  hook_munmap = λ s addr length. keep s (default_munmap addr length);
  hook_mprotect = λ s addr len prot. keep s (default_mprotect addr len prot);
  hook_brk = λ s addr. keep s (default_brk addr);
  hook_getpid = λ s. keep s (default_getpid);
  hook_gettid = λ s. keep s (default_gettid);
  hook_fork = λ s. keep s (default_fork);
  hook_execve = λ s pathname argv envp. keep s (default_execve pathname argv envp);
  hook_exit = λ s status. default_exit status;
  hook_exit_group = λ s status. default_exit_group status;
  hook_wait4 = λ s pid wstatus options rusage. keep s (default_wait4 pid wstatus options rusage);
  hook_kill = λ s pid sig. keep s (default_kill pid sig);
  hook_socket = λ s domain ty protocol. keep s (default_socket domain ty protocol);
  hook_connect = λ s sockfd addr addrlen. keep s (default_connect sockfd addr addrlen);
  hook_accept = λ s sockfd addr addrlen. keep s (default_accept sockfd addr addrlen);
  hook_bind = λ s sockfd addr addrlen. keep s (default_bind sockfd addr addrlen);
  hook_listen = λ s sockfd backlog. keep s (default_listen sockfd backlog);
  hook_ioctl = λ s fd request arg. keep s (default_ioctl fd request arg);
  hook_access = λ s pathname mode. keep s (default_access pathname mode);
}
