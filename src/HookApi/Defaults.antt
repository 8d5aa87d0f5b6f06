-- ===== src/HookApi/Defaults.antt =====
-- zpoline_hook_api/src/syscall_hooks.rs: the functions `default_*`, which make the system call that a
-- trait method stands for.
mod Files
mod Memory
mod Processes
mod Network
unfoldable pub use Files.{
  default_read, default_write, default_open, default_close, default_lseek, default_openat,
  default_dup, default_dup2, default_pipe,
}
unfoldable pub use Memory.{default_mmap, default_munmap, default_mprotect, default_brk}
unfoldable pub use Processes.{
  default_getpid, default_gettid, default_fork, default_execve, default_exit, default_exit_group,
  default_wait4, default_kill,
}
unfoldable pub use Network.{
  default_socket, default_connect, default_accept, default_bind, default_listen, default_ioctl,
  default_access,
}
