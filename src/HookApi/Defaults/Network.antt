-- ===== src/HookApi/Defaults/Network.antt =====
-- zpoline_hook_api/src/syscall_hooks.rs: the default implementations, sockets, ioctl and access.
-- Arguments and results are bit patterns of the C types.
use zpoline_rs.Prelude.{ℕ, low_32, sign_extend}
use zpoline_rs.HookApi.Regs.{new}
use zpoline_rs.HookApi.Program.{Program, done, raw_syscall, ◌>>=◌}

unfoldable pub default_socket : (domain ty protocol : ℕ) → Program ℕ
default_socket domain ty protocol = do
  v ← raw_syscall (new 41 (sign_extend domain) (sign_extend ty) (sign_extend protocol) 0 0 0)
  done (low_32 v)

unfoldable pub default_connect : (sockfd addr addrlen : ℕ) → Program ℕ
default_connect sockfd addr addrlen = do
  v ← raw_syscall (new 42 (sign_extend sockfd) addr addrlen 0 0 0)
  done (low_32 v)

unfoldable pub default_accept : (sockfd addr addrlen : ℕ) → Program ℕ
default_accept sockfd addr addrlen = do
  v ← raw_syscall (new 43 (sign_extend sockfd) addr addrlen 0 0 0)
  done (low_32 v)

unfoldable pub default_bind : (sockfd addr addrlen : ℕ) → Program ℕ
default_bind sockfd addr addrlen = do
  v ← raw_syscall (new 49 (sign_extend sockfd) addr addrlen 0 0 0)
  done (low_32 v)

unfoldable pub default_listen : (sockfd backlog : ℕ) → Program ℕ
default_listen sockfd backlog = do
  v ← raw_syscall (new 50 (sign_extend sockfd) (sign_extend backlog) 0 0 0 0)
  done (low_32 v)

unfoldable pub default_ioctl : (fd request arg : ℕ) → Program ℕ
default_ioctl fd request arg = do
  v ← raw_syscall (new 16 (sign_extend fd) request arg 0 0 0)
  done (low_32 v)

unfoldable pub default_access : (pathname mode : ℕ) → Program ℕ
default_access pathname mode = do
  v ← raw_syscall (new 21 pathname (sign_extend mode) 0 0 0 0)
  done (low_32 v)
