-- ===== src/Error/Abi.antt =====
-- Constants of the Linux user-space ABI that src/tcpao/linux.rs and the mode files take from the
-- crates `libc` and `linux_raw_sys` (uapi errno.h, socket.h, in.h, tcp.h).
use rust_tcpao_proxy.Base.{ℕ}

abbrev pub eperm : ℕ
eperm = 1

abbrev pub enoent : ℕ
enoent = 2

abbrev pub eacces : ℕ
eacces = 13

abbrev pub einval : ℕ
einval = 22

abbrev pub enosys : ℕ
enosys = 38

abbrev pub enoprotoopt : ℕ
enoprotoopt = 92

abbrev pub eopnotsupp : ℕ
eopnotsupp = 95

abbrev pub af_inet : ℕ
af_inet = 2

abbrev pub af_inet6 : ℕ
af_inet6 = 10

abbrev pub sol_socket : ℕ
sol_socket = 1

abbrev pub so_keepalive : ℕ
so_keepalive = 9

abbrev pub ipproto_tcp : ℕ
ipproto_tcp = 6

abbrev pub tcp_keepidle : ℕ
tcp_keepidle = 4

abbrev pub tcp_keepintvl : ℕ
tcp_keepintvl = 5

abbrev pub tcp_keepcnt : ℕ
tcp_keepcnt = 6

abbrev pub tcp_ao_maxkeylen : ℕ
tcp_ao_maxkeylen = 80
