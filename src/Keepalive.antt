-- ===== src/Keepalive.antt =====
-- `apply_keepalive` and `set_sockopt_int` of src/mode_initiator.rs; src/mode_terminator.rs holds a
-- copy of both.
pub mod Values
pub mod Runs
mod Tests
use rust_tcpao_proxy.Base.{ℕ, ◌%◌, ◌^◌, Bool, not, Option, none, some, if◌then◌else◌}
use rust_tcpao_proxy.Error.{
  ProxyError, sol_socket, so_keepalive, ipproto_tcp, tcp_keepidle, tcp_keepintvl, tcp_keepcnt,
}
use rust_tcpao_proxy.Config.{GlobalConfig}
use rust_tcpao_proxy.Os.{Os, Action, ◌>>=◌, ◌>>◌, pure, from_io, sys_setsockopt, int_option}

-- `v as i32`, as the 32 bits of the result.
unfoldable pub as_i32 : ℕ → ℕ
as_i32 v = v % 2 ^ 32

module _ (sys : Os) where
  unfoldable pub set_sockopt_int : ℕ → ℕ → ℕ → ℕ → Action ProxyError (Unit {0})
  set_sockopt_int fd level name value =
      from_io (sys_setsockopt sys fd (int_option level name value))

  -- `if let Some(v) = …`: an option of TCP that is set only if it is configured.
  unfoldable pub set_if_some : ℕ → ℕ → Option ℕ → Action ProxyError (Unit {0})
  unfolding set_sockopt_int as_i32
  set_if_some fd name none = pure tt
  set_if_some fd name (some v) = set_sockopt_int fd ipproto_tcp name (as_i32 v)

  -- `apply_keepalive` where keepalive is on.
  unfoldable pub set_keepalive : ℕ → GlobalConfig → Action ProxyError (Unit {0})
  unfolding set_sockopt_int set_if_some
  set_keepalive fd global = do
    set_sockopt_int fd sol_socket so_keepalive 1
    set_if_some fd tcp_keepidle global.keepalive_time_secs
    set_if_some fd tcp_keepintvl global.keepalive_intvl_secs
    set_if_some fd tcp_keepcnt global.keepalive_probes

  unfoldable pub apply_keepalive : ℕ → GlobalConfig → Action ProxyError (Unit {0})
  unfolding set_keepalive
  apply_keepalive fd global = if not global.tcp_keepalive then pure tt else set_keepalive fd global
