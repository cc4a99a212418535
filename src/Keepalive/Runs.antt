-- ===== src/Keepalive/Runs.antt =====
-- `apply_keepalive` of src/mode_initiator.rs where every option can be set.
use rust_tcpao_proxy.Base.{ℕ, refl, Option, none, some, not}
use rust_tcpao_proxy.Error.{
  io_error, sol_socket, so_keepalive, ipproto_tcp, tcp_keepidle, tcp_keepintvl, tcp_keepcnt,
}
use rust_tcpao_proxy.Config.{GlobalConfig}
use rust_tcpao_proxy.Os.{Os, int_option, sys_setsockopt}
use rust_tcpao_proxy.Os.Gives.{Runs, Runs-then, Runs-map, Runs-if, IsWilling, sys_setsockopt-Runs}
use rust_tcpao_proxy.Keepalive.{
  as_i32, set_sockopt_int, set_if_some, set_keepalive, apply_keepalive,
}

module _ (sys : Os) (w : IsWilling sys) (fd : ℕ) where
  set_sockopt_int-Runs : (level name value : ℕ) → Runs (set_sockopt_int sys fd level name value)
  unfolding set_sockopt_int
  set_sockopt_int-Runs level name value =
      Runs-map io_error (sys_setsockopt sys fd (int_option level name value))
        (sys_setsockopt-Runs sys w fd (int_option level name value))

  set_if_some-Runs : (name : ℕ) (v : Option ℕ) → Runs (set_if_some sys fd name v)
  unfolding set_if_some
  set_if_some-Runs name none = λ t. refl
  set_if_some-Runs name (some v) = set_sockopt_int-Runs ipproto_tcp name (as_i32 v)

  pub apply_keepalive-Runs : (g : GlobalConfig) → Runs (apply_keepalive sys fd g)
  unfolding apply_keepalive set_keepalive
  apply_keepalive-Runs g =
      Runs-if (not g.tcp_keepalive) _ _ (λ t. refl)
        (Runs-then (set_sockopt_int sys fd sol_socket so_keepalive 1) _
          (set_sockopt_int-Runs sol_socket so_keepalive 1)
          (Runs-then (set_if_some sys fd tcp_keepidle g.keepalive_time_secs) _
            (set_if_some-Runs tcp_keepidle g.keepalive_time_secs)
            (Runs-then (set_if_some sys fd tcp_keepintvl g.keepalive_intvl_secs) _
              (set_if_some-Runs tcp_keepintvl g.keepalive_intvl_secs)
              (set_if_some-Runs tcp_keepcnt g.keepalive_probes))))
