-- ===== src/Calls/Options.antt =====
-- The socket options of src/tcpao/linux.rs and of `apply_keepalive` of src/mode_initiator.rs.
use rust_tcpao_proxy.Base.{
  ℕ, ◌%◌, ◌^◌, ◌<◌, Bool, true, false, not, Option, none, some, Text, String, Result, ok, err,
  arith,
}
use rust_tcpao_proxy.Error.{
  IoError, io_error, kind, is_not_found, sol_socket, so_keepalive, ipproto_tcp, tcp_keepidle,
  tcp_keepintvl, tcp_keepcnt,
}
use rust_tcpao_proxy.Net.{SocketAddr}
use rust_tcpao_proxy.Config.{GlobalConfig}
use rust_tcpao_proxy.Os.{
  Os, Event, SockOpt, int_option, AoInfo, getenv, sys_setsockopt, sys_getsockopt, lift,
}
use rust_tcpao_proxy.Tcpao.Sockopt.{
  normalize_ao_error, is_true, allow, allow_test_bypass, allow_best_effort_inbound_ao,
  test_bypass_env, test_best_effort_inbound_env, setsockopt_tcp, set_ao_required, get_ao_info,
}
use rust_tcpao_proxy.Tcpao.Session.{
  ensure_ao_required, check_session, inspect_session, ensure_inbound_session_has_ao,
}
use rust_tcpao_proxy.Keepalive.{
  as_i32, set_sockopt_int, set_if_some, set_keepalive, apply_keepalive,
}
use rust_tcpao_proxy.Calls.{
  FitsOption, SendsOnly, Sends-lift, Sends-bind, Sends-then, Sends-map, Sends-attempt, Sends-if,
  Sends-call,
}

module _ (sys : Os) where
  pub SendsOnly-lift : {E A : Type 0} (r : Result E A) → SendsOnly {E = E} (lift r)
  SendsOnly-lift r = Sends-lift _ r (λ _ _. tt)

  pub SendsOnly-setsockopt :
      (fd : ℕ) (opt : SockOpt) → FitsOption opt → SendsOnly (sys_setsockopt sys fd opt)
  SendsOnly-setsockopt fd opt h =
      Sends-call _ (λ t. Event.setsockopt fd opt (sys.setsockopt t fd opt)) (λ t. h)

  SendsOnly-getenv : {E : Type 0} (name : Text) → SendsOnly {E = E} (getenv sys name)
  SendsOnly-getenv name =
      Sends-call (λ t. ok (sys.env_var t name)) (λ t. Event.env_var name) (λ t. tt)

  SendsOnly-allow : {E : Type 0} (name : Text) → SendsOnly (allow sys {E = E} name)
  unfolding allow
  SendsOnly-allow name = Sends-if _ (not sys.debug_assertions) _ _ (SendsOnly-lift (ok false)) (
      Sends-bind (λ _. Unit) _ (getenv sys name) _ (SendsOnly-getenv name)
        (λ v _. SendsOnly-lift (ok (is_true v))))

  pub SendsOnly-allow_test_bypass : {E : Type 0} → SendsOnly (allow_test_bypass sys {E = E})
  unfolding allow_test_bypass
  SendsOnly-allow_test_bypass = SendsOnly-allow test_bypass_env

  pub SendsOnly-setsockopt_tcp :
      (fd : ℕ) (opt : SockOpt) (context : String)
      → FitsOption opt
      → SendsOnly (setsockopt_tcp sys fd opt context)
  unfolding setsockopt_tcp
  SendsOnly-setsockopt_tcp fd opt context h =
      Sends-map _ (normalize_ao_error context) (sys_setsockopt sys fd opt)
        (SendsOnly-setsockopt fd opt h)

  pub SendsOnly-set_ao_required : (fd : ℕ) (b : Bool) → SendsOnly (set_ao_required sys fd b)
  unfolding set_ao_required
  SendsOnly-set_ao_required fd true = SendsOnly-setsockopt_tcp fd _ "TCP_AO_INFO" (omega arith)
  SendsOnly-set_ao_required fd false = SendsOnly-setsockopt_tcp fd _ "TCP_AO_INFO" (omega arith)

  SendsOnly-get_ao_info : (fd : ℕ) → SendsOnly (get_ao_info sys fd)
  unfolding get_ao_info
  SendsOnly-get_ao_info fd =
      Sends-map _ (normalize_ao_error "TCP_AO_INFO getsockopt") (sys_getsockopt sys fd)
        (Sends-call _ (λ t. Event.getsockopt fd (sys.getsockopt t fd)) (λ t. tt))

  SendsOnly-check_session :
      (peer : SocketAddr) (r : Result IoError AoInfo) → SendsOnly (check_session sys peer r)
  unfolding check_session
  SendsOnly-check_session peer (ok info) = SendsOnly-lift (ensure_ao_required info)
  SendsOnly-check_session peer (err e) =
      Sends-if _ (is_not_found (kind e)) _ _
        (Sends-bind (λ _. Unit) _ (allow_best_effort_inbound_ao sys) _
          (SendsOnly-allow test_best_effort_inbound_env)
          (λ b _. Sends-if _ b _ _ (SendsOnly-lift (ok tt)) (SendsOnly-lift (err _))))
        (SendsOnly-lift (err e))

  pub SendsOnly-ensure_inbound_session_has_ao :
      (fd : ℕ) (peer : SocketAddr) → SendsOnly (ensure_inbound_session_has_ao sys fd peer)
  unfolding ensure_inbound_session_has_ao inspect_session
  SendsOnly-ensure_inbound_session_has_ao fd peer =
      Sends-bind (λ _. Unit) _ (allow_test_bypass sys) _ SendsOnly-allow_test_bypass
        λ bypass _. Sends-if _ bypass _ _ (SendsOnly-lift (ok tt)) (
          Sends-bind (λ _. Unit) _ _ _
            (Sends-attempt (get_ao_info sys fd) (SendsOnly-get_ao_info fd))
            (λ r _. SendsOnly-check_session peer r))

  SendsOnly-set_sockopt_int :
      (fd level name value : ℕ)
      → value < 2 ^ 32
      → SendsOnly (set_sockopt_int sys fd level name value)
  unfolding set_sockopt_int
  SendsOnly-set_sockopt_int fd level name value h =
      Sends-map _ io_error (sys_setsockopt sys fd (int_option level name value))
        (SendsOnly-setsockopt fd (int_option level name value) h)

  SendsOnly-set_if_some : (fd name : ℕ) (v : Option ℕ) → SendsOnly (set_if_some sys fd name v)
  unfolding set_if_some as_i32
  SendsOnly-set_if_some fd name none = SendsOnly-lift (ok tt)
  SendsOnly-set_if_some fd name (some v) =
      SendsOnly-set_sockopt_int fd ipproto_tcp name (v % 2 ^ 32) (omega arith)

  pub SendsOnly-apply_keepalive : (fd : ℕ) (g : GlobalConfig) → SendsOnly (apply_keepalive sys fd g)
  unfolding apply_keepalive set_keepalive
  SendsOnly-apply_keepalive fd g = Sends-if _ (not g.tcp_keepalive) _ _ (SendsOnly-lift (ok tt)) (
      Sends-then _ _ _ (SendsOnly-set_sockopt_int fd sol_socket so_keepalive 1 (omega arith)) (
        Sends-then _ _ _ (SendsOnly-set_if_some fd tcp_keepidle g.keepalive_time_secs) (
          Sends-then _ _ _ (SendsOnly-set_if_some fd tcp_keepintvl g.keepalive_intvl_secs)
            (SendsOnly-set_if_some fd tcp_keepcnt g.keepalive_probes))))
