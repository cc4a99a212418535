-- ===== src/Tcpao/Silent.antt =====
-- The operations of src/tcpao/linux.rs by the rules for actions that open no connection.
use rust_tcpao_proxy.Base.{ℕ, Bool, true, false, not, List, Text, String, Result, ok, err}
use rust_tcpao_proxy.Error.{IoError, custom, invalid_input, display, kind, is_not_found}
use rust_tcpao_proxy.Net.{SocketAddr}
use rust_tcpao_proxy.Config.{AoPolicyConfig, load_key_bytes}
use rust_tcpao_proxy.Os.{
  Os, SockOpt, ao_add_key, AoInfo, getenv, sys_setsockopt, sys_getsockopt, lift,
}
use rust_tcpao_proxy.Os.Quiet.{
  Quiet, Quiet-lift, Quiet-bind, Quiet-then, Quiet-map, Quiet-attempt, Quiet-if, Quiet-getenv,
  Quiet-setsockopt, Quiet-getsockopt,
}
use rust_tcpao_proxy.Config.Source.{Quiet-load_key_bytes}
use rust_tcpao_proxy.Tcpao.Sockopt.{
  normalize_ao_error, is_true, allow, allow_test_bypass, allow_best_effort_inbound_ao,
  test_bypass_env, test_best_effort_inbound_env, setsockopt_tcp, set_ao_required, get_ao_info,
}
use rust_tcpao_proxy.Tcpao.Key.{policy_key_bytes, key_request, install_key}
use rust_tcpao_proxy.Tcpao.Policies.{arm_outbound, apply_outbound_policy}
use rust_tcpao_proxy.Tcpao.Session.{
  ensure_ao_required, check_session, inspect_session, ensure_inbound_session_has_ao,
}

module _ (sys : Os) where
  Quiet-allow : {E : Type 0} (name : Text) → Quiet (allow sys {E = E} name)
  unfolding allow
  Quiet-allow name =
      Quiet-if (not sys.debug_assertions) _ _ (Quiet-lift (ok false))
        (Quiet-bind (getenv sys name) _ (Quiet-getenv sys name) (λ v. Quiet-lift (ok (is_true v))))

  pub Quiet-allow_test_bypass : {E : Type 0} → Quiet (allow_test_bypass sys {E = E})
  unfolding allow_test_bypass
  Quiet-allow_test_bypass = Quiet-allow test_bypass_env

  Quiet-setsockopt_tcp :
      (fd : ℕ) (opt : SockOpt) (context : String) → Quiet (setsockopt_tcp sys fd opt context)
  unfolding setsockopt_tcp
  Quiet-setsockopt_tcp fd opt context =
      Quiet-map (normalize_ao_error context) (sys_setsockopt sys fd opt)
        (Quiet-setsockopt sys fd opt)

  pub Quiet-set_ao_required : (fd : ℕ) (b : Bool) → Quiet (set_ao_required sys fd b)
  unfolding set_ao_required
  Quiet-set_ao_required fd b = Quiet-setsockopt_tcp fd _ "TCP_AO_INFO"

  pub Quiet-get_ao_info : (fd : ℕ) → Quiet (get_ao_info sys fd)
  unfolding get_ao_info
  Quiet-get_ao_info fd =
      Quiet-map (normalize_ao_error "TCP_AO_INFO getsockopt") (sys_getsockopt sys fd)
        (Quiet-getsockopt sys fd)

  pub Quiet-policy_key_bytes : (p : AoPolicyConfig) → Quiet (policy_key_bytes sys p)
  unfolding policy_key_bytes
  Quiet-policy_key_bytes p =
      Quiet-map (λ e. custom invalid_input (display e)) (load_key_bytes sys p.key_source)
        (Quiet-load_key_bytes sys p.key_source)

  pub Quiet-install_key :
      (fd : ℕ) (p : AoPolicyConfig) (peer : SocketAddr) (key : List ℕ) (current : Bool)
      → Quiet (install_key sys fd p peer key current)
  unfolding install_key
  Quiet-install_key fd p peer key current =
      Quiet-bind (lift (key_request sys.endian p peer key current)) _
        (Quiet-lift (key_request sys.endian p peer key current))
        (λ add. Quiet-setsockopt_tcp fd (ao_add_key add) "TCP_AO_ADD_KEY")

  pub Quiet-arm_outbound :
      (fd : ℕ) (p : AoPolicyConfig) (remote : SocketAddr) → Quiet (arm_outbound sys fd p remote)
  unfolding arm_outbound
  Quiet-arm_outbound fd p remote =
      Quiet-bind (policy_key_bytes sys p) _ (Quiet-policy_key_bytes p) λ key.
        Quiet-then (install_key sys fd p remote key true) _ (Quiet-install_key fd p remote key true)
          (Quiet-set_ao_required fd true)

  pub Quiet-apply_outbound_policy :
      (fd : ℕ) (p : AoPolicyConfig) (remote : SocketAddr)
      → Quiet (apply_outbound_policy sys fd p remote)
  unfolding apply_outbound_policy
  Quiet-apply_outbound_policy fd p remote =
      Quiet-bind (allow_test_bypass sys) _ Quiet-allow_test_bypass
        λ bypass. Quiet-if bypass _ _ (Quiet-lift (ok tt)) (Quiet-arm_outbound fd p remote)

  Quiet-check_session :
      (peer : SocketAddr) (r : Result IoError AoInfo) → Quiet (check_session sys peer r)
  unfolding check_session
  Quiet-check_session peer (ok info) = Quiet-lift (ensure_ao_required info)
  Quiet-check_session peer (err e) =
      Quiet-if (is_not_found (kind e)) _ _
        (Quiet-bind (allow_best_effort_inbound_ao sys) _ (Quiet-allow test_best_effort_inbound_env)
          (λ b. Quiet-if b _ _ (Quiet-lift (ok tt)) (Quiet-lift (err _))))
        (Quiet-lift (err e))

  pub Quiet-ensure_inbound_session_has_ao :
      (fd : ℕ) (peer : SocketAddr) → Quiet (ensure_inbound_session_has_ao sys fd peer)
  unfolding ensure_inbound_session_has_ao inspect_session
  Quiet-ensure_inbound_session_has_ao fd peer =
      Quiet-bind (allow_test_bypass sys) _ Quiet-allow_test_bypass λ bypass.
        Quiet-if bypass _ _ (Quiet-lift (ok tt)) (
          Quiet-bind _ _ (Quiet-attempt (get_ao_info sys fd) (Quiet-get_ao_info fd))
            (Quiet-check_session peer))
