-- ===== src/Tcpao/Policies.antt =====
-- `apply_outbound_policy` and `configure_listener`: policies on a socket before it is used.
use rust_tcpao_proxy.Base.{
  ℕ, ◌+◌, Bool, true, Option, none, some, List, [], ◌∷◌, ◌==◌, if◌then◌else◌,
}
use rust_tcpao_proxy.Error.{IoError, custom, invalid_input, str, end, af_inet, af_inet6}
use rust_tcpao_proxy.Net.{IpAddr, v4, v6, SocketAddr, new_addr}
use rust_tcpao_proxy.Config.{AoPolicyConfig}
use rust_tcpao_proxy.Os.{Os, Action, ◌>>=◌, ◌>>◌, pure, throw}
use rust_tcpao_proxy.Tcpao.Sockopt.{allow_test_bypass, set_ao_required}
use rust_tcpao_proxy.Tcpao.Key.{policy_key_bytes, install_key}

unfoldable pub policy_matches_family : IpAddr → ℕ → Bool
policy_matches_family (v4 os) family = family == af_inet
policy_matches_family (v6 os) family = family == af_inet6

unfoldable pub family_of : IpAddr → ℕ
family_of (v4 os) = af_inet
family_of (v6 os) = af_inet6

-- `policy.peer_port.unwrap_or(0)`.
abbrev pub port_or_zero : Option ℕ → ℕ
port_or_zero none = 0
port_or_zero (some p) = p

abbrev pub peer_of : AoPolicyConfig → SocketAddr
peer_of p = new_addr p.peer_ip (port_or_zero p.peer_port)

module _ (sys : Os) where
  -- `apply_outbound_policy` without the bypass.
  unfoldable pub arm_outbound : ℕ → AoPolicyConfig → SocketAddr → Action IoError (Unit {0})
  unfolding policy_key_bytes install_key set_ao_required
  arm_outbound fd policy remote = do
    key ← policy_key_bytes sys policy
    install_key sys fd policy remote key true
    set_ao_required sys fd true

  unfoldable pub apply_outbound_policy : ℕ → AoPolicyConfig → SocketAddr → Action IoError (Unit {0})
  unfolding allow_test_bypass arm_outbound
  apply_outbound_policy fd policy remote = do
    bypass ← allow_test_bypass sys
    if bypass then pure tt else arm_outbound fd policy remote

  -- One policy of the loop in `configure_listener`; the first key installed is the current one.
  unfoldable pub install_policy : ℕ → AoPolicyConfig → ℕ → Action IoError (Unit {0})
  unfolding policy_key_bytes install_key
  install_policy fd policy installed = do
    key ← policy_key_bytes sys policy
    install_key sys fd policy (peer_of policy) key (installed == 0)

  -- The loop: gives how many keys were installed.
  unfoldable pub install_all : ℕ → ℕ → List AoPolicyConfig → ℕ → Action IoError ℕ
  unfolding policy_matches_family install_policy
  install_all fd family [] installed = pure installed
  install_all fd family (p ∷ ps) installed =
      if policy_matches_family p.peer_ip family
      then install_policy fd p installed >> install_all fd family ps (installed + 1)
      else install_all fd family ps installed

  -- What follows the loop: at least one key must have been installed.
  unfoldable pub require_keys : ℕ → ℕ → Action IoError (Unit {0})
  unfolding set_ao_required
  require_keys fd installed =
      if installed == 0
      then throw (custom invalid_input (str "no AO policies matched listener address family" end))
      else set_ao_required sys fd true

  -- `configure_listener` without the bypass.
  unfoldable pub arm_listener : ℕ → SocketAddr → List AoPolicyConfig → Action IoError (Unit {0})
  unfolding family_of install_all require_keys
  arm_listener fd listen_addr policies = do
    installed ← install_all fd (family_of listen_addr.ip) policies 0
    require_keys fd installed

  unfoldable pub configure_listener :
      ℕ → SocketAddr → List AoPolicyConfig → Action IoError (Unit {0})
  unfolding allow_test_bypass arm_listener
  configure_listener fd listen_addr policies = do
    bypass ← allow_test_bypass sys
    if bypass then pure tt else arm_listener fd listen_addr policies
