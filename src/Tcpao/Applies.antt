-- ===== src/Tcpao/Applies.antt =====
-- `apply_outbound_policy` and `ensure_inbound_session_has_ao` of src/tcpao/linux.rs on a willing
-- system.
use rust_tcpao_proxy.Base.{
  ℕ, ◌≡◌, ◌≢◌, refl, ap, ◌∙◌, Bool, true, false, List, ok, map_err, ◌==◌, ==_iff, Bool-cases, inl,
  inr, String,
}
use rust_tcpao_proxy.Error.{custom, invalid_input, display, ProxyError}
use rust_tcpao_proxy.Net.{SocketAddr}
use rust_tcpao_proxy.Config.{AoPolicyConfig, load_key_bytes}
use rust_tcpao_proxy.Os.{Os, Trace, TcpAoAdd, AoInfo, SockOpt, ao_add_key, lift, sys_setsockopt}
use rust_tcpao_proxy.Os.Gives.{Runs, Runs-then, Runs-map, IsWilling, sys_setsockopt-Runs, resume-ok}
use rust_tcpao_proxy.Tcpao.Sockopt.{
  setsockopt_tcp, set_ao_required, normalize_ao_error, get_ao_info,
}
use rust_tcpao_proxy.Tcpao.Key.{key_request, policy_key_bytes, install_key}
use rust_tcpao_proxy.Tcpao.Policies.{arm_outbound, apply_outbound_policy}
use rust_tcpao_proxy.Tcpao.Session.{
  ensure_ao_required, check_session, inspect_session, ensure_inbound_session_has_ao,
}
use rust_tcpao_proxy.Tcpao.Armed.{apply-eq-arm, allow_test_bypass-off}

-- The key of a policy loads at any time, and a request for the peer can be made of it.
pub record IsKeyed (sys : Os) (p : AoPolicyConfig) (peer : SocketAddr) : Type 0 where
  pub key : List ℕ
  pub loads : (t : Trace) → (load_key_bytes sys p.key_source t).0 ≡ ok key
  pub add : TcpAoAdd
  pub requests : key_request sys.endian p peer key true ≡ ok add

module _ (sys : Os) (w : IsWilling sys) (fd : ℕ) where
  setsockopt_tcp-Runs :
      (opt : SockOpt) (context : String) → Runs (setsockopt_tcp sys fd opt context)
  unfolding setsockopt_tcp
  setsockopt_tcp-Runs opt context =
      Runs-map (normalize_ao_error context) (sys_setsockopt sys fd opt)
        (sys_setsockopt-Runs sys w fd opt)

  set_ao_required-Runs : (required : Bool) → Runs (set_ao_required sys fd required)
  unfolding set_ao_required
  set_ao_required-Runs required = setsockopt_tcp-Runs _ "TCP_AO_INFO"

  install_key-Runs :
      (p : AoPolicyConfig) (peer : SocketAddr) (k : IsKeyed sys p peer)
      → Runs (install_key sys fd p peer k.key true)
  unfolding install_key
  install_key-Runs p peer k t =
      ap (λ r. r.0) (resume-ok _ (lift (key_request sys.endian p peer k.key true) t) k.requests)
      ∙ setsockopt_tcp-Runs (ao_add_key k.add) "TCP_AO_ADD_KEY" t

  arm_outbound-Runs :
      (p : AoPolicyConfig) (peer : SocketAddr)
      → IsKeyed sys p peer
      → Runs (arm_outbound sys fd p peer)
  unfolding arm_outbound policy_key_bytes
  arm_outbound-Runs p peer k t =
      let as_io = λ (e : ProxyError). custom invalid_input (display e) in
      ap (λ r. r.0) (resume-ok _ (policy_key_bytes sys p t) (ap (map_err as_io) (k.loads t)))
      ∙ Runs-then (install_key sys fd p peer k.key true) (set_ao_required sys fd true)
          (install_key-Runs p peer k) (set_ao_required-Runs true) _

  pub apply_outbound_policy-Runs :
      (p : AoPolicyConfig) (peer : SocketAddr)
      → sys.debug_assertions ≡ false
      → IsKeyed sys p peer
      → Runs (apply_outbound_policy sys fd p peer)
  apply_outbound_policy-Runs p peer release k t =
      rw (apply-eq-arm sys fd p peer t release) (arm_outbound-Runs p peer k t)

-- The kernel says of the connection, whenever it is asked, that it requires TCP-AO.
pub record IsProtected (sys : Os) (fd : ℕ) : Type 0 where
  pub info : AoInfo
  pub answers : (t : Trace) → sys.getsockopt t fd ≡ ok info
  pub requires : info.ao_required ≢ 0

ensure_ao_required-ok : (info : AoInfo) → info.ao_required ≢ 0 → ensure_ao_required info ≡ ok tt
unfolding ensure_ao_required
ensure_ao_required-ok info h = elim (Bool-cases (info.ao_required == 0)) [
  | inl zero ↦ absurd (h ((==_iff info.ao_required 0).0 zero))
  | inr some ↦ rw some refl
]

pub ensure_inbound-Runs :
    (sys : Os) (fd : ℕ) (peer : SocketAddr)
    → sys.debug_assertions ≡ false
    → IsProtected sys fd
    → Runs (ensure_inbound_session_has_ao sys fd peer)
unfolding ensure_inbound_session_has_ao inspect_session get_ao_info check_session
ensure_inbound-Runs sys fd peer release h t =
    rw (allow_test_bypass-off sys t release, h.answers t) (ensure_ao_required-ok h.info h.requires)
