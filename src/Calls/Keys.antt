-- ===== src/Calls/Keys.antt =====
-- The keys that src/tcpao/linux.rs installs.
use rust_tcpao_proxy.Base.{
  ℕ, ◌+◌, refl, Bool, true, List, [], ◌∷◌, ◌==◌, All, All-map, ok, err, arith,
}
use rust_tcpao_proxy.Error.{custom, invalid_input, display}
use rust_tcpao_proxy.Net.{IpAddr, v4, v6, SocketAddr, new_addr, IsIp}
use rust_tcpao_proxy.Config.{AoPolicyConfig, KeySource, KeySourceKind, file, env, load_key_bytes}
use rust_tcpao_proxy.Config.Source.{load_key_bytes_iff, load_key_bytes-reads, IsRead, Stored}
use rust_tcpao_proxy.Os.{Os, Event, Trace, ao_add_key, lift}
use rust_tcpao_proxy.Tcpao.Bytes.{AreBytes, as_bytes-AreBytes}
use rust_tcpao_proxy.Tcpao.Bounds.{IsStruct, key_request-IsStruct}
use rust_tcpao_proxy.Tcpao.Storage.Decode.{IsAddr}
use rust_tcpao_proxy.Tcpao.Sockopt.{allow_test_bypass}
use rust_tcpao_proxy.Tcpao.Key.{policy_key_bytes, key_request, install_key}
use rust_tcpao_proxy.Tcpao.Policies.{
  policy_matches_family, family_of, peer_of, arm_outbound, apply_outbound_policy, install_policy,
  install_all, require_keys, arm_listener, configure_listener,
}
use rust_tcpao_proxy.Calls.{
  Fits, IsTypedOs, IsTypedPolicy, Sends, SendsOnly, Sends-lift, Sends-bind, Sends-then, Sends-map,
  Sends-if,
}
use rust_tcpao_proxy.Calls.Options.{
  SendsOnly-lift, SendsOnly-allow_test_bypass, SendsOnly-setsockopt_tcp, SendsOnly-set_ao_required,
}

pub new_addr-IsAddr : (ip : IpAddr) (port : ℕ) → IsIp ip → IsAddr (new_addr ip port)
unfolding IsAddr
new_addr-IsAddr (v4 os) port h = (h, (refl, refl))
new_addr-IsAddr (v6 os) port h = (h, (omega arith, omega arith))

IsRead-Fits : (e : Event) → IsRead e → Fits e
IsRead-Fits (Event.read_file path) h = tt
IsRead-Fits (Event.env_var name) h = tt
IsRead-Fits _ h = absurd h

-- With what the types of the system's answers say.
module _ (sys : Os) (typed : IsTypedOs sys) where
  Stored-AreBytes :
      (t : Trace) (r : KeySourceKind) (key : List ℕ) → Stored sys t r key → AreBytes key
  Stored-AreBytes t (file path) key h = typed.files t path key h
  Stored-AreBytes t (env name) key (s, e, same) =
      rw same (as_bytes-AreBytes s (typed.texts t name s e))

  Sends-load_key_bytes : (k : KeySource) → Sends AreBytes (load_key_bytes sys k)
  Sends-load_key_bytes k = record {
    adds = λ t.
        let (s, only, e) = load_key_bytes-reads sys k t in (s, e, All-map _ _ IsRead-Fits s only);
    gives = λ t key h.
        let (r, _, stored, _) = (load_key_bytes_iff sys t k key).0 h in
        Stored-AreBytes t r key stored;
  }

  Sends-policy_key_bytes : (p : AoPolicyConfig) → Sends AreBytes (policy_key_bytes sys p)
  unfolding policy_key_bytes
  Sends-policy_key_bytes p =
      Sends-map _ (λ e. custom invalid_input (display e)) (load_key_bytes sys p.key_source)
        (Sends-load_key_bytes p.key_source)

  SendsOnly-install_key :
      (fd : ℕ) (p : AoPolicyConfig) (peer : SocketAddr) (key : List ℕ) (current : Bool)
      → IsTypedPolicy p
      → IsAddr peer
      → AreBytes key
      → SendsOnly (install_key sys fd p peer key current)
  unfolding install_key
  SendsOnly-install_key fd p peer key current tp addr bytes =
      Sends-bind IsStruct _ (lift (key_request sys.endian p peer key current)) _
        (Sends-lift IsStruct (key_request sys.endian p peer key current) λ add e.
          key_request-IsStruct sys.endian p peer key current add addr tp.keyid tp.mac_alg bytes e)
        (λ add fits. SendsOnly-setsockopt_tcp sys fd (ao_add_key add) "TCP_AO_ADD_KEY" fits)

  pub SendsOnly-apply_outbound_policy :
      (fd : ℕ) (p : AoPolicyConfig) (remote : SocketAddr)
      → IsTypedPolicy p
      → IsAddr remote
      → SendsOnly (apply_outbound_policy sys fd p remote)
  unfolding apply_outbound_policy arm_outbound
  SendsOnly-apply_outbound_policy fd p remote tp addr =
      Sends-bind (λ _. Unit) _ (allow_test_bypass sys) _ (SendsOnly-allow_test_bypass sys)
        λ bypass _. Sends-if _ bypass _ _ (SendsOnly-lift sys (ok tt)) (
          Sends-bind AreBytes _ (policy_key_bytes sys p) _ (Sends-policy_key_bytes p) λ key bytes.
            Sends-then _ _ _ (SendsOnly-install_key fd p remote key true tp addr bytes)
              (SendsOnly-set_ao_required sys fd true))

  SendsOnly-install_policy :
      (fd : ℕ) (p : AoPolicyConfig) (installed : ℕ)
      → IsTypedPolicy p
      → SendsOnly (install_policy sys fd p installed)
  unfolding install_policy
  SendsOnly-install_policy fd p installed tp =
      Sends-bind AreBytes _ (policy_key_bytes sys p) _ (Sends-policy_key_bytes p) λ key bytes.
        SendsOnly-install_key fd p (peer_of p) key (installed == 0) tp
          (new_addr-IsAddr p.peer_ip _ tp.peer_ip) bytes

  SendsOnly-install_all :
      (fd family : ℕ) (ps : List AoPolicyConfig) (installed : ℕ)
      → All IsTypedPolicy ps
      → SendsOnly (install_all sys fd family ps installed)
  unfolding install_all
  SendsOnly-install_all fd family [] installed h = SendsOnly-lift sys (ok installed)
  SendsOnly-install_all fd family (p ∷ ps) installed (tp, h) =
      Sends-if _ (policy_matches_family p.peer_ip family) _ _
        (Sends-then _ _ _ (SendsOnly-install_policy fd p installed tp)
          (SendsOnly-install_all fd family ps (installed + 1) h))
        (SendsOnly-install_all fd family ps installed h)

  pub SendsOnly-configure_listener :
      (fd : ℕ) (a : SocketAddr) (ps : List AoPolicyConfig)
      → All IsTypedPolicy ps
      → SendsOnly (configure_listener sys fd a ps)
  unfolding configure_listener arm_listener require_keys
  SendsOnly-configure_listener fd a ps h =
      Sends-bind (λ _. Unit) _ (allow_test_bypass sys) _ (SendsOnly-allow_test_bypass sys)
        λ bypass _. Sends-if _ bypass _ _ (SendsOnly-lift sys (ok tt)) (
          Sends-bind (λ _. Unit) _ (install_all sys fd (family_of a.ip) ps 0) _
            (SendsOnly-install_all fd (family_of a.ip) ps 0 h)
            λ n _.
              Sends-if _ (n == 0) _ _ (SendsOnly-lift sys (err _))
                (SendsOnly-set_ao_required sys fd true))
