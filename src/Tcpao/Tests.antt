-- ===== src/Tcpao/Tests.antt =====
-- The routines of src/tcpao/linux.rs on the sample system.
use mathlib.Core.Path.{refl}
use rust_tcpao_proxy.Base.{
  ℕ, ◌≡◌, ◌≢◌, ◌↔◌, ◌≤◌, ◌<◌, false, true, List, [], ◌∷◌, arith, ok, err, Any, some, codes, length,
  is_empty, trim, to_ascii_lowercase, as_bytes,
}
use rust_tcpao_proxy.Error.{custom, invalid_input, str, end, tcp_ao_maxkeylen}
use rust_tcpao_proxy.Net.{SocketAddr, new_addr, v6}
use rust_tcpao_proxy.Os.{TcpAoAdd, Trace, little, big}
use rust_tcpao_proxy.Policy.{keep}
use rust_tcpao_proxy.Tcpao.Mac.{map_alg, normalize_mac_alg}
use rust_tcpao_proxy.Tcpao.Mac.Stable.{normalize_mac_alg-stable}
use rust_tcpao_proxy.Tcpao.Storage.{socket_addr_to_storage}
use rust_tcpao_proxy.Tcpao.Storage.Decode.{
  IsAddr, read_storage, read_storage-socket_addr_to_storage,
}
use rust_tcpao_proxy.Tcpao.Key.{key_request, fill_add, alg_name_size}
use rust_tcpao_proxy.Tcpao.Request.{
  Carries, key_request-Carries, key_request_iff, key_request-portless,
}
use rust_tcpao_proxy.Tcpao.Policies.{apply_outbound_policy, configure_listener}
use rust_tcpao_proxy.Tcpao.Session.{ensure_inbound_session_has_ao}
use rust_tcpao_proxy.Tcpao.Armed.{IsArmed, require_event, apply_outbound_policy-IsArmed}
use rust_tcpao_proxy.Tcpao.Installed.{
  Installs, same_family, configure_listener-Installs, configure_listener-no_family,
}
use rust_tcpao_proxy.Os.{Os, close, getsockopt, socket, inet}
use rust_tcpao_proxy.Error.{enoent}
use rust_tcpao_proxy.Tcpao.Session.{probe_tcpao_support}
use rust_tcpao_proxy.Tcpao.Probe.{KnowsAo, probe_tcpao_support-probes}
use rust_tcpao_proxy.Net.{v4, all_zero}
use rust_tcpao_proxy.Tcpao.Storage.{prefix_len_for_ip}
use rust_tcpao_proxy.Tcpao.Bytes.{AreBytes}
use rust_tcpao_proxy.Tcpao.Bounds.{IsStruct, is_text_lem, key_request-IsStruct}
use rust_tcpao_proxy.Tcpao.Agree.{Agree, key_request-Agree}
use rust_tcpao_proxy.Config.{AoPolicyConfig}
use rust_tcpao_proxy.Tcpao.Inbound.{ShowsAo, ensure_inbound-ShowsAo}
use rust_tcpao_proxy.Samples.{system, remote, exact, policies, local}

sha1 : normalize_mac_alg (codes " HMAC-SHA-1 ") ≡ ok (codes "hmac(sha1)", 12)
unfolding normalize_mac_alg
sha1 = refl

sha1-stable : normalize_mac_alg (codes "hmac(sha1)") ≡ ok (codes "hmac(sha1)", 12)
sha1-stable = normalize_mac_alg-stable (codes " HMAC-SHA-1 ") (codes "hmac(sha1)") 12 sha1

remote-IsAddr : IsAddr remote
unfolding IsAddr
remote-IsAddr =
    ((refl, (omega arith, (omega arith, (omega arith, (omega arith, tt))))), (refl, refl))

read_storage-socket_addr_to_storage_example :
    read_storage big (socket_addr_to_storage big remote) ≡ some (record remote { port = 0 })
read_storage-socket_addr_to_storage_example =
    read_storage-socket_addr_to_storage big remote remote-IsAddr

abbrev key : List ℕ
key = codes "secret"

abbrev request : TcpAoAdd
request = fill_add little exact remote key true (codes "hmac(sha1)") 12

requests : key_request little exact remote key true ≡ ok request
unfolding key_request
requests = refl

key_request-Carries_example : Carries little exact remote key true request
key_request-Carries_example =
    key_request-Carries little exact remote key true request remote-IsAddr requests

key_request_iff_example :
    ((add : TcpAoAdd) × (key_request little exact remote key true ≡ ok add)) ↔ (
      (length key ≤ tcp_ao_maxkeylen)
      × (is_empty (trim (codes " HMAC-SHA-1 ")) ≡ false)
      × (length (
            as_bytes
              (map_alg
                (trim (codes " HMAC-SHA-1 "))
                (to_ascii_lowercase (trim (codes " HMAC-SHA-1 ")))).0)
          < alg_name_size))
key_request_iff_example = key_request_iff little exact remote key true

key_request-portless_example :
    key_request little exact (record remote { port = 179 }) key true
    ≡ key_request little exact remote key true
key_request-portless_example = key_request-portless little exact remote 179 key true

outbound_ok : (apply_outbound_policy system 7 exact remote []).0 ≡ ok tt
unfolding apply_outbound_policy
outbound_ok = refl

run-IsArmed : IsArmed system exact remote 7 (apply_outbound_policy system 7 exact remote []).1
run-IsArmed = apply_outbound_policy-IsArmed system 7 exact remote [] refl outbound_ok

listener_ok : (configure_listener system 7 local policies []).0 ≡ ok tt
unfolding configure_listener
listener_ok = refl

run-Installs :
    (keep (same_family local.ip) policies ≢ [])
    × ((t₁ : Trace) × Installs system 7 0 (keep (same_family local.ip) policies) [] t₁
        × ((configure_listener system 7 local policies []).1 ≡ require_event 7 ∷ t₁))
run-Installs = configure_listener-Installs system 7 local policies [] refl listener_ok

abbrev local6 : SocketAddr
local6 = new_addr (v6 (0 ∷ 0 ∷ 0 ∷ 0 ∷ 0 ∷ 0 ∷ 0 ∷ 0 ∷ 0 ∷ 0 ∷ 0 ∷ 0 ∷ 0 ∷ 0 ∷ 0 ∷ 1 ∷ [])) 179

no_v6 : keep (same_family local6.ip) policies ≡ []
unfolding keep
no_v6 = refl

refuses_v6 :
    configure_listener system 7 local6 policies []
    ≡ (err (custom invalid_input (str "no AO policies matched listener address family" end)), [])
refuses_v6 = configure_listener-no_family system 7 local6 policies [] refl no_v6

inbound_ok : (ensure_inbound_session_has_ao system 9 remote []).0 ≡ ok tt
unfolding ensure_inbound_session_has_ao
inbound_ok = refl

ensure_inbound-ShowsAo_run : Any (ShowsAo 9) (ensure_inbound_session_has_ao system 9 remote []).1
ensure_inbound-ShowsAo_run = ensure_inbound-ShowsAo system refl 9 remote [] inbound_ok

-- A kernel without TCP-AO state on a new socket.
abbrev stateless : Os
stateless = record system { getsockopt = λ t fd. err enoent }

probe_tcpao_support-probes_example :
    ((probe_tcpao_support stateless []).1
      ≡ close 7 ∷ getsockopt 7 (err enoent) ∷ socket inet (ok 7) ∷ [])
    × (((probe_tcpao_support stateless []).0 ≡ ok tt) ↔ KnowsAo (err enoent))
probe_tcpao_support-probes_example = probe_tcpao_support-probes stateless [] 7 refl refl

loopback_prefix : prefix_len_for_ip local.ip ≡ 32
unfolding prefix_len_for_ip
loopback_prefix = refl

wildcard_prefix : prefix_len_for_ip (v4 (0 ∷ 0 ∷ 0 ∷ 0 ∷ [])) ≡ 0
unfolding prefix_len_for_ip all_zero
wildcard_prefix = refl

sha256 : normalize_mac_alg (codes "hmac-sha256") ≡ ok (codes "hmac(sha256)", 16)
unfolding normalize_mac_alg
sha256 = refl

-- The policy of the other end, with another spelling of the algorithm.
abbrev far_end : AoPolicyConfig
far_end = record exact { name = codes "far end"; mac_alg = codes "hmac(sha1)" }

alike : normalize_mac_alg exact.mac_alg ≡ normalize_mac_alg far_end.mac_alg
unfolding normalize_mac_alg
alike = refl

far_end-Agree :
    (add : TcpAoAdd) × (key_request big far_end local key false ≡ ok add) × Agree request add
far_end-Agree =
    key_request-Agree little big exact far_end remote local key true false request refl alike
      requests

key-AreBytes : AreBytes key
key-AreBytes =
    (omega arith, (omega arith, (omega arith, (omega arith, (omega arith, (omega arith, tt))))))

key_request-IsStruct_example : IsStruct request
key_request-IsStruct_example =
    key_request-IsStruct little exact remote key true request remote-IsAddr (omega arith)
      (is_text_lem (codes " HMAC-SHA-1 ") refl) key-AreBytes requests
