-- ===== src/Pairing/Tests.antt =====
-- Both ends on the sample system, the terminator with a policy for the initiator's address.
use mathlib.Core.Path.{refl}
use rust_tcpao_proxy.Base.{◌≡◌, [], ◌∷◌, some, none, ok, codes, list_eq}
use rust_tcpao_proxy.Net.{ip_eq, port_eq}
use rust_tcpao_proxy.Config.{AoPolicyConfig, load_key_bytes}
use rust_tcpao_proxy.Policy.{select_policy}
use rust_tcpao_proxy.Os.{TcpAoAdd}
use rust_tcpao_proxy.Tcpao.Mac.{normalize_mac_alg}
use rust_tcpao_proxy.Tcpao.Agree.{Agree}
use rust_tcpao_proxy.Connection.{Streams}
use rust_tcpao_proxy.Initiator.{open_wire}
use rust_tcpao_proxy.Terminator.{build_ao_listener}
use rust_tcpao_proxy.Pairing.{HasKey, IsInstalled, both_ends-Agree}
use rust_tcpao_proxy.Samples.{exact, other, other_ip, system, local, remote, policies, global}

abbrev back : AoPolicyConfig
back = record other { peer_port = none; keyid = 1; mac_alg = codes "hmac-sha1" }

abbrev streams : Streams
streams = record { policy = exact; source = 5; destination = 7 }

connects : (open_wire system 5 remote policies global []).0 ≡ ok streams
unfolding open_wire list_eq ip_eq port_eq
connects = refl

listens : (build_ao_listener system local (back ∷ []) []).0 ≡ ok 7
unfolding build_ao_listener
listens = refl

chosen : select_policy (back ∷ []) other_ip none ≡ some back
unfolding select_policy ip_eq list_eq port_eq
chosen = refl

exact-HasKey : HasKey system exact (codes "secret")
unfolding load_key_bytes
exact-HasKey t = refl

back-HasKey : HasKey system back (codes "secret")
unfolding load_key_bytes
back-HasKey t = refl

same_alg : normalize_mac_alg exact.mac_alg ≡ normalize_mac_alg back.mac_alg
unfolding normalize_mac_alg
same_alg = refl

both_ends-Agree_example :
    (x : TcpAoAdd) × (y : TcpAoAdd) × IsInstalled 7 x
      (open_wire system 5 remote policies global []).1
    × IsInstalled 7 y (build_ao_listener system local (back ∷ []) []).1
    × Agree x y
both_ends-Agree_example =
    both_ends-Agree system system 5 7 remote local policies (back ∷ []) global streams other_ip back
      (codes "secret") refl refl connects listens refl chosen refl same_alg exact-HasKey back-HasKey
