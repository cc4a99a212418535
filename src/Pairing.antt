-- ===== src/Pairing.antt =====
-- Both ends of the protected connection: the socket that src/mode_initiator.rs connects, and the
-- listener of src/mode_terminator.rs, each on its own system.
mod Tests
use rust_tcpao_proxy.Base.{
  ℕ, ◌≡◌, refl, sym, ap, ◌∙◌, Bool, true, false, some, none, List, [], ◌∷◌, Any, inl, inr, ok,
  ok-eq,
}
use mathlib.Core.Path.{subst}
use rust_tcpao_proxy.Net.{IpAddr, SocketAddr}
use rust_tcpao_proxy.Config.{AoPolicyConfig, GlobalConfig, load_key_bytes}
use rust_tcpao_proxy.Policy.{select_policy}
use rust_tcpao_proxy.Os.{Os, Event, setsockopt, ao_add_key, TcpAoAdd, Trace}
use rust_tcpao_proxy.Tcpao.Mac.{normalize_mac_alg}
use rust_tcpao_proxy.Tcpao.Key.{key_request}
use rust_tcpao_proxy.Tcpao.Policies.{peer_of}
use rust_tcpao_proxy.Tcpao.Armed.{InstallsKey}
use rust_tcpao_proxy.Tcpao.Agree.{Agree, key_request-Agree}
use rust_tcpao_proxy.Connection.{Streams, Task}
use rust_tcpao_proxy.Process.Setup.{set_up-Joined}
use rust_tcpao_proxy.Initiator.{open_wire}
use rust_tcpao_proxy.Initiator.Tasks.{stages, stages-Laws, open_wire-set_up}
use rust_tcpao_proxy.Terminator.{socket_family, build_ao_listener}
use rust_tcpao_proxy.Terminator.Covers.{InstallsPolicy, build_ao_listener-covers}

-- The key source of the policy holds this key, whenever it is read.
abbrev pub HasKey : Os → AoPolicyConfig → List ℕ → Type 0
HasKey sys p key = (t : Trace) → (load_key_bytes sys p.key_source t).0 ≡ ok key

-- The request was made to the kernel for the socket, with success.
abbrev pub IsInstalled : ℕ → TcpAoAdd → Trace → Type 0
IsInstalled fd k t = Any (λ e. e ≡ setsockopt fd (ao_add_key k) (ok tt)) t

-- A request that was made for a policy with this key.
record Found (sys : Os) (p : AoPolicyConfig) (key : List ℕ) (fd : ℕ) (t : Trace) : Type 0 where
  peer : SocketAddr
  current : Bool
  request : TcpAoAdd
  makes : key_request sys.endian p peer key current ≡ ok request
  installed : IsInstalled fd request t

installs-Found :
    (sys : Os) (p : AoPolicyConfig) (key : List ℕ) (fd : ℕ) (peer : SocketAddr) (current : Bool)
    (e : Event) (t : Trace)
    → HasKey sys p key
    → InstallsKey sys p peer fd current e
    → Found sys p key fd (e ∷ t)
installs-Found sys p key fd peer current e t has (k, key', (_, (u, loads)), makes, same) =
    let key_same : key' ≡ key = ok-eq (sym loads ∙ has u) in
    record {
      peer = peer;
      current = current;
      request = k;
      makes = subst (λ x. key_request sys.endian p peer x current ≡ ok k) key_same makes;
      installed = inl same;
    }

later :
    {sys : Os} {p : AoPolicyConfig} {key : List ℕ} {fd : ℕ} {t : Trace} (e : Event)
    → Found sys p key fd t
    → Found sys p key fd (e ∷ t)
later e f = record {
  peer = f.peer;
  current = f.current;
  request = f.request;
  makes = f.makes;
  installed = inr f.installed;
}

outbound-Found :
    (sys : Os) (p : AoPolicyConfig) (key : List ℕ) (fd : ℕ) (peer : SocketAddr) (t : Trace)
    → HasKey sys p key
    → Any (InstallsKey sys p peer fd true) t
    → Found sys p key fd t
outbound-Found sys p key fd peer [] has m = absurd m
outbound-Found sys p key fd peer (e ∷ t) has (inl i) =
    installs-Found sys p key fd peer true e t has i
outbound-Found sys p key fd peer (e ∷ t) has (inr m) =
    later e (outbound-Found sys p key fd peer t has m)

listener-Found :
    (sys : Os) (p : AoPolicyConfig) (key : List ℕ) (fd : ℕ) (t : Trace)
    → HasKey sys p key
    → Any (InstallsPolicy sys fd p) t
    → Found sys p key fd t
listener-Found sys p key fd [] has m = absurd m
listener-Found sys p key fd (e ∷ t) has (inl (current, i)) =
    installs-Found sys p key fd (peer_of p) current e t has i
listener-Found sys p key fd (e ∷ t) has (inr m) = later e (listener-Found sys p key fd t has m)

-- In release builds: when the initiator has connected a socket, and the terminator has its listener, of the
-- family of the initiator's address, and the policy of the initiator and the one that the terminator selects
-- for the initiator's address have the same `keyid`, algorithms of the same meaning and the same key in
-- their sources, then the kernels of both ends have got, for that socket and for that listener, requests
-- with the same algorithm, tag length and key, in which each end sends with the identifier that the
-- other receives.
pub both_ends-Agree :
    (i t : Os) (plain fd : ℕ) (remote listen_addr : SocketAddr) (ps qs : List AoPolicyConfig)
    (g : GlobalConfig) (s : Streams) (ip : IpAddr) (q : AoPolicyConfig) (key : List ℕ)
    → i.debug_assertions ≡ false
    → t.debug_assertions ≡ false
    → (open_wire i plain remote ps g []).0 ≡ ok s
    → (build_ao_listener t listen_addr qs []).0 ≡ ok fd
    → socket_family listen_addr.ip ≡ socket_family ip
    → select_policy qs ip none ≡ some q
    → s.policy.keyid ≡ q.keyid
    → normalize_mac_alg s.policy.mac_alg ≡ normalize_mac_alg q.mac_alg
    → HasKey i s.policy key
    → HasKey t q key
    → (x : TcpAoAdd) × (y : TcpAoAdd) × IsInstalled s.destination x
        (open_wire i plain remote ps g []).1
      × IsInstalled fd y (build_ao_listener t listen_addr qs []).1
      × Agree x y
both_ends-Agree i t plain fd remote listen_addr ps qs g s ip q key ri rt connects listens family
      chosen id alike hi ht =
    let k : Task = record { conn_id = 0; stream = plain; peer = remote } in
    let same = open_wire-set_up i remote ps g k [] in
    let joined =
      set_up-Joined i (stages i remote ps g) _ (stages-Laws i remote ps g ri) k []
        (rw same at connects) in
    let (_, (armed, _)) = joined.ready in
    let a = outbound-Found i s.policy key s.destination remote _ hi armed in
    let b =
      listener-Found t q key fd _ ht
        (build_ao_listener-covers t listen_addr qs [] fd ip q rt listens family chosen) in
    let (y, makes, agree) =
      key_request-Agree i.endian t.endian s.policy q a.peer b.peer key a.current b.current a.request
        id alike a.makes in
    let made : y ≡ b.request = ok-eq (sym makes ∙ b.makes) in
    (a.request, b.request, rw same a.installed, b.installed, subst (Agree a.request) made agree)
