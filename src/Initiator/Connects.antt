-- ===== src/Initiator/Connects.antt =====
-- `handle_connection` of src/mode_initiator.rs on a willing system.
use mathlib.Core.Path.{subst}
use rust_tcpao_proxy.Base.{ℕ, ◌≡◌, refl, ap, sym, false, some, List, ok, ok_or}
use rust_tcpao_proxy.Error.{
  IoError, ProxyError, tcp_ao, no_policy_for_peer, str, addr, show_io, end,
}
use rust_tcpao_proxy.Net.{SocketAddr}
use rust_tcpao_proxy.Config.{AoPolicyConfig, GlobalConfig, initiator}
use rust_tcpao_proxy.Policy.{select_policy}
use rust_tcpao_proxy.Os.{
  Os, Event, connect, Trace, ◌>>◌, pure, lift, mapping, from_io, new_socket, sys_connect,
}
use rust_tcpao_proxy.Os.Gives.{Gives, Gives-bind, Gives-then, Runs-map, IsWilling}
use rust_tcpao_proxy.Os.Quiet.{Quiet-Any}
use rust_tcpao_proxy.Keepalive.{apply_keepalive}
use rust_tcpao_proxy.Keepalive.Runs.{apply_keepalive-Runs}
use rust_tcpao_proxy.Keepalive.Values.{Quiet-apply_keepalive}
use rust_tcpao_proxy.Tcpao.Policies.{apply_outbound_policy}
use rust_tcpao_proxy.Tcpao.Applies.{IsKeyed, apply_outbound_policy-Runs}
use rust_tcpao_proxy.Forward.{Arrival}
use rust_tcpao_proxy.Connection.{Streams, relay}
use rust_tcpao_proxy.Connection.Setup.{
  Joins, IsConnected, new_socket-Gives, sys_connect-IsConnected, policy_chosen,
}
use rust_tcpao_proxy.Initiator.{socket_family, wire_socket, open_wire, handle_connection}

module _ (sys : Os) (release : sys.debug_assertions ≡ false) (w : IsWilling sys) where
  wire_socket-Gives :
      (p : AoPolicyConfig) (remote : SocketAddr) (g : GlobalConfig) (t : Trace)
      → IsKeyed sys p remote
      → Gives (wire_socket sys p remote g) t (λ _ _. Unit)
  unfolding wire_socket
  wire_socket-Gives p remote g t k =
      let failed =
        λ (e : IoError). tcp_ao (str "failed to apply outbound AO policy: " (show_io e end)) in
      Gives-bind (from_io (new_socket sys (socket_family remote.ip))) _ t
        (new_socket-Gives sys w (socket_family remote.ip) t)
        λ fd t₁ _. Gives-then (apply_keepalive sys fd g) _ t₁ (apply_keepalive-Runs sys w fd g) (
          Gives-then (mapping failed (apply_outbound_policy sys fd p remote)) (pure fd) _
            (Runs-map failed (apply_outbound_policy sys fd p remote)
              (apply_outbound_policy-Runs sys w fd p remote release k))
            (record { value = fd; gives = refl; holds = tt }))

  -- What follows the connection, and keeps it.
  tuned-Joins :
      (p q : AoPolicyConfig) (plain wire : ℕ) (remote : SocketAddr) (g : GlobalConfig) (t : Trace)
      → q ≡ p
      → IsConnected remote wire t
      → Gives
          (apply_keepalive sys wire g
            >> (apply_keepalive sys plain g
                >> pure {E = ProxyError}
                    (record { policy = q; source = plain; destination = wire })))
          t
          (Joins p plain remote)
  tuned-Joins p q plain wire remote g t same opened =
      let is_open = λ (e : Event). e ≡ connect wire remote (ok tt) in
      let t₁ = (apply_keepalive sys wire g t).1 in
      let o₁ =
        Quiet-Any {m = apply_keepalive sys wire g} is_open t (Quiet-apply_keepalive sys wire g)
          opened in
      let o₂ =
        Quiet-Any {m = apply_keepalive sys plain g} is_open t₁ (Quiet-apply_keepalive sys plain g)
          o₁ in
      Gives-then (apply_keepalive sys wire g) _ t (apply_keepalive-Runs sys w wire g) (
        Gives-then (apply_keepalive sys plain g) _ t₁ (apply_keepalive-Runs sys w plain g) (record {
          value = record { policy = q; source = plain; destination = wire };
          gives = refl;
          holds = record { under = same; accepted = refl; opened = o₂ };
        }))

  open_wire-Joins :
      (p : AoPolicyConfig) (plain : ℕ) (remote : SocketAddr) (ps : List AoPolicyConfig)
      (g : GlobalConfig) (t : Trace)
      → select_policy ps remote.ip (some remote.port) ≡ some p
      → IsKeyed sys p remote
      → Gives (open_wire sys plain remote ps g) t (Joins p plain remote)
  unfolding open_wire
  open_wire-Joins p plain remote ps g t chosen k =
      Gives-bind
        (lift (
          ok_or (no_policy_for_peer (addr remote end))
            (select_policy ps remote.ip (some remote.port))))
        _ t (policy_chosen p remote _ t chosen)
        λ q t₁ same.
          Gives-bind (wire_socket sys q remote g) _ t₁
            (wire_socket-Gives q remote g t₁ (subst (λ x. IsKeyed sys x remote) (sym same) k))
            λ fd t₂ _.
              Gives-bind (from_io (sys_connect sys fd remote)) _ t₂
                (sys_connect-IsConnected sys w fd remote t₂)
                λ wire t₃ opened. tuned-Joins p q plain wire remote g t₃ same opened

-- In a release build, where a policy is selected for the remote address, its key loads and makes a
-- request, and sockets can be made, take every option and connect, a connection's task comes to
-- relay, under that policy, between the accepted stream and one that is connected to the remote
-- address.
pub handle_connection-connects :
    (sys : Os) (p : AoPolicyConfig) (conn_id plain : ℕ) (plain_peer remote : SocketAddr)
    (policies : List AoPolicyConfig) (g : GlobalConfig) (started : ℕ) (arrivals : List Arrival)
    (t : Trace)
    → sys.debug_assertions ≡ false
    → IsWilling sys
    → select_policy policies remote.ip (some remote.port) ≡ some p
    → IsKeyed sys p remote
    → (s : Streams) × ((handle_connection sys conn_id plain plain_peer remote policies g started
          arrivals t).0
        ≡ relay initiator conn_id plain_peer g started arrivals (ok s))
      × Joins p plain remote s
          (handle_connection sys conn_id plain plain_peer remote policies g started arrivals t).1
unfolding handle_connection
handle_connection-connects sys p conn_id plain plain_peer remote policies g started arrivals t
      release w chosen k =
    let opened = open_wire-Joins sys release w p plain remote policies g t chosen k in
    (
      opened.value,
      ap (relay initiator conn_id plain_peer g started arrivals) opened.gives,
      opened.holds,
    )
