-- ===== src/Initiator.antt =====
-- src/mode_initiator.rs: plain connections in, TCP-AO connections out.
pub mod FailClosed
pub mod Connects
pub mod Tasks
mod Tests
use rust_tcpao_proxy.Base.{ℕ, none, some, List, [], Result, ok_or}
use rust_tcpao_proxy.Error.{
  IoError, ProxyError, missing_mode_config, no_policy_for_peer, tcp_ao, str, addr, show_io, end,
}
use rust_tcpao_proxy.Net.{IpAddr, v4, v6, SocketAddr}
use rust_tcpao_proxy.Config.{
  Mode, Config, initiator, AoPolicyConfig, GlobalConfig, listen_plain_addr, remote_ao_addr,
}
use rust_tcpao_proxy.Policy.{select_policy}
use rust_tcpao_proxy.Tcpao.Policies.{apply_outbound_policy}
use rust_tcpao_proxy.Keepalive.{apply_keepalive}
use rust_tcpao_proxy.Os.{
  Os, Family, inet, inet6, Action, Trace, ◌>>=◌, ◌>>◌, pure, lift, mapping, from_io, new_socket,
  sys_connect, sys_tcp_bind,
}
use rust_tcpao_proxy.Forward.{Arrival}
use rust_tcpao_proxy.Connection.{
  Streams, Outcome, relay, Task, Visit, Handled, Serving, accept_loop, spawned,
}

-- `TcpSocket::new_v4` or `new_v6`, by the address to connect to.
abbrev pub socket_family : IpAddr → Family
socket_family (v4 os) = inet
socket_family (v6 os) = inet6

module _ (sys : Os) where
  -- A socket for the wire with keepalive and the policy on it.
  unfoldable pub wire_socket : AoPolicyConfig → SocketAddr → GlobalConfig → Action ProxyError ℕ
  unfolding apply_keepalive apply_outbound_policy
  wire_socket policy remote global = do
    fd ← from_io (new_socket sys (socket_family remote.ip))
    apply_keepalive sys fd global
    mapping (λ e. tcp_ao (str "failed to apply outbound AO policy: " (show_io e end)))
        (apply_outbound_policy sys fd policy remote)
    pure fd

  -- `handle_connection`, up to `pump`.
  unfoldable pub open_wire :
      ℕ → SocketAddr → List AoPolicyConfig → GlobalConfig → Action ProxyError Streams
  unfolding select_policy wire_socket apply_keepalive
  open_wire plain remote policies global = do
    policy ← lift (
        ok_or (no_policy_for_peer (addr remote end))
          (select_policy policies remote.ip (some remote.port)))
    socket ← wire_socket policy remote global
    wire ← from_io (sys_connect sys socket remote)
    apply_keepalive sys wire global
    apply_keepalive sys plain global
    pure (record { policy = policy; source = plain; destination = wire })

  unfoldable pub handle_connection :
      ℕ
      → ℕ
      → SocketAddr
      → SocketAddr
      → List AoPolicyConfig
      → GlobalConfig
      → ℕ
      → List Arrival
      → Trace
      → Outcome × Trace
  unfolding open_wire relay
  handle_connection conn_id plain plain_peer remote policies global started arrivals t =
      let (r, t') = open_wire plain remote policies global t in
      (relay initiator conn_id plain_peer global started arrivals r, t')

-- The task that the loop spawns.
unfoldable pub serve : SocketAddr → List AoPolicyConfig → GlobalConfig → Task → Visit → Handled
unfolding handle_connection spawned
serve remote policies global = spawned Mode.initiator λ k v.
    handle_connection v.oracle k.conn_id k.stream k.peer remote policies global v.started v.arrivals
      []

module _ (sys : Os) where
  -- `run`, up to its loop: gives the listening socket and the address of the wire.
  unfoldable pub start : Config → Action ProxyError (ℕ × SocketAddr)
  unfolding listen_plain_addr remote_ao_addr
  start cfg = do
    section ← lift (ok_or (missing_mode_config "initiator") cfg.initiator)
    listen_addr ← lift (listen_plain_addr section)
    remote ← lift (remote_ao_addr section)
    fd ← from_io (sys_tcp_bind sys listen_addr)
    pure (fd, remote)

  -- `run`: what it has made when it waits, or when a failure of `accept` has ended its loop.
  unfoldable pub run : Config → List (Result IoError Visit) → Action ProxyError Serving
  unfolding start serve accept_loop
  run cfg incoming = do
    (fd, remote) ← start cfg
    pure (record {
      listener = fd;
      target = remote;
      loop = accept_loop (serve remote cfg.ao_policy cfg.global) 1 incoming;
    })
