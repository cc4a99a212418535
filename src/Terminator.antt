-- ===== src/Terminator.antt =====
-- src/mode_terminator.rs: TCP-AO connections in, plain connections out.
pub mod Verified
pub mod Connects
pub mod Stages
pub mod Tasks
pub mod Covers
pub mod Refuses
pub mod Listener
mod Tests
use rust_tcpao_proxy.Base.{ℕ, none, some, List, [], Result, ok_or}
use rust_tcpao_proxy.Error.{
  IoError, ProxyError, missing_mode_config, no_policy_for_peer, tcp_ao, str, addr, show_io, end,
}
use rust_tcpao_proxy.Net.{IpAddr, v4, v6, SocketAddr}
use rust_tcpao_proxy.Config.{
  Mode, Config, terminator, AoPolicyConfig, GlobalConfig, listen_ao_addr, forward_plain_addr,
}
use rust_tcpao_proxy.Policy.{select_policy}
use rust_tcpao_proxy.Tcpao.Policies.{configure_listener}
use rust_tcpao_proxy.Tcpao.Session.{ensure_inbound_session_has_ao}
use rust_tcpao_proxy.Keepalive
use rust_tcpao_proxy.Os.{
  Os, Family, inet, inet6, Action, Trace, ◌>>=◌, ◌>>◌, pure, lift, mapping, from_io, new_socket,
  sys_connect, sys_setsockopt, reuse_address, sys_bind, sys_listen, sys_set_nonblocking,
  sys_register,
}
use rust_tcpao_proxy.Forward.{Arrival}
use rust_tcpao_proxy.Connection.{
  Streams, Outcome, relay, Task, Visit, Handled, Serving, accept_loop, spawned,
}

-- `Domain` or `TcpSocket::new_v4`/`new_v6`, by an address.
abbrev pub socket_family : IpAddr → Family
socket_family (v4 os) = inet
socket_family (v6 os) = inet6

module _ (sys : Os) where
  -- This file's `apply_keepalive` has the text of the initiator's.
  unfoldable pub apply_keepalive : ℕ → GlobalConfig → Action ProxyError (Unit {0})
  unfolding Keepalive.apply_keepalive
  apply_keepalive fd global = Keepalive.apply_keepalive sys fd global

  -- A stream to the local application.
  unfoldable pub plain_stream : SocketAddr → GlobalConfig → Action ProxyError ℕ
  unfolding apply_keepalive
  plain_stream forward_plain global = do
    socket ← from_io (new_socket sys (socket_family forward_plain.ip))
    apply_keepalive socket global
    plain ← from_io (sys_connect sys socket forward_plain)
    apply_keepalive plain global
    pure plain

  -- `handle_connection`, up to `pump`.
  unfoldable pub open_plain :
      ℕ → SocketAddr → SocketAddr → List AoPolicyConfig → GlobalConfig → Action ProxyError Streams
  unfolding select_policy ensure_inbound_session_has_ao plain_stream apply_keepalive
  open_plain wire wire_peer forward_plain policies global = do
    policy ←
        lift (
          ok_or (no_policy_for_peer (addr wire_peer end))
            (select_policy policies wire_peer.ip none))
    mapping (λ e. tcp_ao (str "inbound AO verification failed: " (show_io e end)))
        (ensure_inbound_session_has_ao sys wire wire_peer)
    plain ← plain_stream forward_plain global
    apply_keepalive wire global
    pure (record { policy = policy; source = wire; destination = plain })

  unfoldable pub handle_connection :
      ℕ
      → ℕ
      → SocketAddr
      → SocketAddr
      → List AoPolicyConfig
      → GlobalConfig
      → ℕ
      → List Arrival
      → Trace
      → Outcome × Trace
  unfolding open_plain relay
  handle_connection conn_id wire wire_peer forward_plain policies global started arrivals t =
      let (r, t') = open_plain wire wire_peer forward_plain policies global t in
      (relay terminator conn_id wire_peer global started arrivals r, t')

  unfoldable pub build_ao_listener : SocketAddr → List AoPolicyConfig → Action ProxyError ℕ
  unfolding configure_listener
  build_ao_listener listen_addr policies = do
    fd ← from_io (new_socket sys (socket_family listen_addr.ip))
    from_io (sys_setsockopt sys fd reuse_address)
    from_io (sys_bind sys fd listen_addr)
    mapping (λ e. tcp_ao (str "failed to configure listener AO policies: " (show_io e end)))
        (configure_listener sys fd listen_addr policies)
    from_io (sys_listen sys fd 1024)
    from_io (sys_set_nonblocking sys fd)
    from_io (sys_register sys fd)
    pure fd

-- The task that the loop spawns.
unfoldable pub serve : SocketAddr → List AoPolicyConfig → GlobalConfig → Task → Visit → Handled
unfolding handle_connection spawned
serve forward_plain policies global = spawned Mode.terminator λ k v.
    handle_connection v.oracle k.conn_id k.stream k.peer forward_plain policies global v.started
      v.arrivals []

module _ (sys : Os) where
  -- `run`, up to its loop: gives the listening socket and the address to forward to.
  unfoldable pub start : Config → Action ProxyError (ℕ × SocketAddr)
  unfolding listen_ao_addr forward_plain_addr build_ao_listener
  start cfg = do
    section ← lift (ok_or (missing_mode_config "terminator") cfg.terminator)
    listen_addr ← lift (listen_ao_addr section)
    forward_plain ← lift (forward_plain_addr section)
    fd ← build_ao_listener sys listen_addr cfg.ao_policy
    pure (fd, forward_plain)

  -- `run`: what it has made when it waits, or when a failure of `accept` has ended its loop.
  unfoldable pub run : Config → List (Result IoError Visit) → Action ProxyError Serving
  unfolding start serve accept_loop
  run cfg incoming = do
    (fd, forward_plain) ← start cfg
    pure (record {
      listener = fd;
      target = forward_plain;
      loop = accept_loop (serve forward_plain cfg.ao_policy cfg.global) 1 incoming;
    })
