-- ===== src/Terminator/Connects.antt =====
-- `handle_connection` of src/mode_terminator.rs on a willing system.
use rust_tcpao_proxy.Base.{ℕ, ◌≡◌, refl, ap, false, none, some, List, ok, ok_or}
use rust_tcpao_proxy.Error.{IoError, tcp_ao, no_policy_for_peer, str, addr, show_io, end}
use rust_tcpao_proxy.Net.{SocketAddr}
use rust_tcpao_proxy.Config.{AoPolicyConfig, GlobalConfig, terminator}
use rust_tcpao_proxy.Policy.{select_policy}
use rust_tcpao_proxy.Os.{Os, connect, Trace, pure, lift, mapping, from_io, new_socket, sys_connect}
use rust_tcpao_proxy.Os.Gives.{Gives, Gives-bind, Gives-then, Runs, Runs-map, IsWilling}
use rust_tcpao_proxy.Os.Quiet.{Quiet-Any}
use rust_tcpao_proxy.Keepalive.Runs as KeepaliveRuns
use rust_tcpao_proxy.Keepalive.Values
use rust_tcpao_proxy.Os.Quiet.{Quiet}
use rust_tcpao_proxy.Tcpao.Session.{ensure_inbound_session_has_ao}
use rust_tcpao_proxy.Tcpao.Applies.{IsProtected, ensure_inbound-Runs}
use rust_tcpao_proxy.Forward.{Arrival}
use rust_tcpao_proxy.Connection.{Streams, relay}
use rust_tcpao_proxy.Connection.Setup.{
  Joins, IsConnected, new_socket-Gives, sys_connect-IsConnected, policy_chosen,
}
use rust_tcpao_proxy.Terminator.{
  socket_family, apply_keepalive, plain_stream, open_plain, handle_connection,
}

module _ (sys : Os) (w : IsWilling sys) where
  keepalive-Runs : (fd : ℕ) (g : GlobalConfig) → Runs (apply_keepalive sys fd g)
  unfolding apply_keepalive
  keepalive-Runs fd g = KeepaliveRuns.apply_keepalive-Runs sys w fd g

  keepalive-Quiet : (fd : ℕ) (g : GlobalConfig) → Quiet (apply_keepalive sys fd g)
  unfolding apply_keepalive
  keepalive-Quiet fd g = Values.Quiet-apply_keepalive sys fd g

  still-IsConnected :
      (a : SocketAddr) (fd other : ℕ) (g : GlobalConfig) (t : Trace)
      → IsConnected a fd t
      → IsConnected a fd (apply_keepalive sys other g t).1
  still-IsConnected a fd other g t h =
      Quiet-Any {m = apply_keepalive sys other g} (λ e. e ≡ connect fd a (ok tt)) t
        (keepalive-Quiet other g) h

  plain_stream-IsConnected :
      (a : SocketAddr) (g : GlobalConfig) (t : Trace)
      → Gives (plain_stream sys a g) t (IsConnected a)
  unfolding plain_stream
  plain_stream-IsConnected a g t =
      Gives-bind (from_io (new_socket sys (socket_family a.ip))) _ t
        (new_socket-Gives sys w (socket_family a.ip) t)
        λ fd t₁ _. Gives-then (apply_keepalive sys fd g) _ t₁ (keepalive-Runs fd g) (
          Gives-bind (from_io (sys_connect sys fd a)) _ _ (sys_connect-IsConnected sys w fd a _)
            λ plain t₂ h.
              Gives-then (apply_keepalive sys plain g) (pure plain) t₂ (keepalive-Runs plain g)
                (record {
                  value = plain;
                  gives = refl;
                  holds = still-IsConnected a plain plain g t₂ h;
                }))

  open_plain-Joins :
      (p : AoPolicyConfig) (wire : ℕ) (wire_peer forward_plain : SocketAddr)
      (ps : List AoPolicyConfig) (g : GlobalConfig) (t : Trace)
      → sys.debug_assertions ≡ false
      → select_policy ps wire_peer.ip none ≡ some p
      → IsProtected sys wire
      → Gives (open_plain sys wire wire_peer forward_plain ps g) t (Joins p wire forward_plain)
  unfolding open_plain
  open_plain-Joins p wire wire_peer forward_plain ps g t release chosen k =
      let failed =
        λ (e : IoError). tcp_ao (str "inbound AO verification failed: " (show_io e end)) in
      let check = ensure_inbound_session_has_ao sys wire wire_peer in
      Gives-bind
        (lift
          (ok_or (no_policy_for_peer (addr wire_peer end)) (select_policy ps wire_peer.ip none)))
        _ t (policy_chosen p wire_peer _ t chosen)
        λ q t₁ same.
          Gives-then (mapping failed check) _ t₁
            (Runs-map failed check (ensure_inbound-Runs sys wire wire_peer release k))
            (Gives-bind (plain_stream sys forward_plain g) _ _
              (plain_stream-IsConnected forward_plain g _)
              λ plain t₂ h.
                Gives-then (apply_keepalive sys wire g) _ t₂ (keepalive-Runs wire g) (record {
                  value = record { policy = q; source = wire; destination = plain };
                  gives = refl;
                  holds = record {
                    under = same;
                    accepted = refl;
                    opened = still-IsConnected forward_plain plain wire g t₂ h;
                  };
                }))

-- In a release build, where a policy is selected for the peer, the kernel says that the accepted
-- connection requires TCP-AO, and sockets can be made, take every option and connect, a connection's
-- task comes to relay, under that policy, between the accepted stream and one that is connected to
-- the application.
pub handle_connection-forwards :
    (sys : Os) (p : AoPolicyConfig) (conn_id wire : ℕ) (wire_peer forward_plain : SocketAddr)
    (policies : List AoPolicyConfig) (g : GlobalConfig) (started : ℕ) (arrivals : List Arrival)
    (t : Trace)
    → sys.debug_assertions ≡ false
    → IsWilling sys
    → select_policy policies wire_peer.ip none ≡ some p
    → IsProtected sys wire
    → (s : Streams) × ((handle_connection sys conn_id wire wire_peer forward_plain policies g
          started arrivals t).0
        ≡ relay terminator conn_id wire_peer g started arrivals (ok s))
      × Joins p wire forward_plain s
          (handle_connection sys conn_id wire wire_peer forward_plain policies g started arrivals
            t).1
unfolding handle_connection
handle_connection-forwards sys p conn_id wire wire_peer forward_plain policies g started arrivals t
      release w chosen k =
    let opened =
      open_plain-Joins sys w p wire wire_peer forward_plain policies g t release chosen k in
    (
      opened.value,
      ap (relay terminator conn_id wire_peer g started arrivals) opened.gives,
      opened.holds,
    )
