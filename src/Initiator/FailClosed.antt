-- ===== src/Initiator/FailClosed.antt =====
-- `handle_connection` of src/mode_initiator.rs: the state of the socket when it opens a
-- connection.
use mathlib.Core.Path.{subst}
use rust_tcpao_proxy.Base.{
  ℕ, ◌≡◌, refl, ◌∙◌, false, Option, none, some, List, [], Result, ok, err, ok_or,
}
use rust_tcpao_proxy.Error.{
  IoError, ProxyError, io_error, tcp_ao, no_policy_for_peer, str, addr, show_io, end,
}
use rust_tcpao_proxy.Net.{SocketAddr}
use rust_tcpao_proxy.Config.{AoPolicyConfig, GlobalConfig}
use rust_tcpao_proxy.Policy.{select_policy}
use rust_tcpao_proxy.Os.{
  Os, Trace, Action, ◌>>=◌, ◌>>◌, pure, mapping, from_io, new_socket, sys_connect, resume,
}
use rust_tcpao_proxy.Os.Invert.{>>=-Splits, >>-Follows, map_err-ok}
use rust_tcpao_proxy.Os.Quiet.{
  Quiet, Quiet-lift, Quiet-bind, Quiet-then, Quiet-map, Quiet-new_socket, Guarded, Quiet-Guarded,
  resume-Guarded,
}
use rust_tcpao_proxy.Keepalive.{apply_keepalive}
use rust_tcpao_proxy.Keepalive.Values.{Quiet-apply_keepalive}
use rust_tcpao_proxy.Tcpao.Policies.{apply_outbound_policy}
use rust_tcpao_proxy.Tcpao.Silent.{Quiet-apply_outbound_policy}
use rust_tcpao_proxy.Tcpao.Armed.{IsArmed, apply_outbound_policy-IsArmed}
use rust_tcpao_proxy.Forward.{Arrival}
use rust_tcpao_proxy.Connection.{Streams}
use rust_tcpao_proxy.Initiator.{socket_family, wire_socket, open_wire, handle_connection}

-- What has to be done before a connection is opened: it goes to the remote address, and the trace
-- holds the key of the policy that was selected for that address, and the requirement.
abbrev pub WireGuard : Os → List AoPolicyConfig → SocketAddr → ℕ → SocketAddr → Trace → Type 0
WireGuard sys policies remote fd a t =
    (a ≡ remote)
    × ((p : AoPolicyConfig) × (select_policy policies remote.ip (some remote.port) ≡ some p)
        × IsArmed sys p remote fd t)

abbrev pub outbound_failed : IoError → ProxyError
outbound_failed e = tcp_ao (str "failed to apply outbound AO policy: " (show_io e end))

module _ (sys : Os) where
  pub Quiet-wire_socket :
      (p : AoPolicyConfig) (remote : SocketAddr) (g : GlobalConfig)
      → Quiet (wire_socket sys p remote g)
  unfolding wire_socket
  Quiet-wire_socket p remote g =
      Quiet-bind (from_io (new_socket sys (socket_family remote.ip))) _
        (Quiet-map io_error (new_socket sys (socket_family remote.ip))
          (Quiet-new_socket sys (socket_family remote.ip)))
        λ fd. Quiet-then (apply_keepalive sys fd g) _ (Quiet-apply_keepalive sys fd g) (
          Quiet-then (mapping _ (apply_outbound_policy sys fd p remote)) _
            (Quiet-map _ (apply_outbound_policy sys fd p remote)
              (Quiet-apply_outbound_policy sys fd p remote))
            (Quiet-lift (ok fd)))

  pub wire_socket-IsArmed :
      (p : AoPolicyConfig) (remote : SocketAddr) (g : GlobalConfig) (t : Trace) (fd : ℕ)
      → sys.debug_assertions ≡ false
      → (wire_socket sys p remote g t).0 ≡ ok fd
      → IsArmed sys p remote fd (wire_socket sys p remote g t).1
  unfolding wire_socket
  wire_socket-IsArmed p remote g t fd release h =
      let m₁ = from_io (new_socket sys (socket_family remote.ip)) in
      let m₂ = λ (s : ℕ). apply_keepalive sys s g in
      let m₃ = λ (s : ℕ). mapping outbound_failed (apply_outbound_policy sys s p remote) in
      let a = >>=-Splits m₁ (λ s. m₂ s >> (m₃ s >> pure s)) t h in
      let s = a.value in
      let b = >>-Follows (m₂ s) (m₃ s >> pure s) (m₁ t).1 a.second in
      let t₂ = (m₂ s (m₁ t).1).1 in
      let c = >>-Follows (m₃ s) (pure s) t₂ b.second in
      let same : s ≡ fd = cc (c.second) in
      let applied =
        map_err-ok outbound_failed (apply_outbound_policy sys s p remote t₂).0 c.first in
      let armed = apply_outbound_policy-IsArmed sys s p remote t₂ release applied in
      let final = a.final ∙ b.final ∙ c.final in
      rw final
        (subst (λ x. IsArmed sys p remote x (apply_outbound_policy sys s p remote t₂).1) same armed)

  -- The part of `open_wire` behind the choice of a policy.
  abbrev connected : AoPolicyConfig → ℕ → SocketAddr → GlobalConfig → Action ProxyError Streams
  connected policy plain remote global = do
    socket ← wire_socket sys policy remote global
    wire ← from_io (sys_connect sys socket remote)
    apply_keepalive sys wire global
    apply_keepalive sys plain global
    pure (record { policy = policy; source = plain; destination = wire })

  module _ (policies : List AoPolicyConfig) (remote : SocketAddr) where
    abbrev G : ℕ → SocketAddr → Trace → Type 0
    G = WireGuard sys policies remote

    connected-Guarded :
        (p : AoPolicyConfig) (plain : ℕ) (g : GlobalConfig) (t : Trace)
        → sys.debug_assertions ≡ false
        → select_policy policies remote.ip (some remote.port) ≡ some p
        → Guarded G t
        → Guarded G (connected p plain remote g t).1
    connected-Guarded p plain g t release chosen h =
        after (wire_socket sys p remote g t).0 refl
          (Quiet-Guarded G {m = wire_socket sys p remote g} t (Quiet-wire_socket p remote g) h)
      where
        t₁ : Trace
        t₁ = (wire_socket sys p remote g t).1

        rest : ℕ → Action ProxyError Streams
        rest wire =
            apply_keepalive sys wire g
            >> (apply_keepalive sys plain g
                >> pure (record { policy = p; source = plain; destination = wire }))

        Quiet-rest : (wire : ℕ) → Quiet (rest wire)
        Quiet-rest wire =
            Quiet-then (apply_keepalive sys wire g) _ (Quiet-apply_keepalive sys wire g) (
              Quiet-then (apply_keepalive sys plain g) _ (Quiet-apply_keepalive sys plain g)
                (Quiet-lift (ok _)))

        after :
            (r : Result ProxyError ℕ)
            → (wire_socket sys p remote g t).0 ≡ r
            → Guarded G t₁
            → Guarded G (resume (λ s. from_io (sys_connect sys s remote) >>= rest) (r, t₁)).1
        after (err x) e h₁ = h₁
        after (ok fd) e h₁ =
            resume-Guarded G rest (from_io (sys_connect sys fd remote) t₁).0
              (from_io (sys_connect sys fd remote) t₁).1 Quiet-rest
              ((refl, (p, chosen, wire_socket-IsArmed p remote g t fd release e)), h₁)

    open_wire-Guarded :
        (plain : ℕ) (g : GlobalConfig) (t : Trace)
        → sys.debug_assertions ≡ false
        → Guarded G t
        → Guarded G (open_wire sys plain remote policies g t).1
    unfolding open_wire
    open_wire-Guarded plain g t release h =
        go (select_policy policies remote.ip (some remote.port)) refl
      where
        go :
            (o : Option AoPolicyConfig)
            → select_policy policies remote.ip (some remote.port) ≡ o
            → Guarded G
                (resume
                  (λ p. connected p plain remote g)
                  (ok_or (no_policy_for_peer (addr remote end)) o, t)).1
        go none e = h
        go (some p) e = connected-Guarded p plain g t release e h

-- In a release build, whatever the kernel answers, every `connect` of a connection's task goes to the
-- remote address and is made on a socket on which, before, a key of the policy selected for that
-- address was installed for it and TCP-AO was made required.
pub handle_connection-fails_closed :
    (sys : Os) (conn_id plain : ℕ) (plain_peer remote : SocketAddr) (policies : List AoPolicyConfig)
    (g : GlobalConfig) (started : ℕ) (arrivals : List Arrival)
    → sys.debug_assertions ≡ false
    → Guarded
        (WireGuard sys policies remote)
        (handle_connection sys conn_id plain plain_peer remote policies g started arrivals []).1
unfolding handle_connection
handle_connection-fails_closed sys conn_id plain plain_peer remote policies g started arrivals
      release =
    open_wire-Guarded sys policies remote plain g [] release tt
