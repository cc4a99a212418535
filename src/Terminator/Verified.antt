-- ===== src/Terminator/Verified.antt =====
-- `handle_connection` of src/mode_terminator.rs: what is known when it opens a connection.
use rust_tcpao_proxy.Base.{
  ℕ, ◌≡◌, refl, false, Option, none, some, List, [], Result, ok, err, ok_or, map_err, Any,
}
use rust_tcpao_proxy.Error.{
  IoError, ProxyError, io_error, tcp_ao, no_policy_for_peer, str, addr, show_io, end,
}
use rust_tcpao_proxy.Net.{SocketAddr}
use rust_tcpao_proxy.Config.{AoPolicyConfig, GlobalConfig}
use rust_tcpao_proxy.Policy.{select_policy}
use rust_tcpao_proxy.Os.{
  Os, Trace, Action, ◌>>=◌, ◌>>◌, pure, mapping, from_io, new_socket, sys_connect, resume,
}
use rust_tcpao_proxy.Os.Quiet.{
  Quiet, Quiet-lift, Quiet-then, Quiet-map, Quiet-new_socket, Guarded, Quiet-Guarded, Quiet-Any,
  resume-Guarded,
}
use rust_tcpao_proxy.Keepalive.Values
use rust_tcpao_proxy.Tcpao.Silent.{Quiet-ensure_inbound_session_has_ao}
use rust_tcpao_proxy.Tcpao.Session.{ensure_inbound_session_has_ao}
use rust_tcpao_proxy.Tcpao.Inbound.{ShowsAo, ensure_inbound-ShowsAo}
use rust_tcpao_proxy.Forward.{Arrival}
use rust_tcpao_proxy.Connection.{Streams}
use rust_tcpao_proxy.Terminator.{
  socket_family, apply_keepalive, plain_stream, open_plain, handle_connection,
}

-- What has to be done before a connection is opened: it goes to the application's address, the peer
-- has a policy, and the kernel has said that the peer's connection requires TCP-AO.
abbrev pub PlainGuard :
    ℕ → SocketAddr → SocketAddr → List AoPolicyConfig → ℕ → SocketAddr → Trace → Type 0
PlainGuard wire wire_peer forward_plain policies fd a t =
    (a ≡ forward_plain)
    × ((p : AoPolicyConfig) × (select_policy policies wire_peer.ip none ≡ some p))
    × Any (ShowsAo wire) t

abbrev pub inbound_failed : IoError → ProxyError
inbound_failed e = tcp_ao (str "inbound AO verification failed: " (show_io e end))

module _ (sys : Os) where
  pub Quiet-apply_keepalive : (fd : ℕ) (g : GlobalConfig) → Quiet (apply_keepalive sys fd g)
  unfolding apply_keepalive
  Quiet-apply_keepalive fd g = Values.Quiet-apply_keepalive sys fd g

  module _ (wire : ℕ) (wire_peer forward_plain : SocketAddr) (policies : List AoPolicyConfig) where
    abbrev G : ℕ → SocketAddr → Trace → Type 0
    G = PlainGuard wire wire_peer forward_plain policies

    plain_stream-Guarded :
        (g : GlobalConfig) (t : Trace)
        → (p : AoPolicyConfig) × (select_policy policies wire_peer.ip none ≡ some p)
        → Any (ShowsAo wire) t
        → Guarded G t
        → Guarded G (plain_stream sys forward_plain g t).1
    unfolding plain_stream
    plain_stream-Guarded g t chosen seen h = after (make t).0 refl
      where
        make : Action ProxyError ℕ
        make = from_io (new_socket sys (socket_family forward_plain.ip))

        Quiet-make : Quiet make
        Quiet-make =
            Quiet-map io_error (new_socket sys (socket_family forward_plain.ip))
              (Quiet-new_socket sys (socket_family forward_plain.ip))

        rest : ℕ → Action ProxyError ℕ
        rest plain = apply_keepalive sys plain g >> pure plain

        connect_it : ℕ → Action ProxyError ℕ
        connect_it s = from_io (sys_connect sys s forward_plain) >>= rest

        -- The socket is made and tuned by quiet actions.
        tune :
            (s : ℕ) (r : Result ProxyError (Unit {0})) (t₂ : Trace)
            → Any (ShowsAo wire) t₂
            → Guarded G t₂
            → Guarded G (resume (λ _. connect_it s) (r, t₂)).1
        tune s (err x) t₂ seen₂ h₂ = h₂
        tune s (ok u) t₂ seen₂ h₂ =
            resume-Guarded G rest (from_io (sys_connect sys s forward_plain) t₂).0
              (from_io (sys_connect sys s forward_plain) t₂).1
              (λ plain.
                Quiet-then (apply_keepalive sys plain g) _ (Quiet-apply_keepalive plain g)
                  (Quiet-lift (ok plain)))
              ((refl, chosen, seen₂), h₂)

        after :
            (r : Result ProxyError ℕ)
            → (make t).0 ≡ r
            → Guarded G (resume (λ s. apply_keepalive sys s g >> connect_it s) (r, (make t).1)).1
        after (err x) e = Quiet-Guarded G {m = make} t Quiet-make h
        after (ok s) e =
            let t₁ = (make t).1 in
            tune s (apply_keepalive sys s g t₁).0 (apply_keepalive sys s g t₁).1
              (Quiet-Any (ShowsAo wire) t₁ (Quiet-apply_keepalive s g)
                (Quiet-Any (ShowsAo wire) t Quiet-make seen))
              (Quiet-Guarded G {m = apply_keepalive sys s g} t₁ (Quiet-apply_keepalive s g)
                (Quiet-Guarded G {m = make} t Quiet-make h))

    -- The part of `open_plain` behind the check of the connection.
    abbrev forward : AoPolicyConfig → GlobalConfig → Action ProxyError Streams
    forward p g = do
      plain ← plain_stream sys forward_plain g
      apply_keepalive sys wire g
      pure (record { policy = p; source = wire; destination = plain })

    forward-Guarded :
        (p : AoPolicyConfig) (g : GlobalConfig) (t : Trace)
        → select_policy policies wire_peer.ip none ≡ some p
        → Any (ShowsAo wire) t
        → Guarded G t
        → Guarded G (forward p g t).1
    forward-Guarded p g t chosen seen h =
        resume-Guarded G
          (λ plain.
            apply_keepalive sys wire g
            >> pure (record { policy = p; source = wire; destination = plain }))
          (plain_stream sys forward_plain g t).0 (plain_stream sys forward_plain g t).1
          (λ plain.
            Quiet-then (apply_keepalive sys wire g) _ (Quiet-apply_keepalive wire g)
              (Quiet-lift (ok _)))
          (plain_stream-Guarded g t (p, chosen) seen h)

    checked-Guarded :
        (p : AoPolicyConfig) (g : GlobalConfig) (t : Trace)
        → sys.debug_assertions ≡ false
        → select_policy policies wire_peer.ip none ≡ some p
        → Guarded G t
        → Guarded G
            ((mapping inbound_failed (ensure_inbound_session_has_ao sys wire wire_peer)
                >> forward p g)
              t).1
    checked-Guarded p g t release chosen h = go (check t).0 refl
      where
        check : Action IoError (Unit {0})
        check = ensure_inbound_session_has_ao sys wire wire_peer

        go :
            (r : Result IoError (Unit {0}))
            → (check t).0 ≡ r
            → Guarded G (resume (λ _. forward p g) (map_err inbound_failed r, (check t).1)).1
        go (err e) same =
            Quiet-Guarded G {m = check} t (Quiet-ensure_inbound_session_has_ao sys wire wire_peer) h
        go (ok tt) same =
            forward-Guarded p g (check t).1 chosen
              (ensure_inbound-ShowsAo sys release wire wire_peer t same)
              (Quiet-Guarded G {m = check} t
                (Quiet-ensure_inbound_session_has_ao sys wire wire_peer) h)

    open_plain-Guarded :
        (g : GlobalConfig) (t : Trace)
        → sys.debug_assertions ≡ false
        → Guarded G t
        → Guarded G (open_plain sys wire wire_peer forward_plain policies g t).1
    unfolding open_plain
    open_plain-Guarded g t release h = go (select_policy policies wire_peer.ip none) refl
      where
        go :
            (o : Option AoPolicyConfig)
            → select_policy policies wire_peer.ip none ≡ o
            → Guarded G
                (resume
                  (λ p.
                    mapping inbound_failed (ensure_inbound_session_has_ao sys wire wire_peer)
                    >> forward p g)
                  (ok_or (no_policy_for_peer (addr wire_peer end)) o, t)).1
        go none e = h
        go (some p) e = checked-Guarded p g t release e h

-- In a release build, whatever the kernel answers, every `connect` of a connection's task goes to the
-- application's address, for a peer that has a policy, and after the kernel has said that the
-- accepted connection requires TCP-AO.
pub handle_connection-verified :
    (sys : Os) (conn_id wire : ℕ) (wire_peer forward_plain : SocketAddr)
    (policies : List AoPolicyConfig) (g : GlobalConfig) (started : ℕ) (arrivals : List Arrival)
    → sys.debug_assertions ≡ false
    → Guarded
        (PlainGuard wire wire_peer forward_plain policies)
        (handle_connection sys conn_id wire wire_peer forward_plain policies g started arrivals
          []).1
unfolding handle_connection
handle_connection-verified sys conn_id wire wire_peer forward_plain policies g started arrivals
      release =
    open_plain-Guarded sys wire wire_peer forward_plain policies g [] release tt
