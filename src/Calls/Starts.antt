-- ===== src/Calls/Starts.antt =====
-- The calls of src/mode_initiator.rs and src/mode_terminator.rs before their loops.
use mathlib.Core.Path.{subst}
use rust_tcpao_proxy.Base.{
  ℕ, ◌≡◌, refl, sym, ◌∙◌, List, All, Result, ok, ok_or, ok_or-ok, ok-eq, Text, arith,
}
use rust_tcpao_proxy.Error.{ProxyError, io_error, missing_mode_config, addr_parse}
use rust_tcpao_proxy.Net.{SocketAddr}
use rust_tcpao_proxy.Net.Parse.{parse_socket_addr}
use rust_tcpao_proxy.Net.Parse.Ranges.{InRange, parse_socket_addr-InRange}
use rust_tcpao_proxy.Config.{
  Config, AoPolicyConfig, listen_plain_addr, remote_ao_addr, listen_ao_addr, forward_plain_addr,
}
use rust_tcpao_proxy.Os.{
  Os, Event, lift, from_io, new_socket, sys_bind, sys_listen, sys_set_nonblocking, sys_register,
  sys_tcp_bind, sys_setsockopt, reuse_address,
}
use rust_tcpao_proxy.Tcpao.Storage.Decode.{InRange-IsAddr}
use rust_tcpao_proxy.Tcpao.Policies.{configure_listener}
use rust_tcpao_proxy.Initiator
use rust_tcpao_proxy.Terminator
use rust_tcpao_proxy.Calls.{
  FitsAddr, IsTypedOs, IsTypedPolicy, Sends, SendsOnly, Sends-lift, Sends-bind, Sends-then,
  Sends-map, Sends-call,
}
use rust_tcpao_proxy.Calls.Options.{SendsOnly-lift, SendsOnly-setsockopt}
use rust_tcpao_proxy.Calls.Keys.{SendsOnly-configure_listener}
use rust_tcpao_proxy.Calls.Modes.{SendsOnly-new_socket}

parsed-FitsAddr : (a : SocketAddr) → InRange a → FitsAddr a
parsed-FitsAddr a h = (InRange-IsAddr a h, h.port)

-- What a mode's `run` has before its loop: the listener, and an address that fits.
abbrev pub FitsTarget : ℕ × SocketAddr → Type 0
FitsTarget (fd, a) = FitsAddr a

module _ (sys : Os) (typed : IsTypedOs sys) where
  SendsOnly-build_ao_listener :
      (a : SocketAddr) (ps : List AoPolicyConfig)
      → FitsAddr a
      → All IsTypedPolicy ps
      → SendsOnly (Terminator.build_ao_listener sys a ps)
  unfolding Terminator.build_ao_listener
  SendsOnly-build_ao_listener a ps fits h =
      Sends-bind (λ _. Unit) _ (from_io (new_socket sys (Terminator.socket_family a.ip))) _
        (SendsOnly-new_socket sys (Terminator.socket_family a.ip))
        λ fd _.
          Sends-then _ _ _
            (Sends-map _ io_error (sys_setsockopt sys fd reuse_address)
              (SendsOnly-setsockopt sys fd reuse_address tt))
            (Sends-then _ _ _
              (Sends-map _ io_error (sys_bind sys fd a)
                (Sends-call _ (λ t. Event.bind fd a (sys.bind t fd a)) (λ t. fits)))
              (Sends-then _ _ _
                (Sends-map _ _ (configure_listener sys fd a ps)
                  (SendsOnly-configure_listener sys typed fd a ps h))
                (Sends-then _ _ _
                  (Sends-map _ io_error (sys_listen sys fd 1024) (
                    Sends-call _ (λ t. Event.listen fd 1024 (sys.listen t fd 1024))
                      (λ t. omega arith)))
                  (Sends-then _ _ _
                    (Sends-map _ io_error (sys_set_nonblocking sys fd) (
                      Sends-call _ (λ t. Event.set_nonblocking fd (sys.set_nonblocking t fd))
                        (λ t. tt)))
                    (Sends-then _ _ _
                      (Sends-map _ io_error (sys_register sys fd)
                        (Sends-call _ (λ t. Event.register fd (sys.register t fd)) (λ t. tt)))
                      (SendsOnly-lift sys (ok fd)))))))

  -- The addresses of a section are parsed.
  Sends-address :
      (r : Result ProxyError SocketAddr)
      → ((a : SocketAddr) → r ≡ ok a → InRange a)
      → Sends FitsAddr (lift r)
  Sends-address r h = Sends-lift FitsAddr r (λ a e. parsed-FitsAddr a (h a e))

  parsed :
      (s : Text) (r : Result ProxyError SocketAddr)
      → r ≡ ok_or addr_parse (parse_socket_addr s)
      → Sends FitsAddr (lift r)
  parsed s r same =
      Sends-address r (λ a e. parse_socket_addr-InRange s (ok_or-ok addr_parse _ (sym same ∙ e)))

  pub Sends-start_initiator : (c : Config) → Sends FitsTarget (Initiator.start sys c)
  unfolding Initiator.start listen_plain_addr remote_ao_addr
  Sends-start_initiator c =
      Sends-bind (λ _. Unit) _ (lift (ok_or (missing_mode_config "initiator") c.initiator)) _
        (SendsOnly-lift sys _)
        λ section _.
          Sends-bind FitsAddr _ (lift (listen_plain_addr section)) _
            (parsed section.listen_plain _ refl)
            λ l l_fits.
              Sends-bind FitsAddr _ (lift (remote_ao_addr section)) _
                (parsed section.remote_ao _ refl)
                λ a a_fits.
                  Sends-bind (λ _. Unit) _ (from_io (sys_tcp_bind sys l)) _
                    (Sends-map _ io_error (sys_tcp_bind sys l)
                      (Sends-call _ (λ t. Event.tcp_bind l (sys.tcp_bind t l)) (λ t. l_fits)))
                    λ fd _.
                      Sends-lift FitsTarget (ok (fd, a)) (λ r e. subst FitsTarget (ok-eq e) a_fits)

  pub Sends-start_terminator :
      (c : Config) → All IsTypedPolicy c.ao_policy → Sends FitsTarget (Terminator.start sys c)
  unfolding Terminator.start listen_ao_addr forward_plain_addr
  Sends-start_terminator c h =
      Sends-bind (λ _. Unit) _ (lift (ok_or (missing_mode_config "terminator") c.terminator)) _
        (SendsOnly-lift sys _)
        λ section _.
          Sends-bind FitsAddr _ (lift (listen_ao_addr section)) _ (parsed section.listen_ao _ refl)
            λ l l_fits.
              Sends-bind FitsAddr _ (lift (forward_plain_addr section)) _
                (parsed section.forward_plain _ refl)
                λ a a_fits.
                  Sends-bind (λ _. Unit) _ (Terminator.build_ao_listener sys l c.ao_policy) _
                    (SendsOnly-build_ao_listener l c.ao_policy l_fits h)
                    λ fd _.
                      Sends-lift FitsTarget (ok (fd, a)) (λ r e. subst FitsTarget (ok-eq e) a_fits)
