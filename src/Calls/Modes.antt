-- ===== src/Calls/Modes.antt =====
-- The calls of src/mode_initiator.rs and src/mode_terminator.rs.
use mathlib.Core.Path.{subst}
use mathlib.Core.List.{append-nil}
use rust_tcpao_proxy.Base.{
  ℕ, sym, ◌∙◌, Option, none, some, List, [], ◌∷◌, All, inl, inr, ok, ok_or, ok_or-ok,
}
use rust_tcpao_proxy.Error.{ProxyError, io_error}
use rust_tcpao_proxy.Net.{IpAddr, SocketAddr}
use rust_tcpao_proxy.Config.{AoPolicyConfig, GlobalConfig}
use rust_tcpao_proxy.Policy.{select_policy}
use rust_tcpao_proxy.Policy.Select.{IsIn, select_policy-Fits}
use rust_tcpao_proxy.Os.{Os, Event, Family, Action, lift, from_io, new_socket, sys_connect}
use rust_tcpao_proxy.Tcpao.Policies.{apply_outbound_policy}
use rust_tcpao_proxy.Tcpao.Session.{ensure_inbound_session_has_ao}
use rust_tcpao_proxy.Connection.{Task, Visit}
use rust_tcpao_proxy.Initiator
use rust_tcpao_proxy.Terminator
use rust_tcpao_proxy.Calls.{
  Fits, FitsAddr, IsTypedOs, IsTypedPolicy, Sends, SendsOnly, Sends-lift, Sends-bind, Sends-then,
  Sends-map, Sends-call,
}
use rust_tcpao_proxy.Calls.Options.{
  SendsOnly-lift, SendsOnly-apply_keepalive, SendsOnly-ensure_inbound_session_has_ao,
}
use rust_tcpao_proxy.Calls.Keys.{SendsOnly-apply_outbound_policy}

All-IsIn :
    (P : AoPolicyConfig → Type 0) (ps : List AoPolicyConfig) {p : AoPolicyConfig}
    → All P ps
    → IsIn p ps
    → P p
All-IsIn P (q ∷ ps) (h, hs) (inl e) = subst P e h
All-IsIn P (q ∷ ps) (h, hs) (inr m) = All-IsIn P ps hs m
All-IsIn P [] h m = absurd m

module _ (sys : Os) where
  pub SendsOnly-new_socket : (f : Family) → SendsOnly (from_io (new_socket sys f))
  SendsOnly-new_socket f =
      Sends-map _ io_error (new_socket sys f)
        (Sends-call _ (λ t. Event.socket f (sys.socket t f)) (λ t. tt))

  SendsOnly-sys_connect :
      (fd : ℕ) (a : SocketAddr) → FitsAddr a → SendsOnly (from_io (sys_connect sys fd a))
  SendsOnly-sys_connect fd a h =
      Sends-map _ io_error (sys_connect sys fd a)
        (Sends-call _ (λ t. Event.connect fd a (sys.connect t fd a)) (λ t. h))

  module _ (typed : IsTypedOs sys) where
    -- A policy that is chosen is one of the list.
    Sends-chosen :
        (ps : List AoPolicyConfig) (ip : IpAddr) (port : Option ℕ) (e : ProxyError)
        → All IsTypedPolicy ps
        → Sends IsTypedPolicy (lift (ok_or e (select_policy ps ip port)))
    Sends-chosen ps ip port e h =
        Sends-lift IsTypedPolicy (ok_or e (select_policy ps ip port)) λ p chosen.
          All-IsIn IsTypedPolicy ps h
            (select_policy-Fits ps ip port (ok_or-ok e (select_policy ps ip port) chosen)).0

    SendsOnly-open_wire :
        (plain : ℕ) (remote : SocketAddr) (ps : List AoPolicyConfig) (g : GlobalConfig)
        → FitsAddr remote
        → All IsTypedPolicy ps
        → SendsOnly (Initiator.open_wire sys plain remote ps g)
    unfolding Initiator.open_wire Initiator.wire_socket
    SendsOnly-open_wire plain remote ps g fits h =
        Sends-bind IsTypedPolicy _ (lift (ok_or _ (select_policy ps remote.ip (some remote.port))))
          _ (Sends-chosen ps remote.ip (some remote.port) _ h)
          λ p tp.
            Sends-bind (λ _. Unit) _ (Initiator.wire_socket sys p remote g) _
              (Sends-bind (λ _. Unit) _
                (from_io (new_socket sys (Initiator.socket_family remote.ip))) _
                (SendsOnly-new_socket (Initiator.socket_family remote.ip))
                λ fd _. Sends-then _ _ _ (SendsOnly-apply_keepalive sys fd g) (
                  Sends-then _ _ _
                    (Sends-map _ _ (apply_outbound_policy sys fd p remote)
                      (SendsOnly-apply_outbound_policy sys typed fd p remote tp fits.0))
                    (SendsOnly-lift sys (ok fd))))
              λ socket _.
                Sends-bind (λ _. Unit) _ (from_io (sys_connect sys socket remote)) _
                  (SendsOnly-sys_connect socket remote fits)
                  λ wire _. Sends-then _ _ _ (SendsOnly-apply_keepalive sys wire g) (
                    Sends-then _ _ _ (SendsOnly-apply_keepalive sys plain g)
                      (SendsOnly-lift sys (ok _)))

    SendsOnly-plain_stream :
        (a : SocketAddr) (g : GlobalConfig)
        → FitsAddr a
        → SendsOnly (Terminator.plain_stream sys a g)
    unfolding Terminator.plain_stream
    SendsOnly-plain_stream a g fits =
        Sends-bind (λ _. Unit) _ (from_io (new_socket sys (Terminator.socket_family a.ip))) _
          (SendsOnly-new_socket (Terminator.socket_family a.ip))
          λ socket _. Sends-then _ _ _ (SendsOnly-apply_keepalive sys socket g) (
            Sends-bind (λ _. Unit) _ (from_io (sys_connect sys socket a)) _
              (SendsOnly-sys_connect socket a fits)
              λ plain _.
                Sends-then _ _ _ (SendsOnly-apply_keepalive sys plain g)
                  (SendsOnly-lift sys (ok plain)))

    SendsOnly-open_plain :
        (wire : ℕ) (wire_peer a : SocketAddr) (ps : List AoPolicyConfig) (g : GlobalConfig)
        → FitsAddr a
        → SendsOnly (Terminator.open_plain sys wire wire_peer a ps g)
    unfolding Terminator.open_plain Terminator.apply_keepalive
    SendsOnly-open_plain wire wire_peer a ps g fits =
        Sends-bind (λ _. Unit) _ (lift (ok_or _ (select_policy ps wire_peer.ip none))) _
          (SendsOnly-lift sys _)
          λ p _.
            Sends-then _ _ _
              (Sends-map _ _ (ensure_inbound_session_has_ao sys wire wire_peer)
                (SendsOnly-ensure_inbound_session_has_ao sys wire wire_peer))
              (Sends-bind (λ _. Unit) _ (Terminator.plain_stream sys a g) _
                (SendsOnly-plain_stream a g fits)
                λ plain _.
                  Sends-then _ _ _ (SendsOnly-apply_keepalive sys wire g)
                    (SendsOnly-lift sys (ok _)))

pub added-Fits : {E A : Type 0} {Q : A → Type 0} (m : Action E A) → Sends Q m → All Fits (m []).1
added-Fits m q = let (s, e, h) = q.adds [] in subst (All Fits) (sym (e ∙ append-nil s)) h

-- The calls of a task.
pub initiator_task-Fits :
    (a : SocketAddr) (ps : List AoPolicyConfig) (g : GlobalConfig)
    → FitsAddr a
    → All IsTypedPolicy ps
    → (k : Task) (v : Visit) → IsTypedOs v.oracle
    → All Fits (Initiator.serve a ps g k v).calls
unfolding Initiator.serve Initiator.handle_connection
initiator_task-Fits a ps g fits h k v typed =
    added-Fits (Initiator.open_wire v.oracle k.stream a ps g)
      (SendsOnly-open_wire v.oracle typed k.stream a ps g fits h)

pub terminator_task-Fits :
    (a : SocketAddr) (ps : List AoPolicyConfig) (g : GlobalConfig)
    → FitsAddr a
    → All IsTypedPolicy ps
    → (k : Task) (v : Visit) → IsTypedOs v.oracle
    → All Fits (Terminator.serve a ps g k v).calls
unfolding Terminator.serve Terminator.handle_connection
terminator_task-Fits a ps g fits h k v typed =
    added-Fits (Terminator.open_plain v.oracle k.stream k.peer a ps g)
      (SendsOnly-open_plain v.oracle typed k.stream k.peer a ps g fits)
