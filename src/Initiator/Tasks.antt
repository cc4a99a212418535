-- ===== src/Initiator/Tasks.antt =====
-- The tasks of src/mode_initiator.rs among each other.
use mathlib.Core.Path.{subst}
use rust_tcpao_proxy.Base.{
  Bool, All, ap, All-map, some-eq, ℕ, ◌≡◌, sym, ◌∙◌, false, some, List, [], map, ok, ok_or, ok-eq,
  ok_or-ok,
}
use rust_tcpao_proxy.Error.{ProxyError, no_policy_for_peer, addr, end}
use rust_tcpao_proxy.Net.{SocketAddr}
use rust_tcpao_proxy.Config.{AoPolicyConfig, GlobalConfig, initiator}
use rust_tcpao_proxy.Policy.{select_policy}
use rust_tcpao_proxy.Os.{Os, Trace, Action, ◌>>=◌, ◌>>◌, pure, lift, from_io, sys_connect}
use rust_tcpao_proxy.Os.Invert.{>>=-Splits, >>-Follows, >>=_assoc, >>=_cong}
use rust_tcpao_proxy.Os.Quiet.{Quiet-lift, Quiet-bind, Quiet-then, Any-append}
use rust_tcpao_proxy.Keepalive.{apply_keepalive}
use rust_tcpao_proxy.Keepalive.Values.{Quiet-apply_keepalive}
use rust_tcpao_proxy.Tcpao.Armed.{IsArmed}
use rust_tcpao_proxy.Connection.{Streams, Task, Outcome}
use rust_tcpao_proxy.Process.{Stages, Process, Running, Reach, start}
use rust_tcpao_proxy.Process.Refines.{IsWhole, Reach-IsWhole}
use rust_tcpao_proxy.Forward.{Arrival}
use rust_tcpao_proxy.Process.Laws.{Readiness, Laws, IsSafeProcess}
use rust_tcpao_proxy.Process.Safe.{Reach-IsSafe}
use rust_tcpao_proxy.Process.Alone.{settled, set_up}
use rust_tcpao_proxy.Initiator.{wire_socket, open_wire, handle_connection}
use rust_tcpao_proxy.Initiator.FailClosed.{Quiet-wire_socket, wire_socket-IsArmed}

module _ (sys : Os) (remote : SocketAddr) (policies : List AoPolicyConfig) (g : GlobalConfig) where
  -- `handle_connection`, cut where it awaits.
  abbrev pub chosen : Action ProxyError AoPolicyConfig
  chosen = lift (
      ok_or (no_policy_for_peer (addr remote end))
        (select_policy policies remote.ip (some remote.port)))

  abbrev pub prepare : Task → Action ProxyError (AoPolicyConfig × ℕ)
  prepare k = do policy ← chosen; socket ← wire_socket sys policy remote g; pure (policy, socket)

  abbrev pub complete : Task → AoPolicyConfig → ℕ → Action ProxyError Streams
  complete k policy wire = do
    apply_keepalive sys wire g
    apply_keepalive sys k.stream g
    pure (record { policy = policy; source = k.stream; destination = wire })

  abbrev pub stages : Stages
  stages = record {
    mode = initiator;
    global = g;
    target = remote;
    prepare = prepare;
    complete = complete;
  }

  -- The policy is the one selected for the remote address, and the socket has its key and requires
  -- TCP-AO.
  abbrev pub IsReady : Readiness
  IsReady k p fd t =
      (select_policy policies remote.ip (some remote.port) ≡ some p) × IsArmed sys p remote fd t

  pub open_wire-set_up :
      (k : Task) (t : Trace) → open_wire sys k.stream remote policies g t ≡ set_up sys stages k t
  unfolding open_wire
  open_wire-set_up k t =
      let rest : AoPolicyConfig × ℕ → Action ProxyError Streams =
        λ (p, s). from_io (sys_connect sys s remote) >>= λ wire. complete k p wire in
      sym (
        >>=_assoc chosen _ rest t
        ∙ >>=_cong chosen _ _
            (λ q u. >>=_assoc (wire_socket sys q remote g) (λ s. pure (q, s)) rest u) t)

  module _ (release : sys.debug_assertions ≡ false) where
    prepare-IsReady :
        (k : Task) (t : Trace) {p : AoPolicyConfig} {fd : ℕ}
        → (prepare k t).0 ≡ ok (p, fd)
        → IsReady k p fd (prepare k t).1
    prepare-IsReady k t {p} {fd} h =
        let a = >>=-Splits chosen (λ q. wire_socket sys q remote g >>= λ s. pure (q, s)) t h in
        let b = >>=-Splits (wire_socket sys a.value remote g) (λ s. pure (a.value, s)) t a.second in
        subst (λ x. IsReady k x.0 x.1 (prepare k t).1) (ok-eq b.second)
          (rw (a.final ∙ b.final) (
            ok_or-ok _ _ a.first,
            wire_socket-IsArmed sys a.value remote g t b.value release b.first,
          ))

    pub stages-Laws : Laws stages IsReady
    stages-Laws = record {
      prepare_quiet = λ k. Quiet-bind chosen _ (Quiet-lift _) λ p.
          Quiet-bind (wire_socket sys p remote g) _ (Quiet-wire_socket sys p remote g)
            λ fd. Quiet-lift (ok (p, fd));
      prepare_ready = prepare-IsReady;
      ready_lasts =
          λ k p fd s t (c, (key, required)). (c, (Any-append _ s t key, Any-append _ s t required));
      complete_quiet = λ k p fd.
          Quiet-then (apply_keepalive sys fd g) _ (Quiet-apply_keepalive sys fd g) (
            Quiet-then (apply_keepalive sys k.stream g) _ (Quiet-apply_keepalive sys k.stream g)
              (Quiet-lift (ok _)));
      complete_joins = λ k p fd t h.
          let a = >>-Follows (apply_keepalive sys fd g) _ t h in
          let b =
            >>-Follows (apply_keepalive sys k.stream g) _ (apply_keepalive sys fd g t).1 a.second in
          sym (ok-eq b.second);
    }

-- In a release build, whatever the kernel answers to each task and however the tasks take turns, in
-- every state that the initiator's process reaches, each task has made every `connect` to the remote
-- address, on a socket that, by calls of the task before, got a key of the policy selected for that
-- address and was made to require TCP-AO; and each task that relays, or has relayed, does so between
-- the stream it accepted and one opened by such a `connect`, under that policy.
pub tasks-IsSafeProcess :
    (remote : SocketAddr) (policies : List AoPolicyConfig) (g : GlobalConfig) (c : Process)
    → Reach false (λ sys. stages sys remote policies g) start c
    → IsSafeProcess false
        (λ sys. stages sys remote policies g)
        (λ sys. IsReady sys remote policies g)
        c
tasks-IsSafeProcess remote policies g c r =
    Reach-IsSafe false _ _ (λ sys release. stages-Laws sys remote policies g release) r

-- `handle_connection` for a task from the start of `pump` at `started`, with the arrivals.
abbrev pub handled :
    SocketAddr → List AoPolicyConfig → GlobalConfig → Running → ℕ → List Arrival → Outcome × Trace
handled remote policies g r started arrivals =
    handle_connection r.oracle r.task.conn_id r.task.stream r.task.peer remote policies g started
      arrivals []

-- A task that relays or has ended is where `handle_connection` is on its own, with the same calls.
pub IsHandled : SocketAddr → List AoPolicyConfig → GlobalConfig → Running → Type 0
IsHandled remote policies g r =
    (o : Outcome)
    → settled r.stage ≡ some o
    → (started : ℕ) × (arrivals : List Arrival) × (handled remote policies g r started arrivals
        ≡ (o, r.calls))

IsWhole-IsHandled :
    (remote : SocketAddr) (policies : List AoPolicyConfig) (g : GlobalConfig) (debug : Bool)
    (r : Running)
    → IsWhole debug (λ sys. stages sys remote policies g) r
    → IsHandled remote policies g r
unfolding IsHandled handle_connection
IsWhole-IsHandled remote policies g debug r h o e =
    let w = h o e in
    let same = open_wire-set_up r.oracle remote policies g r.task [] in
    (
      w.started,
      map (λ x. x.1) w.inputs,
      rw (same, sym w.agrees.calls) (ap (λ x. (x, r.calls)) (some-eq (sym w.agrees.outcome ∙ e))),
    )

-- However the tasks of the process take turns, in every state that it reaches each task that relays or
-- has ended has the outcome and the calls of `handle_connection` run on its own, from some time and
-- with some arrivals.
pub tasks-handle_connection :
    (remote : SocketAddr) (policies : List AoPolicyConfig) (g : GlobalConfig) (debug : Bool)
    (c : Process)
    → Reach debug (λ sys. stages sys remote policies g) start c
    → All (IsHandled remote policies g) c.running
tasks-handle_connection remote policies g debug c r =
    All-map _ _ (IsWhole-IsHandled remote policies g debug) c.running
      (Reach-IsWhole debug (λ sys. stages sys remote policies g) r)
