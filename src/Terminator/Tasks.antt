-- ===== src/Terminator/Tasks.antt =====
-- The tasks of src/mode_terminator.rs among each other.
use mathlib.Core.Path.{subst}
use rust_tcpao_proxy.Base.{
  Bool, All, ap, All-map, some-eq, ℕ, ◌≡◌, sym, ◌∙◌, false, none, some, List, [], map, Any, ok,
  ok-eq, ok_or-ok,
}
use rust_tcpao_proxy.Net.{SocketAddr}
use rust_tcpao_proxy.Config.{AoPolicyConfig, GlobalConfig}
use rust_tcpao_proxy.Policy.{select_policy}
use rust_tcpao_proxy.Os.{Os, Trace, ◌>>◌, pure}
use rust_tcpao_proxy.Os.Invert.{>>=-Splits, >>-Follows, map_err-ok}
use rust_tcpao_proxy.Os.Quiet.{Quiet-lift, Quiet-bind, Quiet-then, Quiet-map, Quiet-Any, Any-append}
use rust_tcpao_proxy.Tcpao.Session.{ensure_inbound_session_has_ao}
use rust_tcpao_proxy.Tcpao.Silent.{Quiet-ensure_inbound_session_has_ao}
use rust_tcpao_proxy.Tcpao.Inbound.{ShowsAo, ensure_inbound-ShowsAo}
use rust_tcpao_proxy.Connection.{Task, Outcome}
use rust_tcpao_proxy.Process.{Process, Running, Reach, start}
use rust_tcpao_proxy.Process.Refines.{IsWhole, Reach-IsWhole}
use rust_tcpao_proxy.Forward.{Arrival}
use rust_tcpao_proxy.Process.Laws.{Readiness, Laws, IsSafeProcess}
use rust_tcpao_proxy.Process.Safe.{Reach-IsSafe}
use rust_tcpao_proxy.Process.Alone.{settled}
use rust_tcpao_proxy.Terminator.{apply_keepalive, handle_connection}
use rust_tcpao_proxy.Terminator.Verified.{inbound_failed, Quiet-apply_keepalive}
use rust_tcpao_proxy.Terminator.Stages.{
  chosen, checked, new_plain, prepare, stages, made, Quiet-made, open_plain-set_up,
}

module _ (sys : Os) (forward_plain : SocketAddr) (policies : List AoPolicyConfig)
    (g : GlobalConfig) where
  -- The policy is the one selected for the task's own peer, and the kernel has said that the stream
  -- which the task accepted requires TCP-AO.
  abbrev pub IsReady : Readiness
  IsReady k p fd t = (select_policy policies k.peer.ip none ≡ some p) × Any (ShowsAo k.stream) t

  module _ (release : sys.debug_assertions ≡ false) where
    prepare-IsReady :
        (k : Task) (t : Trace) {p : AoPolicyConfig} {fd : ℕ}
        → (prepare sys forward_plain policies g k t).0 ≡ ok (p, fd)
        → IsReady k p fd (prepare sys forward_plain policies g k t).1
    prepare-IsReady k t {p} {fd} h =
        let a =
          >>=-Splits (chosen sys forward_plain policies g k)
            (λ q. checked sys forward_plain policies g k >> made sys forward_plain policies g q) t
            h in
        let b =
          >>-Follows (checked sys forward_plain policies g k)
            (made sys forward_plain policies g a.value) t a.second in
        let c =
          >>=-Splits (new_plain sys forward_plain policies g)
            (λ s. apply_keepalive sys s g >> pure (a.value, s))
            (checked sys forward_plain policies g k t).1 b.second in
        let d =
          >>-Follows (apply_keepalive sys c.value g) (pure (a.value, c.value))
            (new_plain sys forward_plain policies g (checked sys forward_plain policies g k t).1).1
            c.second in
        let passed =
          map_err-ok inbound_failed (ensure_inbound_session_has_ao sys k.stream k.peer t).0
            b.first in
        let shows = ensure_inbound-ShowsAo sys release k.stream k.peer t passed in
        subst (λ x. IsReady k x.0 x.1 (prepare sys forward_plain policies g k t).1) (ok-eq d.second)
          (rw (a.final ∙ b.final) (
            ok_or-ok _ _ a.first,
            Quiet-Any {m = made sys forward_plain policies g a.value} (ShowsAo k.stream)
                (checked sys forward_plain policies g k t).1
                (Quiet-made sys forward_plain policies g a.value) shows,
          ))

    stages-Laws : Laws (stages sys forward_plain policies g) IsReady
    stages-Laws = record {
      prepare_quiet = λ k. Quiet-bind (chosen sys forward_plain policies g k) _ (Quiet-lift _) λ p.
          Quiet-then (checked sys forward_plain policies g k) _
            (Quiet-map inbound_failed (ensure_inbound_session_has_ao sys k.stream k.peer)
              (Quiet-ensure_inbound_session_has_ao sys k.stream k.peer))
            (Quiet-made sys forward_plain policies g p);
      prepare_ready = prepare-IsReady;
      ready_lasts = λ k p fd s t (c, shows). (c, Any-append _ s t shows);
      complete_quiet = λ k p fd.
          Quiet-then (apply_keepalive sys fd g) _ (Quiet-apply_keepalive sys fd g) (
            Quiet-then (apply_keepalive sys k.stream g) _ (Quiet-apply_keepalive sys k.stream g)
              (Quiet-lift (ok _)));
      complete_joins = λ k p fd t h.
          let a = >>-Follows (apply_keepalive sys fd g) _ t h in
          let b =
            >>-Follows (apply_keepalive sys k.stream g) _ (apply_keepalive sys fd g t).1 a.second in
          sym (ok-eq b.second);
    }

-- In a release build, whatever the kernel answers to each task and however the tasks take turns, in
-- every state that the terminator's process reaches, each task has made every `connect` to the
-- application's address, after the kernel has told the task that the stream which it accepted requires
-- TCP-AO; and each task that relays, or has relayed, does so between that stream and one opened by
-- such a `connect`, under the policy selected for the stream's peer.
pub tasks-verified :
    (forward_plain : SocketAddr) (policies : List AoPolicyConfig) (g : GlobalConfig) (c : Process)
    → Reach false (λ sys. stages sys forward_plain policies g) start c
    → IsSafeProcess false
        (λ sys. stages sys forward_plain policies g)
        (λ sys. IsReady sys forward_plain policies g)
        c
tasks-verified forward_plain policies g c r =
    Reach-IsSafe false _ _ (λ sys release. stages-Laws sys forward_plain policies g release) r

-- `handle_connection` for a task from the start of `pump` at `started`, with the arrivals.
abbrev handled :
    SocketAddr → List AoPolicyConfig → GlobalConfig → Running → ℕ → List Arrival → Outcome × Trace
handled forward_plain policies g r started arrivals =
    handle_connection r.oracle r.task.conn_id r.task.stream r.task.peer forward_plain policies g
      started arrivals []

-- A task that relays or has ended is where `handle_connection` is on its own, with the same calls.
IsHandled : SocketAddr → List AoPolicyConfig → GlobalConfig → Running → Type 0
IsHandled forward_plain policies g r =
    (o : Outcome)
    → settled r.stage ≡ some o
    → (started : ℕ) × (arrivals : List Arrival) × (handled forward_plain policies g r started
          arrivals
        ≡ (o, r.calls))

IsWhole-IsHandled :
    (forward_plain : SocketAddr) (policies : List AoPolicyConfig) (g : GlobalConfig) (debug : Bool)
    (r : Running)
    → IsWhole debug (λ sys. stages sys forward_plain policies g) r
    → IsHandled forward_plain policies g r
unfolding IsHandled handle_connection
IsWhole-IsHandled forward_plain policies g debug r h o e =
    let w = h o e in
    let same = open_plain-set_up r.oracle forward_plain policies g r.task [] in
    (
      w.started,
      map (λ x. x.1) w.inputs,
      rw (same, sym w.agrees.calls) (ap (λ x. (x, r.calls)) (some-eq (sym w.agrees.outcome ∙ e))),
    )

-- However the tasks of the process take turns, in every state that it reaches each task that relays or
-- has ended has the outcome and the calls of `handle_connection` run on its own, from some time and
-- with some arrivals.
tasks-handle_inbound :
    (forward_plain : SocketAddr) (policies : List AoPolicyConfig) (g : GlobalConfig) (debug : Bool)
    (c : Process)
    → Reach debug (λ sys. stages sys forward_plain policies g) start c
    → All (IsHandled forward_plain policies g) c.running
tasks-handle_inbound forward_plain policies g debug c r =
    All-map _ _ (IsWhole-IsHandled forward_plain policies g debug) c.running
      (Reach-IsWhole debug (λ sys. stages sys forward_plain policies g) r)
