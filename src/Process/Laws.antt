-- ===== src/Process/Laws.antt =====
-- What a mode owes to the process, and what then holds in every state that the process reaches.
use rust_tcpao_proxy.Base.{
  Bool, ℕ, ◌≡◌, refl, [], ◌∷◌, ◌++◌, All, Any, inl, Result, ok, err, map_err,
}
use rust_tcpao_proxy.Error.{ProxyError, io_error, os}
use rust_tcpao_proxy.Net.{SocketAddr}
use rust_tcpao_proxy.Config.{AoPolicyConfig, idle_timeout}
use rust_tcpao_proxy.Os.{Os, connect, Trace, from_io, sys_connect}
use rust_tcpao_proxy.Os.Quiet.{Quiet, Quiet-Guarded, Guarded, Any-append}
use rust_tcpao_proxy.Forward.{Next, continue, finish, pump_step}
use rust_tcpao_proxy.Connection.{Streams, relaying, done, broken, Task, after_pump}
use rust_tcpao_proxy.Process.{
  Stages, Stage, accepted, prepared, connected, pumping, ended, Input, after_prepare, after_connect,
  after_complete, after_round, advance, Process, Running,
}

-- The calls that protect a task's connection: `IsReady k p fd t` is to say that the trace `t` has
-- them, for the task `k` under the policy `p` with the socket `fd`.
abbrev pub Readiness : Type 1
Readiness = Task → AoPolicyConfig → ℕ → Trace → Type 0

pub record Laws (st : Stages) (IsReady : Readiness) : Type 0 where
  pub prepare_quiet : (k : Task) → Quiet (st.prepare k)
  pub prepare_ready :
      (k : Task) (t : Trace) {p : AoPolicyConfig} {fd : ℕ}
      → (st.prepare k t).0 ≡ ok (p, fd)
      → IsReady k p fd (st.prepare k t).1
  pub ready_lasts :
      (k : Task) (p : AoPolicyConfig) (fd : ℕ) (s t : Trace)
      → IsReady k p fd t
      → IsReady k p fd (s ++ t)
  pub complete_quiet : (k : Task) (p : AoPolicyConfig) (fd : ℕ) → Quiet (st.complete k p fd)
  pub complete_joins :
      (k : Task) (p : AoPolicyConfig) (fd : ℕ) (t : Trace) {s : Streams}
      → (st.complete k p fd t).0 ≡ ok s
      → s ≡ record { policy = p; source = k.stream; destination = fd }

module _ (sys : Os) (st : Stages) (IsReady : Readiness) where
  -- Every `connect` of a task goes to the target, on a socket that was made ready for the task.
  abbrev pub Guard : Task → ℕ → SocketAddr → Trace → Type 0
  Guard k fd a t = (a ≡ st.target) × ((p : AoPolicyConfig) × IsReady k p fd t)

  -- The streams of a task: its own, and one that was connected to the target on a socket made ready
  -- for it.
  pub record Joined (k : Task) (s : Streams) (t : Trace) : Type 0 where
    pub own : s.source ≡ k.stream
    pub opened : Any (λ e. e ≡ connect s.destination st.target (ok tt)) t
    pub ready : IsReady k s.policy s.destination t

  -- What holds of a task, by how far it has got.
  abbrev pub IsSafe : Task → Stage → Trace → Type 0
  IsSafe k accepted t = Unit
  IsSafe k (prepared p fd) t = IsReady k p fd t
  IsSafe k (connected p fd) t = Any (λ e. e ≡ connect fd st.target (ok tt)) t × IsReady k p fd t
  IsSafe k (pumping started s ps) t = Joined k s t
  IsSafe k (ended (relaying s ps)) t = Joined k s t
  IsSafe k (ended (done s ps line)) t = Joined k s t
  IsSafe k (ended (broken ps e)) t = Unit

  module _ (laws : Laws st IsReady) where
    -- A task that runs adds to the trace, keeps it guarded, and is safe where it waits again.
    pub record Moves (k : Task) (t : Trace) (r : Stage × Trace) : Type 0 where
      pub added : Trace
      pub final : r.1 ≡ added ++ t
      pub guarded : Guarded (Guard k) t → Guarded (Guard k) r.1
      pub safe : IsSafe k r.0 r.1

    prepare-Moves : (k : Task) (t : Trace) → Moves k t (after_prepare (st.prepare k t))
    unfolding after_prepare
    prepare-Moves k t = go (st.prepare k t).0 refl
      where
        t₁ : Trace
        t₁ = (st.prepare k t).1

        go :
            (r : Result ProxyError (AoPolicyConfig × ℕ))
            → (st.prepare k t).0 ≡ r
            → Moves k t (after_prepare (r, t₁))
        go (ok (p, fd)) e = record {
          added = ((laws.prepare_quiet k).adds t).0;
          final = ((laws.prepare_quiet k).adds t).1;
          guarded = Quiet-Guarded (Guard k) {m = st.prepare k} t (laws.prepare_quiet k);
          safe = laws.prepare_ready k t e;
        }
        go (err x) e = record {
          added = ((laws.prepare_quiet k).adds t).0;
          final = ((laws.prepare_quiet k).adds t).1;
          guarded = Quiet-Guarded (Guard k) {m = st.prepare k} t (laws.prepare_quiet k);
          safe = tt;
        }

    connect-Moves :
        (k : Task) (p : AoPolicyConfig) (fd : ℕ) (t : Trace)
        → IsReady k p fd t
        → Moves k t (after_connect p (from_io (sys_connect sys fd st.target) t))
    unfolding after_connect
    connect-Moves k p fd t ready = go (sys.connect t fd st.target)
      where
        go :
            (r : Result ℕ (Unit {0}))
            → Moves k t (
                after_connect p (
                  map_err io_error (elim r [ ok _ ↦ ok fd | err e ↦ err (os e) ]),
                  connect fd st.target r ∷ t,
                ))
        go (ok u) = record {
          added = connect fd st.target (ok tt) ∷ [];
          final = refl;
          guarded = λ g. ((refl, (p, ready)), g);
          safe = (inl refl, laws.ready_lasts k p fd (connect fd st.target (ok tt) ∷ []) t ready);
        }
        go (err e) = record {
          added = connect fd st.target (err e) ∷ [];
          final = refl;
          guarded = λ g. ((refl, (p, ready)), g);
          safe = tt;
        }

    complete-Moves :
        (k : Task) (p : AoPolicyConfig) (fd now : ℕ) (t : Trace)
        → IsSafe k (connected p fd) t
        → Moves k t (after_complete now (st.complete k p fd t))
    unfolding after_complete
    complete-Moves k p fd now t (opened, ready) = go (st.complete k p fd t).0 refl
      where
        quiet : Quiet (st.complete k p fd)
        quiet = laws.complete_quiet k p fd

        go :
            (r : Result ProxyError Streams)
            → (st.complete k p fd t).0 ≡ r
            → Moves k t (after_complete now (r, (st.complete k p fd t).1))
        go (ok s) e =
            let same = laws.complete_joins k p fd t e in
            let (u, added, _) = quiet.adds t in
            let joined : Joined k (record { policy = p; source = k.stream; destination = fd })
                (u ++ t) =
              record {
                own = refl;
                opened = Any-append _ u t opened;
                ready = laws.ready_lasts k p fd u t ready;
              } in
            record {
              added = u;
              final = added;
              guarded = Quiet-Guarded (Guard k) {m = st.complete k p fd} t quiet;
              safe = rw (same, added) joined;
            }
        go (err x) e = record {
          added = (quiet.adds t).0;
          final = (quiet.adds t).1;
          guarded = Quiet-Guarded (Guard k) {m = st.complete k p fd} t quiet;
          safe = tt;
        }

    round-Moves :
        (k : Task) (started : ℕ) (s : Streams) (n : Next) (t : Trace)
        → Joined k s t
        → Moves k t (after_round st k started s n, t)
    unfolding after_round after_pump
    round-Moves k started s (continue ps) t j = record {
      added = [];
      final = refl;
      guarded = λ g. g;
      safe = j;
    }
    round-Moves k started s (finish ps (ok stats)) t j = record {
      added = [];
      final = refl;
      guarded = λ g. g;
      safe = j;
    }
    round-Moves k started s (finish ps (err e)) t j = record {
      added = [];
      final = refl;
      guarded = λ g. g;
      safe = tt;
    }

    pub advance-Moves :
        (k : Task) (g : Stage) (i : Input) (t : Trace)
        → IsSafe k g t
        → Moves k t (advance sys st k g i t)
    unfolding advance
    advance-Moves k accepted i t h = prepare-Moves k t
    advance-Moves k (prepared p fd) i t h = connect-Moves k p fd t h
    advance-Moves k (connected p fd) (now, a) t h = complete-Moves k p fd now t h
    advance-Moves k (pumping started s ps) (now, a) t h =
        round-Moves k started s
          (pump_step started (record { idle_timeout = idle_timeout st.global }) ps a) t h
    advance-Moves k (ended o) i t h = record {
      added = [];
      final = refl;
      guarded = λ g. g;
      safe = h;
    }

-- What holds of a task that runs in a process of the build.
pub record IsSafeTask (debug : Bool) (st : Os → Stages) (IsReady : Os → Readiness) (r : Running)
    : Type 0 where
  pub build : r.oracle.debug_assertions ≡ debug
  pub connects : Guarded (Guard r.oracle (st r.oracle) (IsReady r.oracle) r.task) r.calls
  pub safe : IsSafe r.oracle (st r.oracle) (IsReady r.oracle) r.task r.stage r.calls

abbrev pub IsSafeProcess : Bool → (Os → Stages) → (Os → Readiness) → Process → Type 0
IsSafeProcess debug st IsReady c = All (IsSafeTask debug st IsReady) c.running
