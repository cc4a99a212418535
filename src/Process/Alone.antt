-- ===== src/Process/Alone.antt =====
-- A task that runs without others between: the stages against `handle_connection` as a whole.
use rust_tcpao_proxy.Base.{ℕ, ◌≡◌, refl, Option, none, some, List, [], ◌∷◌, map, Result, ok, err}
use rust_tcpao_proxy.Error.{IoError, ProxyError}
use rust_tcpao_proxy.Config.{AoPolicyConfig, idle_timeout}
use rust_tcpao_proxy.Os.{Os, Trace, Action, ◌>>=◌, resume, from_io, sys_connect}
use rust_tcpao_proxy.Forward.{
  PumpOptions, PumpStats, PumpState, continue, finish, pump_step, pump_from, pump, fresh,
}
use rust_tcpao_proxy.Connection.{Streams, Outcome, relaying, broken, Task, after_pump, relay}
use rust_tcpao_proxy.Process.{
  Stages, Stage, accepted, prepared, connected, pumping, ended, Input, after_prepare, after_connect,
  after_complete, after_round, advance,
}

-- What `handle_connection` gives, for a task that has gone as far as `pump`.
unfoldable pub settled : Stage → Option Outcome
settled accepted = none
settled (prepared p socket) = none
settled (connected p stream) = none
settled (pumping started streams s) = some (relaying streams s)
settled (ended o) = some o

module _ (sys : Os) (st : Stages) where
  -- One task, woken up once for each input.
  unfoldable pub drive : Task → List Input → Stage × Trace → Stage × Trace
  unfolding advance
  drive k [] (g, t) = (g, t)
  drive k (i ∷ is) (g, t) = drive k is (advance sys st k g i t)

  -- The set-up in one piece.
  abbrev pub set_up : Task → Action ProxyError Streams
  set_up k = st.prepare k >>= λ (p, socket).
      from_io (sys_connect sys socket st.target) >>= λ stream. st.complete k p stream

  pub drive-ended :
      (k : Task) (is : List Input) (o : Outcome) (t : Trace)
      → drive k is (ended o, t) ≡ (ended o, t)
  unfolding drive
  drive-ended k [] o t = refl
  drive-ended k (i ∷ is) o t = drive-ended k is o t

  abbrev options : PumpOptions
  options = record { idle_timeout = idle_timeout st.global }

  -- The stage that a run of `pump` stands for.
  abbrev pumped : Task → ℕ → Streams → Option (Result IoError PumpStats) × PumpState → Stage
  pumped k started streams (none, s) = pumping started streams s
  pumped k started streams (some r, s) =
      ended (after_pump st.mode k.conn_id k.peer streams (some r, s))

  drive-pumping :
      (k : Task) (started : ℕ) (streams : Streams) (is : List Input) (s : PumpState) (t : Trace)
      → drive k is (pumping started streams s, t)
        ≡ (pumped k started streams (pump_from started options s (map (λ i. i.1) is)), t)
  unfolding drive pump_from
  drive-pumping k started streams [] s t = refl
  drive-pumping k started streams (i ∷ is) s t =
      (elim (pump_step started options s i.1)
        as (λ n. drive k is (after_round st k started streams n, t) ≡ (
          pumped k started streams (elim n [
            | continue s' ↦ pump_from started options s' (map (λ j. j.1) is)
            | finish s' r ↦ (some r, s')
          ]),
          t,
        )) [
          | continue s' ↦ drive-pumping k started streams is s' t
          | finish s' r ↦
              drive-ended k is (after_pump st.mode k.conn_id k.peer streams (some r, s')) t
        ])

  settled-pumped :
      (k : Task) (started : ℕ) (streams : Streams)
      (r : Option (Result IoError PumpStats) × PumpState)
      → settled (pumped k started streams r) ≡ some (after_pump st.mode k.conn_id k.peer streams r)
  unfolding settled after_pump
  settled-pumped k started streams (none, s) = refl
  settled-pumped k started streams (some r, s) = refl

  -- The stage and the trace are those of the set-up `r` and of `pump` on the arrivals.
  pub record Agrees (k : Task) (started : ℕ) (is : List Input)
      (r : Result ProxyError Streams × Trace) (g : Stage × Trace) : Type 0 where
    pub outcome :
        settled g.0
        ≡ some (relay st.mode k.conn_id k.peer st.global started (map (λ i. i.1) is) r.0)
    pub calls : g.1 ≡ r.1

  failed-Agrees :
      (k : Task) (started : ℕ) (is js : List Input) (e : ProxyError) (t : Trace)
      → Agrees k started is (err e, t) (drive k js (ended (broken none e), t))
  unfolding settled relay
  failed-Agrees k started is js e t =
      let same = drive-ended k js (broken none e) t in
      record { outcome = rw same refl; calls = rw same refl }

  complete-Agrees :
      (k : Task) (started : ℕ) (is : List Input) (r : Result ProxyError Streams × Trace)
      → Agrees k started is r (drive k is (after_complete started r))
  unfolding after_complete relay pump
  complete-Agrees k started is (ok s, t) =
      let same = drive-pumping k started s is fresh t in
      record {
        outcome =
            rw same
              (settled-pumped k started s (pump_from started options fresh (map (λ i. i.1) is)));
        calls = rw same refl;
      }
  complete-Agrees k started is (err e, t) = failed-Agrees k started is is e t

  connect-Agrees :
      (k : Task) (p : AoPolicyConfig) (i : Input) (is : List Input)
      (r : Result ProxyError ℕ × Trace)
      → Agrees k i.0 is
          (resume (λ stream. st.complete k p stream) r)
          (drive k (i ∷ is) (after_connect p r))
  unfolding after_connect drive
  connect-Agrees k p i is (ok stream, t) = complete-Agrees k i.0 is (st.complete k p stream t)
  connect-Agrees k p i is (err e, t) = failed-Agrees k i.0 is (i ∷ is) e t

  prepare-Agrees :
      (k : Task) (i j : Input) (is : List Input)
      (r : Result ProxyError (AoPolicyConfig × ℕ) × Trace)
      → Agrees k j.0 is
          (resume
            (λ (p, socket).
              from_io (sys_connect sys socket st.target) >>= λ stream. st.complete k p stream)
            r)
          (drive k (i ∷ j ∷ is) (after_prepare r))
  unfolding after_prepare drive
  prepare-Agrees k i j is (ok (p, socket), t) =
      connect-Agrees k p j is (from_io (sys_connect sys socket st.target) t)
  prepare-Agrees k i j is (err e, t) = failed-Agrees k j.0 is (i ∷ j ∷ is) e t

  -- A task that is woken up without others between, three times and then once for each arrival, is
  -- set up in one piece, and then relays.
  pub drive-Agrees :
      (k : Task) (h i j : Input) (is : List Input) (t : Trace)
      → Agrees k j.0 is (set_up k t) (drive k (h ∷ i ∷ j ∷ is) (accepted, t))
  unfolding drive
  drive-Agrees k h i j is t = prepare-Agrees k i j is (st.prepare k t)
