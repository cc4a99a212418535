-- ===== src/Process.antt =====
-- The process of a mode: the loop of `run` in src/mode_initiator.rs and src/mode_terminator.rs, and
-- the tasks that it spawns, in parallel. The model cuts a task where `handle_connection` awaits: before
-- `connect`, after it, and in each round of `pump`. What runs between is one step, for a task acts
-- on its own sockets and shares nothing with the others but the counter, which the loop reads.
pub mod Laws
pub mod Safe
pub mod Alone
pub mod Refines
pub mod Setup
pub mod Numbers
mod Tests
use rust_tcpao_proxy.Base.{Bool, ℕ, ◌≡◌, Option, none, some, List, [], ◌∷◌, ◌++◌, Result, ok, err}
use rust_tcpao_proxy.Error.{IoError, ProxyError, io_error}
use rust_tcpao_proxy.Net.{SocketAddr}
use rust_tcpao_proxy.Config.{Mode, AoPolicyConfig, GlobalConfig, idle_timeout}
use rust_tcpao_proxy.Os.{Os, Trace, Action, ◌>>=◌, from_io, sys_connect}
use rust_tcpao_proxy.Forward.{PumpState, Arrival, Next, continue, finish, pump_step, fresh}
use rust_tcpao_proxy.Connection.{Streams, Outcome, relaying, broken, after_pump, Task, fetch_add}

-- What a mode does for a connection before and after `connect`.
pub record Stages : Type 0 where
  pub mode : Mode
  pub global : GlobalConfig
  -- the address that connections are opened to
  pub target : SocketAddr
  -- up to `connect`: the policy and the socket
  pub prepare : Task → Action ProxyError (AoPolicyConfig × ℕ)
  -- from the connected stream up to `pump`
  pub complete : Task → AoPolicyConfig → ℕ → Action ProxyError Streams

-- Where a task has got to.
pub data Stage : Type 0 where
  accepted : Stage
  prepared : AoPolicyConfig → ℕ → Stage
  connected : AoPolicyConfig → ℕ → Stage
  -- since when, between which streams, and how far
  pumping : ℕ → Streams → PumpState → Stage
  ended : Outcome → Stage

-- What a task waits for: the time, and, while it relays, what `tokio::select!` waited for.
abbrev pub Input : Type 0
Input = ℕ × Arrival

unfoldable pub after_prepare : Result ProxyError (AoPolicyConfig × ℕ) × Trace → Stage × Trace
after_prepare (ok (p, socket), t) = (prepared p socket, t)
after_prepare (err e, t) = (ended (broken none e), t)

unfoldable pub after_connect : AoPolicyConfig → Result ProxyError ℕ × Trace → Stage × Trace
after_connect p (ok stream, t) = (connected p stream, t)
after_connect p (err e, t) = (ended (broken none e), t)

unfoldable pub after_complete : ℕ → Result ProxyError Streams × Trace → Stage × Trace
after_complete now (ok streams, t) = (pumping now streams fresh, t)
after_complete now (err e, t) = (ended (broken none e), t)

unfoldable pub after_round : Stages → Task → ℕ → Streams → Next → Stage
unfolding after_pump
after_round st k started streams (continue s) = pumping started streams s
after_round st k started streams (finish s r) =
    ended (after_pump st.mode k.conn_id k.peer streams (some r, s))

module _ (sys : Os) (st : Stages) where
  -- A task runs until it waits again.
  unfoldable pub advance : Task → Stage → Input → Trace → Stage × Trace
  unfolding after_prepare after_connect after_complete after_round pump_step idle_timeout
  advance k accepted i t = after_prepare (st.prepare k t)
  advance k (prepared p socket) i t = after_connect p (from_io (sys_connect sys socket st.target) t)
  advance k (connected p stream) (now, a) t = after_complete now (st.complete k p stream t)
  advance k (pumping started streams s) (now, a) t = (
    after_round st k started streams
        (pump_step started (record { idle_timeout = idle_timeout st.global }) s a),
    t,
  )
  advance k (ended o) i t = (ended o, t)

-- A task that was spawned. It has a system of its own, which answers its calls: what the kernel
-- answers depends on what all tasks have done, so nothing relates the answers that two tasks get.
pub record Running : Type 0 where
  pub task : Task
  pub oracle : Os
  pub stage : Stage
  -- the calls that this task has made
  pub calls : Trace

-- The process; once `accept` has failed, `main` returns and with it all tasks end.
pub record Process : Type 0 where
  pub next_id : ℕ
  pub running : List Running
  pub stopped : Option ProxyError

abbrev pub start : Process
start = record { next_id = 1; running = []; stopped = none }

abbrev pub spawn : Task → Os → Running
spawn k sys = record { task = k; oracle = sys; stage = accepted; calls = [] }

abbrev pub spawned : Process → ℕ → SocketAddr → Os → Process
spawned c stream peer sys = record c {
  next_id = fetch_add c.next_id;
  running = spawn (record { conn_id = c.next_id; stream = stream; peer = peer }) sys ∷ c.running;
}

abbrev pub moved : Running → Stage × Trace → Running
moved r (stage, calls) = record r { stage = stage; calls = calls }

-- A step of the process, for a build with or without debug assertions and the stages of its mode:
-- the loop accepts a connection or fails, or one task runs until it waits again.
pub data Step (debug : Bool) (st : Os → Stages) (c d : Process) : Type 0 where
  accept :
      (stream : ℕ) (peer : SocketAddr) (sys : Os)
      → c.stopped ≡ none
      → sys.debug_assertions ≡ debug
      → d ≡ spawned c stream peer sys
      → Step debug st c d
  fail :
      (e : IoError)
      → c.stopped ≡ none
      → d ≡ record c { stopped = some (io_error e) }
      → Step debug st c d
  run :
      (before after : List Running) (r : Running) (i : Input)
      → c.stopped ≡ none
      → c.running ≡ before ++ r ∷ after
      → d ≡ record c {
        running =
            before ++ moved r (advance r.oracle (st r.oracle) r.task r.stage i r.calls) ∷ after;
      }
      → Step debug st c d

pub data Reach (debug : Bool) (st : Os → Stages) (c : Process) : Process → Type 0 where
  here : Reach debug st c c
  next : {d e : Process} → Reach debug st c d → Step debug st d e → Reach debug st c e
