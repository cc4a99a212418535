-- ===== src/Main/Serves.antt =====
-- The loading of the configuration and the `match` on the mode, of `run` of cmd/tcpao-proxy/main.rs.
use mathlib.Core.Path.{subst}
use rust_tcpao_proxy.Base.{ℕ, ◌≡◌, refl, List, ◌∷◌, Text, Result, ok, map_err, ok-eq}
use rust_tcpao_proxy.Error.{IoError, ProxyError, io_error, toml}
use rust_tcpao_proxy.Net.{SocketAddr}
use rust_tcpao_proxy.Config.{Config, Mode, load}
use rust_tcpao_proxy.Os.{
  Os, from_io, fs_read_to_string, Trace, read_file, init_subscriber, Action, lift, pure, ◌>>=◌,
}
use rust_tcpao_proxy.Os.Invert.{>>=-Splits, map_err-ok}
use rust_tcpao_proxy.Connection.{Visit, Listening, Serving, accept_loop}
use rust_tcpao_proxy.Initiator
use rust_tcpao_proxy.Terminator
use rust_tcpao_proxy.Main.Listens.{IsUp, start-initiator, start-terminator}
use rust_tcpao_proxy.Main.{Cli, chosen_format, filter_or_info, formatter, Ran, serving, run_mode}

-- The file that the command line names was read and gave this configuration.
pub record Loads (sys : Os) (parse_toml : Text → Result Text Config) (path : Text) (t : Trace)
    (c : Config) : Type 0 where
  pub raw : Text
  pub reads : sys.read_to_string t path ≡ ok raw
  pub parses : parse_toml raw ≡ ok c

pub load-Loads :
    (sys : Os) (parse_toml : Text → Result Text Config) (path : Text) (t : Trace) {c : Config}
    → (load sys parse_toml path t).0 ≡ ok c
    → Loads sys parse_toml path t c × ((load sys parse_toml path t).1 ≡ read_file path ∷ t)
unfolding load
load-Loads sys parse_toml path t h =
    let parse : Text → Action ProxyError Config = λ raw. lift (map_err toml (parse_toml raw)) in
    let s = >>=-Splits (from_io (fs_read_to_string sys path)) parse t h in
    (
      record {
        raw = s.value;
        reads = map_err-ok io_error (sys.read_to_string t path) s.first;
        parses = map_err-ok toml (parse_toml s.value) s.second;
      },
      s.final,
    )

-- The calls up to the check of the configuration: the file was read, and then the log was set up.
abbrev pub begun : Os → Cli → Config → Trace → Trace
begun sys cli c t =
    init_subscriber (filter_or_info (sys.default_env (read_file cli.config ∷ t)))
      (formatter (chosen_format cli c))
    ∷ read_file cli.config
    ∷ t

-- The loop of a mode that connects to the address, over the outcomes of `accept`.
abbrev pub mode_loop : Mode → SocketAddr → Config → List (Result IoError Visit) → Listening
mode_loop Mode.initiator a c incoming =
    accept_loop (Initiator.serve a c.ao_policy c.global) 1 incoming
mode_loop Mode.terminator a c incoming =
    accept_loop (Terminator.serve a c.ao_policy c.global) 1 incoming

-- The listener of the mode is up, and its loop has run.
pub record Serves (sys : Os) (mode : Mode) (c : Config) (incoming : List (Result IoError Visit))
    (s : Serving) (t out : Trace) : Type 0 where
  pub up : IsUp sys c mode s.listener s.target t out
  pub loops : s.loop ≡ mode_loop mode s.target c incoming

abbrev making : Mode → Config → List (Result IoError Visit) → ℕ × SocketAddr → Serving
making mode c incoming (fd, a) = record {
  listener = fd;
  target = a;
  loop = mode_loop mode a c incoming;
}

-- What starts a mode, and then loops, serves.
started-Serves :
    (sys : Os) (mode : Mode) (c : Config) (incoming : List (Result IoError Visit))
    (start : Action ProxyError (ℕ × SocketAddr)) (t : Trace)
    → ((r : ℕ × SocketAddr) → (start t).0 ≡ ok r → IsUp sys c mode r.0 r.1 t (start t).1)
    → {s : Serving} → ((start >>= λ r. pure (making mode c incoming r)) t).0 ≡ ok s
    → Serves sys mode c incoming s t ((start >>= λ r. pure (making mode c incoming r)) t).1
started-Serves sys mode c incoming start t up {s} h =
    let r = >>=-Splits start (λ r. pure (making mode c incoming r)) t h in
    let serves : Serves sys mode c incoming (making mode c incoming r.value) t (start t).1 =
      record { up = up r.value r.first; loops = refl } in
    rw (r.final) (subst (λ x. Serves sys mode c incoming x t (start t).1) (ok-eq r.second) serves)

-- The `match` on the mode.
abbrev pub IsServing :
    Os → Mode → Config → List (Result IoError Visit) → Ran → Trace → Trace → Type 0
IsServing sys mode c incoming r t out =
    (s : Serving) × (r ≡ serving mode s) × Serves sys mode c incoming s t out

pub run_mode-IsServing :
    (sys : Os) (mode : Mode) (c : Config) (incoming : List (Result IoError Visit)) (t : Trace)
    (r : Ran)
    → (run_mode sys mode c incoming t).0 ≡ ok r
    → IsServing sys mode c incoming r t (run_mode sys mode c incoming t).1
unfolding run_mode Initiator.run Terminator.run
run_mode-IsServing sys Mode.initiator c incoming t r h =
    let report : Serving → Action ProxyError Ran = λ s. pure (serving Mode.initiator s) in
    let a = >>=-Splits (Initiator.run sys c incoming) report t h in
    let up =
      started-Serves sys Mode.initiator c incoming (Initiator.start sys c) t
        (λ x e. start-initiator sys c t e) a.first in
    (a.value, cc (a.second), rw (a.final) up)
run_mode-IsServing sys Mode.terminator c incoming t r h =
    let report : Serving → Action ProxyError Ran = λ s. pure (serving Mode.terminator s) in
    let a = >>=-Splits (Terminator.run sys c incoming) report t h in
    let up =
      started-Serves sys Mode.terminator c incoming (Terminator.start sys c) t
        (λ x e. start-terminator sys c t e) a.first in
    (a.value, cc (a.second), rw (a.final) up)
