-- ===== src/Main/Causes.antt =====
-- Why a run of `main` of cmd/tcpao-proxy/main.rs ends.
use rust_tcpao_proxy.Base.{ℕ, ◌≡◌, true, false, none, some, List, Text, Result, ok, err, arith}
use rust_tcpao_proxy.Error.{IoError, ProxyError, io_error, toml, str, end, display}
use rust_tcpao_proxy.Net.{SocketAddr}
use rust_tcpao_proxy.Config.{Config, Mode, validate}
use rust_tcpao_proxy.Config.Valid.{IsValid}
use rust_tcpao_proxy.Os.{Os, Trace, Action, ◌>>=◌, resume, pure}
use rust_tcpao_proxy.Connection.{Visit, Serving}
use rust_tcpao_proxy.Connection.Accept.{failure, end_of, accept_loop-serves}
use rust_tcpao_proxy.Initiator
use rust_tcpao_proxy.Terminator
use rust_tcpao_proxy.Main.Serves.{Loads, begun, mode_loop, Serves}
use rust_tcpao_proxy.Main.{Cli, to_mode, serving, run_mode, run, Exit, runs, exits}

-- `run` of a mode, up to its loop.
abbrev pub start_of : Os → Mode → Config → Action ProxyError (ℕ × SocketAddr)
start_of sys Mode.initiator c = Initiator.start sys c
start_of sys Mode.terminator c = Terminator.start sys c

module _ (sys : Os) (parse_toml : Text → Result Text Config) (cli : Cli)
    (incoming : List (Result IoError Visit)) (t : Trace) where
  -- The configuration that the mode starts with, in a run that is more than a check.
  pub record Starts (c : Config) : Type 0 where
    pub loads : Loads sys parse_toml cli.config t c
    pub valid : IsValid c (to_mode cli.mode)
    pub wanted : cli.dry_run ≡ false

  -- Why the program fails.
  pub data Cause (e : ProxyError) : Type 0 where
    unread : (x : IoError) → sys.read_to_string t cli.config ≡ err x → e ≡ io_error x → Cause e
    unparsed :
        (raw m : Text)
        → sys.read_to_string t cli.config ≡ ok raw
        → parse_toml raw ≡ err m
        → e ≡ toml m
        → Cause e
    invalid :
        (c : Config)
        → Loads sys parse_toml cli.config t c
        → ¬ IsValid c (to_mode cli.mode)
        → validate c (to_mode cli.mode) ≡ err e
        → Cause e
    unstarted :
        (c : Config)
        → Starts c
        → (start_of sys (to_mode cli.mode) c (begun sys cli c t)).0 ≡ err e
        → Cause e
    unaccepted :
        (c : Config) (s : Serving) (x : IoError)
        → Starts c
        → Serves sys
            (to_mode cli.mode)
            c
            incoming
            s
            (begun sys cli c t)
            (run sys parse_toml cli incoming t).1
        → failure incoming ≡ some x
        → e ≡ io_error x
        → Cause e

  -- How a run of the program ends, if it does.
  pub data Ended (x : Exit) : Type 0 where
    is_running :
        (c : Config) (s : Serving)
        → Starts c
        → Serves sys
            (to_mode cli.mode)
            c
            incoming
            s
            (begun sys cli c t)
            (run sys parse_toml cli incoming t).1
        → failure incoming ≡ none
        → x ≡ runs
        → Ended x
    is_checked :
        (c : Config)
        → Loads sys parse_toml cli.config t c
        → IsValid c (to_mode cli.mode)
        → cli.dry_run ≡ true
        → x ≡ exits 0 end
        → Ended x
    is_failed : (e : ProxyError) → Cause e → x ≡ exits 1 (str "error: " (display e)) → Ended x

pub loop_ends :
    (mode : Mode) (a : SocketAddr) (c : Config) (incoming : List (Result IoError Visit))
    → (mode_loop mode a c incoming).ended ≡ end_of (failure incoming)
loop_ends Mode.initiator a c incoming = (accept_loop-serves _ 1 incoming (omega arith)).2
loop_ends Mode.terminator a c incoming = (accept_loop-serves _ 1 incoming (omega arith)).2

unstarted-err :
    {A B : Type 0} (m : Action ProxyError A) (f : A → B) (t : Trace) {e : ProxyError}
    → ((m >>= λ a. pure (f a)) t).0 ≡ err e
    → (m t).0 ≡ err e
unstarted-err {A} {B} m f t {e} h = go (m t) h
  where
    go : (r : Result ProxyError A × Trace) → (resume (λ a. pure (f a)) r).0 ≡ err e → r.0 ≡ err e
    go (ok a, u) k = absurd cc
    go (err x, u) k = cc

pub run_mode-err :
    (sys : Os) (mode : Mode) (c : Config) (incoming : List (Result IoError Visit)) (t : Trace)
    {e : ProxyError}
    → (run_mode sys mode c incoming t).0 ≡ err e
    → (start_of sys mode c t).0 ≡ err e
unfolding run_mode Initiator.run Terminator.run
run_mode-err sys Mode.initiator c incoming t h =
    unstarted-err (Initiator.start sys c) _ t
      (unstarted-err (Initiator.run sys c incoming) (serving Mode.initiator) t h)
run_mode-err sys Mode.terminator c incoming t h =
    unstarted-err (Terminator.start sys c) _ t
      (unstarted-err (Terminator.run sys c incoming) (serving Mode.terminator) t h)
