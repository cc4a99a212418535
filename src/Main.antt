-- ===== src/Main.antt =====
-- cmd/tcpao-proxy/main.rs: the command line, the checks before a mode starts, the mode, and the exit
-- status. The crate `clap` reads the command line: what it gives is a `Cli`, or, for a usage
-- error or `--help`, the status that it exits with and what it writes to the standard error. `Config::load` parses the file by the crate
-- `toml`, which is an argument.
pub mod Listens
pub mod Serves
pub mod Startup
pub mod Causes
pub mod Exits
pub mod Protects
mod Tests
use rust_tcpao_proxy.Base.{
  ℕ, Bool, Option, none, some, List, Text, codes, Result, ok, err, if◌then◌else◌,
}
use rust_tcpao_proxy.Error.{IoError, ProxyError, Message, str, end, display}
use rust_tcpao_proxy.Config.{Mode, LogFormat, Config, validate, load}
use rust_tcpao_proxy.Os.{
  Os, Formatter, Trace, Action, ◌>>=◌, ◌>>◌, pure, lift, init_fmt, try_default_env,
}
use rust_tcpao_proxy.Connection.{Visit, Serving}
use rust_tcpao_proxy.Initiator
use rust_tcpao_proxy.Terminator

pub data ModeArg : Type 0 where
  initiator terminator : ModeArg

pub data LogFormatArg : Type 0 where
  text json : LogFormatArg

pub record Cli : Type 0 where
  pub mode : ModeArg
  pub config : Text
  pub log_format : Option LogFormatArg
  pub dry_run : Bool

unfoldable pub to_mode : ModeArg → Mode
to_mode initiator = Mode.initiator
to_mode terminator = Mode.terminator

unfoldable pub to_log_format : LogFormatArg → LogFormat
to_log_format text = LogFormat.text
to_log_format json = LogFormat.json

-- The format that `init_tracing` is given: the command line's, or else the configuration's.
unfoldable pub chosen_format : Cli → Config → LogFormat
unfolding to_log_format
chosen_format cli config = elim cli.log_format [
  | some f ↦ to_log_format f
  | none ↦ config.global.log_format
]

-- What `run` has done when it returns, or while the loop of its mode runs.
pub data Ran : Type 0 where
  checked_only : Ran
  serving : Mode → Serving → Ran

-- The process, once `main` has returned or as long as it runs. With an error it says so on the
-- standard error and ends with status 1.
pub data Exit : Type 0 where
  runs : Exit
  exits : ℕ → Message → Exit

-- `unwrap_or_else(|_| EnvFilter::new("info"))`.
unfoldable pub filter_or_info : Option Text → Text
filter_or_info none = codes "info"
filter_or_info (some f) = f

unfoldable pub formatter : LogFormat → Formatter
formatter LogFormat.text = Formatter.compact
formatter LogFormat.json = Formatter.json

module _ (sys : Os) where
  unfoldable pub init_tracing : LogFormat → {E : Type 0} → Action E (Unit {0})
  unfolding filter_or_info formatter
  init_tracing log_format = do
    env_filter ← try_default_env sys
    init_fmt sys (filter_or_info env_filter) (formatter log_format)

  -- The `match` on the mode, with the outcomes of `accept`.
  unfoldable pub run_mode : Mode → Config → List (Result IoError Visit) → Action ProxyError Ran
  unfolding Initiator.run Terminator.run
  run_mode Mode.initiator config incoming = do
    s ← Initiator.run sys config incoming
    pure (serving Mode.initiator s)
  run_mode Mode.terminator config incoming = do
    s ← Terminator.run sys config incoming
    pure (serving Mode.terminator s)

  unfoldable pub run :
      (Text → Result Text Config) → Cli → List (Result IoError Visit) → Action ProxyError Ran
  unfolding load to_mode validate init_tracing chosen_format run_mode
  run parse_toml cli incoming = do
    config ← load sys parse_toml cli.config
    init_tracing (chosen_format cli config)
    lift (validate config (to_mode cli.mode))
    if cli.dry_run then pure checked_only else run_mode (to_mode cli.mode) config incoming

unfoldable pub failed : ProxyError → Exit
unfolding display
failed e = exits 1 (str "error: " (display e))

-- `main`, after `run`: an error of `accept` is one of `run`, too.
unfoldable pub after_run : Result ProxyError Ran → Exit
unfolding failed
after_run (err e) = failed e
after_run (ok checked_only) = exits 0 end
after_run (ok (serving mode s)) = elim s.loop.ended [ none ↦ runs | some e ↦ failed e ]

-- `main`, on what `clap` made of the command line.
unfoldable pub main :
    Os
    → (Text → Result Text Config)
    → Result (ℕ × Message) Cli
    → List (Result IoError Visit)
    → Trace
    → Exit × Trace
unfolding run after_run
main sys parse_toml (err (status, said)) incoming t = (exits status said, t)
main sys parse_toml (ok cli) incoming t =
    let (r, t') = run sys parse_toml cli incoming t in (after_run r, t')
