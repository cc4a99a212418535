-- ===== src/Calls/Program.antt =====
-- The calls of the whole program, from `main` of cmd/tcpao-proxy/main.rs on.
use mathlib.Core.Path.{subst}
use rust_tcpao_proxy.Base.{ℕ, ◌≡◌, refl, List, [], ◌∷◌, All, Text, Result, ok, map_err, ok-eq}
use rust_tcpao_proxy.Error.{IoError, ProxyError, io_error, toml}
use rust_tcpao_proxy.Net.{SocketAddr}
use rust_tcpao_proxy.Config.{Config, Mode, load, validate}
use rust_tcpao_proxy.Os.{Os, Event, Action, ◌>>=◌, pure, from_io, fs_read_to_string}
use rust_tcpao_proxy.Os.Invert.{map_err-ok}
use rust_tcpao_proxy.Connection.{Task, Visit, Handled, accept_loop}
use rust_tcpao_proxy.Connection.Accept.{visits, All-tasks}
use rust_tcpao_proxy.Initiator
use rust_tcpao_proxy.Terminator
use rust_tcpao_proxy.Main.{
  Cli, to_mode, chosen_format, init_tracing, Ran, checked_only, serving, run_mode, run,
}
use rust_tcpao_proxy.Calls.{
  Fits, FitsAddr, IsTypedOs, IsTypedPolicy, Sends, SendsOnly, Sends-lift, Sends-bind, Sends-then,
  Sends-map, Sends-if, Sends-call,
}
use rust_tcpao_proxy.Calls.Options.{SendsOnly-lift}
use rust_tcpao_proxy.Calls.Modes.{initiator_task-Fits, terminator_task-Fits, added-Fits}
use rust_tcpao_proxy.Calls.Starts.{FitsTarget, Sends-start_initiator, Sends-start_terminator}

-- The policies that the parser gives are values of their types.
abbrev pub IsTypedToml : (Text → Result Text Config) → Type 0
IsTypedToml parse_toml =
    (raw : Text) (c : Config) → parse_toml raw ≡ ok c → All IsTypedPolicy c.ao_policy

abbrev HasTyped : Config → Type 0
HasTyped c = All IsTypedPolicy c.ao_policy

-- Every call of every task fits.
abbrev pub TasksFit : Ran → Type 0
TasksFit checked_only = Unit
TasksFit (serving mode s) = All (λ h. All Fits h.calls) s.loop.tasks

module _ (incoming : List (Result IoError Visit))
    (typed_visits : All (λ v. IsTypedOs v.oracle) (visits incoming)) where
  serving-TasksFit :
      (sys : Os) (mode : Mode) (m : Action ProxyError (ℕ × SocketAddr))
      (body : SocketAddr → Task → Visit → Handled)
      → Sends FitsTarget m
      → ((a : SocketAddr)
          → FitsAddr a
          → (k : Task) (v : Visit) → IsTypedOs v.oracle
          → All Fits (body a k v).calls)
      → Sends TasksFit (
          (m >>= λ (fd, a).
          pure (record { listener = fd; target = a; loop = accept_loop (body a) 1 incoming }))
          >>= λ s. pure (serving mode s))
  serving-TasksFit sys mode m body starts fits =
      Sends-bind (λ s. All (λ h. All Fits h.calls) s.loop.tasks) TasksFit _ _
        (Sends-bind FitsTarget _ m _ starts λ (fd, a) fits_a.
          Sends-lift _
            (ok (record { listener = fd; target = a; loop = accept_loop (body a) 1 incoming }))
            λ s e.
              subst (λ x. All (λ h. All Fits h.calls) x.loop.tasks) (ok-eq e)
                (All-tasks (body a) (λ v. IsTypedOs v.oracle) (λ h. All Fits h.calls)
                  (fits a fits_a) 1 incoming typed_visits))
        λ s h. Sends-lift TasksFit (ok (serving mode s)) (λ r e. subst TasksFit (ok-eq e) h)

  Sends-run_mode :
      (sys : Os) (mode : Mode) (c : Config)
      → IsTypedOs sys
      → HasTyped c
      → Sends TasksFit (run_mode sys mode c incoming)
  unfolding run_mode Initiator.run Terminator.run
  Sends-run_mode sys Mode.initiator c typed h =
      serving-TasksFit sys Mode.initiator (Initiator.start sys c)
        (λ a. Initiator.serve a c.ao_policy c.global) (Sends-start_initiator sys typed c)
        (λ a fits. initiator_task-Fits a c.ao_policy c.global fits h)
  Sends-run_mode sys Mode.terminator c typed h =
      serving-TasksFit sys Mode.terminator (Terminator.start sys c)
        (λ a. Terminator.serve a c.ao_policy c.global) (Sends-start_terminator sys typed c h)
        (λ a fits. terminator_task-Fits a c.ao_policy c.global fits h)

  module _ (sys : Os) (typed : IsTypedOs sys) (parse_toml : Text → Result Text Config)
      (typed_toml : IsTypedToml parse_toml) where
    Sends-load : (path : Text) → Sends HasTyped (load sys parse_toml path)
    unfolding load
    Sends-load path =
        Sends-bind (λ _. Unit) HasTyped (from_io (fs_read_to_string sys path)) _
          (Sends-map _ io_error (fs_read_to_string sys path)
            (Sends-call _ (λ t. Event.read_file path) (λ t. tt)))
          λ raw _.
            Sends-lift HasTyped (map_err toml (parse_toml raw))
              λ c e. typed_toml raw c (map_err-ok toml (parse_toml raw) e)

    SendsOnly-init_tracing :
        (cli : Cli) (c : Config)
        → SendsOnly {E = ProxyError} (init_tracing sys (chosen_format cli c))
    unfolding init_tracing
    SendsOnly-init_tracing cli c = record {
      adds = λ t. (Event.init_subscriber _ _ ∷ [], refl, (tt, tt));
      gives = λ t a _. tt;
    }

    Sends-run : (cli : Cli) → Sends TasksFit (run sys parse_toml cli incoming)
    unfolding run
    Sends-run cli =
        Sends-bind HasTyped TasksFit (load sys parse_toml cli.config) _ (Sends-load cli.config)
          λ c h. Sends-then _ _ _ (SendsOnly-init_tracing cli c) (
            Sends-then _ _ _ (SendsOnly-lift sys (validate c (to_mode cli.mode))) (
              Sends-if TasksFit cli.dry_run _ _
                (Sends-lift TasksFit (ok checked_only) (λ r e. subst TasksFit (ok-eq e) tt))
                (Sends-run_mode sys (to_mode cli.mode) c typed h)))

-- Where the files, the variables and the policies that are read are values of their types, every call
-- of the program, of its start and of each of its tasks, passes arguments that fit their C types: a
-- key request is a `tcp_ao_add` with its fields in range, an integer option is a `c_int`, and an
-- address and the length of the queue of a listener are in range.
pub run-Fits :
    (incoming : List (Result IoError Visit)) (sys : Os) (parse_toml : Text → Result Text Config)
    (cli : Cli)
    → All (λ v. IsTypedOs v.oracle) (visits incoming)
    → IsTypedOs sys
    → IsTypedToml parse_toml
    → All Fits (run sys parse_toml cli incoming []).1
      × ((r : Ran) → (run sys parse_toml cli incoming []).0 ≡ ok r → TasksFit r)
run-Fits incoming sys parse_toml cli typed_visits typed typed_toml =
    let sends = Sends-run incoming typed_visits sys typed parse_toml typed_toml cli in
    (added-Fits (run sys parse_toml cli incoming) sends, λ r. sends.gives [] r)
