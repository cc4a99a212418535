-- ===== src/Main/Startup.antt =====
-- What `run` of cmd/tcpao-proxy/main.rs checks before a mode starts, and what it runs then.
use mathlib.Core.Path.{subst}
use rust_tcpao_proxy.Base.{
  ◌≡◌, refl, ap, ◌∙◌, Bool, true, false, List, ◌∷◌, Text, Result, ok, err, if◌then◌else◌,
  Result-cases, inl, inr,
}
use rust_tcpao_proxy.Error.{IoError, ProxyError}
use rust_tcpao_proxy.Config.{Config, Mode, validate, load}
use rust_tcpao_proxy.Config.Valid.{IsValid, validate_iff}
use rust_tcpao_proxy.Os.{Os, Trace, read_file, Action, lift, pure, ◌>>◌}
use rust_tcpao_proxy.Os.Invert.{>>=-Splits, >>-Follows}
use rust_tcpao_proxy.Connection.{Visit, Serving}
use rust_tcpao_proxy.Main.{
  Cli, to_mode, chosen_format, init_tracing, Ran, checked_only, serving, run_mode, run,
}
use rust_tcpao_proxy.Main.Serves.{Loads, load-Loads, begun, Serves, IsServing, run_mode-IsServing}

-- What a run that succeeds ends as, and its calls: after those that every run begins with none, or
-- those that bring the listener of the mode up.
abbrev EndsAs :
    Bool → Os → Cli → Config → List (Result IoError Visit) → Ran → Trace → Trace → Type 0
EndsAs true sys cli c incoming r t out = (r ≡ checked_only) × (out ≡ begun sys cli c t)
EndsAs false sys cli c incoming r t out =
    IsServing sys (to_mode cli.mode) c incoming r (begun sys cli c t) out

pub Ends : Os → Cli → Config → List (Result IoError Visit) → Ran → Trace → Trace → Type 0
Ends sys cli c incoming r t out = EndsAs cli.dry_run sys cli c incoming r t out

serving-eq : {m k : Mode} {s u : Serving} → serving m s ≡ serving k u → (m ≡ k) × (s ≡ u)
serving-eq h = (cc, cc)

EndsAs-serving :
    (b : Bool) (sys : Os) (cli : Cli) (c : Config) (incoming : List (Result IoError Visit))
    (mode : Mode) (s : Serving) (t out : Trace)
    → EndsAs b sys cli c incoming (serving mode s) t out
    → (mode ≡ to_mode cli.mode) × Serves sys (to_mode cli.mode) c incoming s (begun sys cli c t) out
EndsAs-serving true sys cli c incoming mode s t out (e, _) = absurd cc
EndsAs-serving false sys cli c incoming mode s t out (u, e, serves) =
    let (is_mode, is_serving) = serving-eq e in (is_mode, rw is_serving serves)

-- A run that serves has served in the mode of the command line.
pub Ends-serving :
    (sys : Os) (cli : Cli) (c : Config) (incoming : List (Result IoError Visit)) (mode : Mode)
    (s : Serving) (t out : Trace)
    → Ends sys cli c incoming (serving mode s) t out
    → (mode ≡ to_mode cli.mode) × Serves sys (to_mode cli.mode) c incoming s (begun sys cli c t) out
unfolding Ends
Ends-serving sys cli c incoming mode s t out h =
    EndsAs-serving cli.dry_run sys cli c incoming mode s t out h

finish-Ends :
    (sys : Os) (cli : Cli) (c : Config) (incoming : List (Result IoError Visit)) (t out : Trace)
    (r : Ran) (b : Bool)
    → cli.dry_run ≡ b
    → ((if b then pure checked_only else run_mode sys (to_mode cli.mode) c incoming)
        (begun sys cli c t)).0
      ≡ ok r
    → out
      ≡ ((if b then pure checked_only else run_mode sys (to_mode cli.mode) c incoming)
          (begun sys cli c t)).1
    → Ends sys cli c incoming r t out
unfolding Ends
finish-Ends sys cli c incoming t out r true d h f =
    rw (ap (λ b. EndsAs b sys cli c incoming r t out) d) (cc (h), f)
finish-Ends sys cli c incoming t out r false d h f =
    rw (ap (λ b. EndsAs b sys cli c incoming r t out) d, f)
      (run_mode-IsServing sys (to_mode cli.mode) c incoming (begun sys cli c t) r h)

pub init_tracing-init :
    (sys : Os) (cli : Cli) (c : Config) (t : Trace)
    → init_tracing sys (chosen_format cli c) {E = ProxyError} (read_file cli.config ∷ t)
      ≡ (ok tt, begun sys cli c t)
unfolding init_tracing
init_tracing-init sys cli c t = refl

-- A run that succeeds has read the configuration from the file on the command line, then has set up
-- the log with the filter of the environment, or else `info`, and the format of the command line, or
-- else of the configuration, and that configuration is valid for the mode of the command line. With
-- `--dry-run` it made no other call; without it the mode's section was there, its two
-- addresses were parsed, that of the other end to a proper one, the listener of the mode was opened
-- at the other address, with no other call, and the loop of the mode has run over the outcomes of
-- `accept`, with tasks that connect to the address of the other end.
pub run-checked :
    (sys : Os) (parse_toml : Text → Result Text Config) (cli : Cli)
    (incoming : List (Result IoError Visit)) (t : Trace) (r : Ran)
    → (run sys parse_toml cli incoming t).0 ≡ ok r
    → (c : Config) × Loads sys parse_toml cli.config t c
      × IsValid c (to_mode cli.mode)
      × Ends sys cli c incoming r t (run sys parse_toml cli incoming t).1
unfolding run
run-checked sys parse_toml cli incoming t r h =
    let mode = to_mode cli.mode in
    let check : Config → Action ProxyError (Unit {0}) = λ c. lift (validate c mode) in
    let log : Config → Action ProxyError (Unit {0}) = λ c. init_tracing sys (chosen_format cli c) in
    let next : Config → Action ProxyError Ran =
      λ c. if cli.dry_run then pure checked_only else run_mode sys mode c incoming in
    let a = >>=-Splits (load sys parse_toml cli.config) (λ c. log c >> (check c >> next c)) t h in
    let c = a.value in
    let (loads, read) = load-Loads sys parse_toml cli.config t a.first in
    let t₁ = (load sys parse_toml cli.config t).1 in
    let b = >>-Follows (log c) (check c >> next c) t₁ a.second in
    let t₂ = (log c t₁).1 in
    let d = >>-Follows (check c) (next c) t₂ b.second in
    let logged : t₂ ≡ begun sys cli c t =
      ap (λ x. (log c x).1) read ∙ ap (λ x. x.1) (init_tracing-init sys cli c t) in
    (
      c,
      loads,
      (validate_iff c mode).0 d.first,
      finish-Ends sys cli c incoming t _ r cli.dry_run refl
          (subst (λ x. (next c x).0 ≡ ok r) logged d.second)
          (a.final ∙ b.final ∙ d.final ∙ ap (λ x. (next c x).1) logged),
    )

-- When the file holds a configuration that is not valid for the mode, the run is an error that made
-- no call but the reading of that file and the setting up of the log: no socket is made.
pub run-refuses :
    (sys : Os) (parse_toml : Text → Result Text Config) (cli : Cli)
    (incoming : List (Result IoError Visit)) (t : Trace) (c : Config)
    → Loads sys parse_toml cli.config t c
    → ¬ IsValid c (to_mode cli.mode)
    → (e : ProxyError) × (run sys parse_toml cli incoming t ≡ (err e, begun sys cli c t))
unfolding run load init_tracing
run-refuses sys parse_toml cli incoming t c l bad =
    elim (Result-cases (validate c (to_mode cli.mode))) [
      | inl (_, valid) ↦ absurd (bad ((validate_iff c (to_mode cli.mode)).0 valid))
      | inr (e, refused) ↦ (e, rw (l.reads, l.parses, refused) refl)
    ]
