-- ===== src/Main/Exits.antt =====
-- How `main` of cmd/tcpao-proxy/main.rs ends: its exit status and what it writes to the standard error.
use rust_tcpao_proxy.Base.{
  ℕ, err, ◌≡◌, refl, ap, ◌∙◌, ◌↔◌, true, Bool-cases, Option-cases, List, Text, Result, ok,
  if◌then◌else◌, Result-cases, inl, inr, arith,
}
use rust_tcpao_proxy.Error.{Message, IoError, io_error, toml, end}
use rust_tcpao_proxy.Config.{Config, validate, load}
use rust_tcpao_proxy.Config.Valid.{IsValid, validate_iff}
use rust_tcpao_proxy.Os.{Os, Trace, resume, pure}
use rust_tcpao_proxy.Connection.{Visit, Serving}
use rust_tcpao_proxy.Connection.Accept.{failure, end_of}
use rust_tcpao_proxy.Main.Serves.{Loads, begun, Serves, run_mode-IsServing}
use rust_tcpao_proxy.Main.{
  Cli, to_mode, checked_only, serving, run_mode, run, Exit, exits, after_run, failed, main,
  init_tracing,
}
use rust_tcpao_proxy.Main.Causes.{
  Starts, unread, unparsed, invalid, unstarted, unaccepted, Ended, is_running, is_checked,
  is_failed, loop_ends, run_mode-err,
}

exits-eq :
    {status : ℕ} {said : Message} → exits status said ≡ exits 0 end → (status ≡ 0) × (said ≡ end)
exits-eq h = (cc, cc)

module _ (sys : Os) (parse_toml : Text → Result Text Config) (cli : Cli)
    (incoming : List (Result IoError Visit)) (t : Trace) where
  -- A mode that runs goes on, or ends by an error of `accept`.
  served-Ended :
      (c : Config) (s : Serving)
      → Starts sys parse_toml cli incoming t c
      → Serves sys
          (to_mode cli.mode)
          c
          incoming
          s
          (begun sys cli c t)
          (run sys parse_toml cli incoming t).1
      → Ended sys parse_toml cli incoming t (after_run (ok (serving (to_mode cli.mode) s)))
  unfolding after_run end_of
  served-Ended c s starts serves =
      let ends : s.loop.ended ≡ end_of (failure incoming) =
        ap (λ l. l.ended) serves.loops ∙ loop_ends (to_mode cli.mode) s.target c incoming in
      elim (Option-cases (failure incoming)) [
        | inl none_fails ↦ is_running c s starts serves none_fails (rw (ends, none_fails) refl)
        | inr (x, fails) ↦
            is_failed (io_error x) (unaccepted c s x starts serves fails refl)
              (rw (ends, fails) refl)
      ]

  mode-Ended :
      (c : Config)
      → Starts sys parse_toml cli incoming t c
      → run sys parse_toml cli incoming t
        ≡ run_mode sys (to_mode cli.mode) c incoming (begun sys cli c t)
      → Ended sys parse_toml cli incoming t (after_run (run sys parse_toml cli incoming t).0)
  unfolding after_run failed
  mode-Ended c starts same =
      let out = run_mode sys (to_mode cli.mode) c incoming (begun sys cli c t) in
      elim (Result-cases out.0) [
        | inl (r, e) ↦
            let (s, is, serves) =
              run_mode-IsServing sys (to_mode cli.mode) c incoming (begun sys cli c t) r e in
            let calls : Serves sys (to_mode cli.mode) c incoming s (begun sys cli c t)
                (run sys parse_toml cli incoming t).1 =
              rw same serves in
            let ran : (run sys parse_toml cli incoming t).0 ≡ ok (serving (to_mode cli.mode) s) =
              ap (λ x. x.0) same ∙ e ∙ ap ok is in
            rw ran (served-Ended c s starts calls)
        | inr (x, e) ↦
            let start = run_mode-err sys (to_mode cli.mode) c incoming (begun sys cli c t) e in
            is_failed x (unstarted c starts start) (rw (same, e) refl)
      ]

  -- The run of a configuration that was loaded.
  run_loaded :
      (c : Config)
      → Loads sys parse_toml cli.config t c
      → run sys parse_toml cli incoming t
        ≡ resume
            (λ _.
              if cli.dry_run then pure checked_only else run_mode sys (to_mode cli.mode) c incoming)
            (validate c (to_mode cli.mode), begun sys cli c t)
  unfolding run load init_tracing
  run_loaded c l = rw (l.reads, l.parses) refl

  loaded-Ended :
      (c : Config)
      → Loads sys parse_toml cli.config t c
      → Ended sys parse_toml cli incoming t (after_run (run sys parse_toml cli incoming t).0)
  unfolding after_run failed
  loaded-Ended c l =
      let same = run_loaded c l in
      elim (Result-cases (validate c (to_mode cli.mode))) [
        | inr (e, refused) ↦
            let bad : ¬ IsValid c (to_mode cli.mode) =
              λ v. absurd (let k = (validate_iff c (to_mode cli.mode)).1 v in cc) in
            is_failed e (invalid c l bad refused) (rw (same, refused) refl)
        | inl (_, passed) ↦
            let valid = (validate_iff c (to_mode cli.mode)).0 passed in
            elim (Bool-cases cli.dry_run) [
              | inl dry ↦ is_checked c l valid dry (rw (same, passed, dry) refl)
              | inr wanted ↦
                  mode-Ended c (record { loads = l; valid = valid; wanted = wanted })
                    (same ∙ rw (passed, wanted) refl)
            ]
      ]

  -- However the system answers, whatever `toml` makes of the file, and for every command line that
  -- `clap` takes, `main` either runs on, once it serves a configuration that was loaded and is valid, as
  -- long as no `accept` has failed; or ends with status 0 after checking such a configuration with
  -- `--dry-run`; or ends with status 1 and the text `error: ` with that of an error, of which the cause
  -- is that the file could not be read, or not be parsed, or is not valid for the mode, or that the mode
  -- could not start, or that an `accept` failed.
  pub main-Ended : Ended sys parse_toml cli incoming t (main sys parse_toml (ok cli) incoming t).0
  unfolding main run load after_run failed
  main-Ended = elim (Result-cases (sys.read_to_string t cli.config)) [
    | inr (x, unreadable) ↦ is_failed (io_error x) (unread x unreadable refl) (rw unreadable refl)
    | inl (raw, reads) ↦ elim (Result-cases (parse_toml raw)) [
      | inr (m, refused) ↦
          is_failed (toml m) (unparsed raw m reads refused refl) (rw (reads, refused) refl)
      | inl (c, parses) ↦ loaded-Ended c (record { raw = raw; reads = reads; parses = parses })
    ]
  ]

  exits_checked :
      {x : Exit}
      → Ended sys parse_toml cli incoming t x
      → x ≡ exits 0 end
      → (cli.dry_run ≡ true)
        × ((c : Config) × Loads sys parse_toml cli.config t c × IsValid c (to_mode cli.mode))
  exits_checked (is_running c s starts serves none_fails e) h = absurd cc
  exits_checked (is_checked c l valid dry e) h = (dry, (c, l, valid))
  exits_checked (is_failed x why e) h = absurd (ground arith)

-- When the program ends with status 0 and nothing on the standard error: `clap` ended it so, as for
-- `--help`, or it only had to check a configuration, which is valid.
pub data EndsWell (sys : Os) (parse_toml : Text → Result Text Config) (t : Trace)
    (parsed : Result (ℕ × Message) Cli) : Type 0 where
  by_clap : parsed ≡ err (0, end) → EndsWell sys parse_toml t parsed
  by_check :
      (cli : Cli) (c : Config)
      → parsed ≡ ok cli
      → cli.dry_run ≡ true
      → Loads sys parse_toml cli.config t c
      → IsValid c (to_mode cli.mode)
      → EndsWell sys parse_toml t parsed

module _ (sys : Os) (parse_toml : Text → Result Text Config)
    (incoming : List (Result IoError Visit)) (t : Trace) where
  exits-EndsWell :
      (parsed : Result (ℕ × Message) Cli)
      → (main sys parse_toml parsed incoming t).0 ≡ exits 0 end
      → EndsWell sys parse_toml t parsed
  unfolding main after_run
  exits-EndsWell (err (status, said)) h = let (e, f) = exits-eq h in by_clap (rw (e, f) refl)
  exits-EndsWell (ok cli) h =
      let (dry, (c, l, valid)) =
        exits_checked sys parse_toml cli incoming t (main-Ended sys parse_toml cli incoming t) h in
      by_check cli c refl dry l valid

  EndsWell-exits :
      (parsed : Result (ℕ × Message) Cli)
      → EndsWell sys parse_toml t parsed
      → (main sys parse_toml parsed incoming t).0 ≡ exits 0 end
  unfolding main after_run
  EndsWell-exits parsed (by_clap e) = rw e refl
  EndsWell-exits parsed (by_check cli c e dry l valid) =
      rw
        (
          e,
          run_loaded sys parse_toml cli incoming t c l,
          (validate_iff c (to_mode cli.mode)).1 valid,
          dry,
        )
        refl

  -- Whatever `clap` makes of the command line, the program ends with status 0 and nothing on the standard
  -- error exactly when `clap` itself ended it so, or when it took the command line, `--dry-run` was given
  -- and the file holds a configuration that is valid for the mode.
  pub main-exits_iff :
      (parsed : Result (ℕ × Message) Cli)
      → ((main sys parse_toml parsed incoming t).0 ≡ exits 0 end) ↔ EndsWell sys parse_toml t parsed
  main-exits_iff parsed = (exits-EndsWell parsed, EndsWell-exits parsed)
