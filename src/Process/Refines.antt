-- ===== src/Process/Refines.antt =====
-- Each task of the process, against `handle_connection` as a whole.
use mathlib.Core.Path.{subst}
use rust_tcpao_proxy.Base.{
  ℕ, ◌≡◌, refl, ap, ◌∙◌, Bool, none, some, List, [], ◌∷◌, ◌++◌, All, All-map, Result, ok, err,
}
use rust_tcpao_proxy.Error.{ProxyError}
use rust_tcpao_proxy.Config.{AoPolicyConfig}
use rust_tcpao_proxy.Os.{Os, Trace, from_io, sys_connect}
use rust_tcpao_proxy.Connection.{Outcome, broken, Task}
use rust_tcpao_proxy.Process.{
  Stages, Stage, accepted, Input, after_prepare, after_connect, advance, Running, Process, start,
  moved, Reach,
}
use rust_tcpao_proxy.Process.Alone.{settled, drive, drive-ended, set_up, Agrees, drive-Agrees}
use rust_tcpao_proxy.Process.Safe.{Reach-All}

module _ (sys : Os) (st : Stages) (k : Task) where
  drive-append :
      (is : List Input) (i : Input) (x : Stage × Trace)
      → drive sys st k (is ++ i ∷ []) x
        ≡ advance sys st k (drive sys st k is x).0 i (drive sys st k is x).1
  unfolding drive
  drive-append [] i x = refl
  drive-append (j ∷ is) i x = drive-append is i (advance sys st k x.0 j x.1)

  -- A task that has settled before its third input has ended, and further inputs change nothing.
  abbrev Pads : List Input → Outcome → Stage × Trace → Type 0
  Pads is o x = settled x.0 ≡ some o → drive sys st k is x ≡ x

  connect-Pads :
      (j : Input) (p : AoPolicyConfig) (o : Outcome) (r : Result ProxyError ℕ × Trace)
      → Pads (j ∷ []) o (after_connect p r)
  unfolding after_connect settled
  connect-Pads j p o (ok stream, t) h = absurd cc
  connect-Pads j p o (err e, t) h = drive-ended sys st k (j ∷ []) (broken none e) t

  prepare-Pads :
      (i j : Input) (o : Outcome) (r : Result ProxyError (AoPolicyConfig × ℕ) × Trace)
      → Pads (i ∷ j ∷ []) o (after_prepare r)
  unfolding after_prepare settled
  prepare-Pads i j o (ok ps, t) h = absurd cc
  prepare-Pads i j o (err e, t) h = drive-ended sys st k (i ∷ j ∷ []) (broken none e) t

  second-Pads :
      (i j : Input) (o : Outcome) (r : Result ProxyError (AoPolicyConfig × ℕ) × Trace)
      → Pads (j ∷ []) o (drive sys st k (i ∷ []) (after_prepare r))
  unfolding after_prepare drive
  second-Pads i j o (ok (p, s), t) h =
      connect-Pads j p o (from_io (sys_connect sys s st.target) t) h
  second-Pads i j o (err e, t) h = drive-ended sys st k (j ∷ []) (broken none e) t

  -- Where a task has settled after some inputs, it has after three and the arrivals.
  pub record Whole (x : Stage × Trace) : Type 0 where
    pub started : ℕ
    pub inputs : List Input
    pub agrees : Agrees sys st k started inputs (set_up sys st k []) x

  whole :
      (is : List Input) (o : Outcome)
      → settled (drive sys st k is (accepted, [])).0 ≡ some o
      → Whole (drive sys st k is (accepted, []))
  unfolding drive settled
  whole [] o h = absurd cc
  whole (a ∷ []) o h = record {
    started = a.0;
    inputs = [];
    agrees =
        subst (λ x. Agrees sys st k a.0 [] (set_up sys st k []) x)
          (prepare-Pads a a o (st.prepare k []) h) (drive-Agrees sys st k a a a [] []);
  }
  whole (a ∷ b ∷ []) o h = record {
    started = a.0;
    inputs = [];
    agrees =
        subst (λ x. Agrees sys st k a.0 [] (set_up sys st k []) x)
          (second-Pads b a o (st.prepare k []) h) (drive-Agrees sys st k a b a [] []);
  }
  whole (a ∷ b ∷ c ∷ is) o h = record {
    started = c.0;
    inputs = is;
    agrees = drive-Agrees sys st k a b c is [];
  }

module _ (debug : Bool) (st : Os → Stages) where
  -- A task is where some inputs have brought it, without the others.
  abbrev IsDriven : Running → Type 0
  IsDriven r =
      (is : List Input) × (drive r.oracle (st r.oracle) r.task is (accepted, [])
        ≡ (r.stage, r.calls))

  keeps_IsDriven :
      (r : Running) (i : Input)
      → IsDriven r
      → IsDriven (moved r (advance r.oracle (st r.oracle) r.task r.stage i r.calls))
  keeps_IsDriven r i (is, e) = (
    is ++ i ∷ [],
    drive-append r.oracle (st r.oracle) r.task is i (accepted, [])
        ∙ ap (λ x. advance r.oracle (st r.oracle) r.task x.0 i x.1) e,
  )

  Reach-IsDriven : {c : Process} → Reach debug st start c → All IsDriven c.running
  unfolding drive
  Reach-IsDriven r = Reach-All debug st IsDriven (λ k sys _. ([], refl)) keeps_IsDriven r

  -- A task that relays or has ended is where its whole set-up and `pump` have brought it.
  abbrev pub IsWhole : Running → Type 0
  IsWhole r =
      (o : Outcome)
      → settled r.stage ≡ some o
      → Whole r.oracle (st r.oracle) r.task (r.stage, r.calls)

  driven-IsWhole : (r : Running) → IsDriven r → IsWhole r
  driven-IsWhole r (is, e) o h =
      subst (λ x. Whole r.oracle (st r.oracle) r.task x) e
        (whole r.oracle (st r.oracle) r.task is o (ap (λ x. settled x.0) e ∙ h))

  pub Reach-IsWhole : {c : Process} → Reach debug st start c → All IsWhole c.running
  Reach-IsWhole {c} r = All-map IsDriven IsWhole driven-IsWhole c.running (Reach-IsDriven r)
