-- ===== src/Forward/Awaits/Waits.antt =====
-- How long a select of `pump` in src/forward.rs has waited, and what one wake-up does to that.
use mathlib.Core.List.{append-nil, append_assoc}
use rust_tcpao_proxy.Base.{
  ℕ, zero, suc, ◌+◌, ◌≤◌, ◌≡◌, refl, sym, ap, ◌∙◌, ◌⊎◌, inl, inr, true, Bool-cases, Option, none,
  some, List, [], ◌∷◌, ◌++◌, Result, ok, err, take, drop, leb, arith,
}
use rust_tcpao_proxy.Error.{IoError}
use rust_tcpao_proxy.Forward.{PumpOptions, PumpState, idle_timeout}
use rust_tcpao_proxy.Forward.Awaits.{
  Event, clock, Wake, Point, selecting, to_destination, to_source, returned, Pump, source_arm,
  destination_arm, timer_arm, wrote_destination, wrote_source, take_destination, take_source,
  wake_at, wake, wakes, opened,
}

module _ (started : ℕ) (opts : PumpOptions) where
  abbrev pub start : Pump
  start = opened started opts

  abbrev pub run : Pump → List Wake → Pump
  run p ws = wakes started opts p ws

  pub run-append :
      (ws : List Wake) (w : Wake) (p : Pump) → run p (ws ++ w ∷ []) ≡ wake started opts (run p ws) w
  unfolding wakes
  run-append [] w p = refl
  run-append (v ∷ ws) w p = run-append ws w (wake started opts p v)

  -- The select that waits since a time began then: at the start, or at the end of the wake-up before.
  abbrev pub BeganAt : List Wake → ℕ → Type 0
  BeganAt before since =
      ((before ≡ []) × (since ≡ started))
      ⊎ ((init : List Wake) × (e : Event) × (before ≡ init ++ (e, since) ∷ []))

  abbrev pub waiting : ℕ → PumpState → Pump
  waiting since s = record { point = selecting since; state = s }

  -- The loop waits in one select since then, and nothing that came has made a difference.
  pub record Waits (done : List Wake) (since : ℕ) (s : PumpState) : Type 0 where
    pub before : List Wake
    pub idle : List Wake
    pub splits : done ≡ before ++ idle
    pub began : BeganAt before since
    pub reached : run start before ≡ waiting since s
    pub quiet : run (waiting since s) idle ≡ waiting since s

  -- The loop has returned after such a wait of the whole timeout; its streams have taken nothing more.
  pub record IdledOut (done : List Wake) (s : PumpState) : Type 0 where
    pub timeout : ℕ
    pub configured : opts.idle_timeout ≡ some timeout
    pub waited : List Wake
    pub now : ℕ
    pub rest : List Wake
    pub splits : done ≡ waited ++ (clock, now) ∷ rest
    pub since : ℕ
    pub last : PumpState
    pub waits : Waits waited since last
    pub whole : since + timeout ≤ now
    pub shut : s ≡ record last { source_shut = true; destination_shut = true }

  abbrev pub InvAt : List Wake → Point → PumpState → Type 0
  InvAt done (selecting since) s = Waits done since s
  InvAt done (to_destination chunk rest) s = Unit
  InvAt done (to_source chunk rest) s = Unit
  InvAt done (returned (err e)) s = Unit
  InvAt done (returned (ok st)) s = st.reason ≡ idle_timeout → IdledOut done s

  -- A wake-up that makes no difference to a select.
  pub stale :
      (done : List Wake) (w : Wake) (since : ℕ) (s : PumpState)
      → wake started opts (waiting since s) w ≡ waiting since s
      → Waits done since s
      → Waits (done ++ w ∷ []) since s
  stale done w since s same k = record {
    before = k.before;
    idle = k.idle ++ w ∷ [];
    splits = ap (λ l. l ++ w ∷ []) k.splits ∙ append_assoc k.before k.idle (w ∷ []);
    began = k.began;
    reached = k.reached;
    quiet = run-append k.idle w (waiting since s) ∙ ap (λ p. wake started opts p w) k.quiet ∙ same;
  }

  -- A select that begins.
  pub begins :
      (done : List Wake) (e : Event) (now : ℕ) (s : PumpState)
      → run start (done ++ (e, now) ∷ []) ≡ waiting now s
      → Waits (done ++ (e, now) ∷ []) now s
  unfolding wakes
  begins done e now s h = record {
    before = done ++ (e, now) ∷ [];
    idle = [];
    splits = sym (append-nil _);
    began = inr (done, e, refl);
    reached = h;
    quiet = refl;
  }

  abbrev pub After : List Wake → Wake → Pump → Type 0
  After done w p = InvAt (done ++ w ∷ []) p.point p.state

  pub source_arm-Inv :
      (done : List Wake) (w : Wake) (s : PumpState) (r : Result IoError (List ℕ)) (now : ℕ)
      → After done w (source_arm started opts s r now)
  unfolding source_arm
  source_arm-Inv done w s (err e) now = tt
  source_arm-Inv done w s (ok []) now = λ h. absurd cc
  source_arm-Inv done w s (ok (b ∷ bs)) now = tt

  pub destination_arm-Inv :
      (done : List Wake) (w : Wake) (s : PumpState) (r : Result IoError (List ℕ)) (now : ℕ)
      → After done w (destination_arm started opts s r now)
  unfolding destination_arm
  destination_arm-Inv done w s (err e) now = tt
  destination_arm-Inv done w s (ok []) now = λ h. absurd cc
  destination_arm-Inv done w s (ok (b ∷ bs)) now = tt

  pub timer_arm-Inv :
      (done : List Wake) (since now : ℕ) (s : PumpState) (timeout : Option ℕ)
      → opts.idle_timeout ≡ timeout
      → Waits done since s
      → After done (clock, now) (timer_arm started opts timeout since s now)
  unfolding timer_arm wake_at
  timer_arm-Inv done since now s none e k = stale done (clock, now) since s (rw e refl) k
  timer_arm-Inv done since now s (some timeout) e k =
      elim (Bool-cases (leb (since + timeout) now)) [
        | inl due ↦ rw due λ _. record {
          timeout = timeout;
          configured = e;
          waited = done;
          now = now;
          rest = [];
          splits = refl;
          since = since;
          last = s;
          waits = k;
          whole = ground arith;
          shut = refl;
        }
        | inr early ↦ rw early (stale done (clock, now) since s (rw (e, early) refl) k)
      ]

  pub take_destination-Inv :
      (done : List Wake) (e : Event) (s : PumpState) (chunk rest : List ℕ) (r : Result IoError ℕ)
      (now : ℕ)
      → run start (done ++ (e, now) ∷ []) ≡ take_destination started opts s chunk rest r now
      → After done (e, now) (take_destination started opts s chunk rest r now)
  unfolding take_destination wrote_destination
  take_destination-Inv done e s chunk rest (err x) now h = tt
  take_destination-Inv done e s chunk rest (ok zero) now h = tt
  take_destination-Inv done e s chunk rest (ok (suc n)) now h = go (drop (suc n) rest) h
    where
      given : PumpState
      given = record s { to_destination = s.to_destination ++ take (suc n) rest }

      go :
          (left : List ℕ)
          → run start (done ++ (e, now) ∷ []) ≡ wrote_destination started opts given chunk left now
          → After done (e, now) (wrote_destination started opts given chunk left now)
      go [] k = begins done e now _ k
      go (b ∷ bs) k = tt

  pub take_source-Inv :
      (done : List Wake) (e : Event) (s : PumpState) (chunk rest : List ℕ) (r : Result IoError ℕ)
      (now : ℕ)
      → run start (done ++ (e, now) ∷ []) ≡ take_source started opts s chunk rest r now
      → After done (e, now) (take_source started opts s chunk rest r now)
  unfolding take_source wrote_source
  take_source-Inv done e s chunk rest (err x) now h = tt
  take_source-Inv done e s chunk rest (ok zero) now h = tt
  take_source-Inv done e s chunk rest (ok (suc n)) now h = go (drop (suc n) rest) h
    where
      given : PumpState
      given = record s { to_source = s.to_source ++ take (suc n) rest }

      go :
          (left : List ℕ)
          → run start (done ++ (e, now) ∷ []) ≡ wrote_source started opts given chunk left now
          → After done (e, now) (wrote_source started opts given chunk left now)
      go [] k = begins done e now _ k
      go (b ∷ bs) k = tt
