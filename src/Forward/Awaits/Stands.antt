-- ===== src/Forward/Awaits/Stands.antt =====
-- The loop of `pump` by its awaits, against the loop by whole rounds: where it stands, and the arms of
-- the select.
use mathlib.Core.Path.{subst}
use mathlib.Core.List.{append-nil, append_assoc}
use rust_tcpao_proxy.Base.{
  ℕ, ◌+◌, ◌≡◌, refl, sym, ap, ◌∙◌, Bool-cases, Option, none, some, List, [], ◌∷◌, ◌++◌, Result, ok,
  err, leb, inl, inr,
}
use rust_tcpao_proxy.Error.{IoError}
use rust_tcpao_proxy.Forward.{
  PumpOptions, PumpStats, PumpState, Arrival, source_read, destination_read, elapsed, all,
  pump_step, pump_from, fresh, from_timer,
}
use rust_tcpao_proxy.Forward.Relay.{source_bytes, destination_bytes, all_bytes}
use rust_tcpao_proxy.Forward.Rounds.{outcome, pump_from-append}
use rust_tcpao_proxy.Forward.Awaits.{
  Point, selecting, to_destination, to_source, returned, Pump, source_arm, destination_arm,
  timer_arm,
}

-- The state with more bytes taken by the destination, or by the source.
abbrev pub given_destination : PumpState → List ℕ → PumpState
given_destination s bs = record s { to_destination = s.to_destination ++ bs }

abbrev pub given_source : PumpState → List ℕ → PumpState
given_source s bs = record s { to_source = s.to_source ++ bs }

-- A part of a chunk that is not empty has been written.
pub record Halfway (chunk rest : List ℕ) (before after : PumpState)
    (given : PumpState → List ℕ → PumpState) : Type 0 where
  pub written : List ℕ
  pub joins : written ++ rest ≡ chunk
  pub first : ℕ
  pub others : List ℕ
  pub nonempty : chunk ≡ first ∷ others
  pub gave : after ≡ given before written

-- The bytes that the rounds have read.
abbrev pub Reads : List Arrival → List ℕ → List ℕ → Type 0
Reads made up down = (all_bytes source_bytes made ≡ up) × (all_bytes destination_bytes made ≡ down)

all_bytes-append :
    (f : Arrival → List ℕ) (made : List Arrival) (a : Arrival)
    → all_bytes f (made ++ a ∷ []) ≡ all_bytes f made ++ f a
all_bytes-append f [] a = append-nil (f a)
all_bytes-append f (b ∷ made) a =
    ap (λ l. f b ++ l) (all_bytes-append f made a)
    ∙ sym (append_assoc (f b) (all_bytes f made) (f a))

Reads-append :
    (made : List Arrival) (a : Arrival) {up down : List ℕ}
    → Reads made up down
    → Reads (made ++ a ∷ []) (up ++ source_bytes a) (down ++ destination_bytes a)
Reads-append made a (u, d) = (
  all_bytes-append source_bytes made a ∙ ap (λ l. l ++ source_bytes a) u,
  all_bytes-append destination_bytes made a ∙ ap (λ l. l ++ destination_bytes a) d,
)

pub Reads-source :
    (made : List Arrival) (a : Arrival) {up down : List ℕ}
    → destination_bytes a ≡ []
    → Reads made up down
    → Reads (made ++ a ∷ []) (up ++ source_bytes a) down
Reads-source made a {up} {down} e h =
    subst (λ l. Reads (made ++ a ∷ []) (up ++ source_bytes a) l)
      (ap (λ l. down ++ l) e ∙ append-nil down) (Reads-append made a h)

pub Reads-destination :
    (made : List Arrival) (a : Arrival) {up down : List ℕ}
    → source_bytes a ≡ []
    → Reads made up down
    → Reads (made ++ a ∷ []) up (down ++ destination_bytes a)
Reads-destination made a {up} {down} e h =
    subst (λ l. Reads (made ++ a ∷ []) l (down ++ destination_bytes a))
      (ap (λ l. up ++ l) e ∙ append-nil up) (Reads-append made a h)

-- The bytes of a read.
abbrev pub bytes_of : Result IoError (List ℕ) → List ℕ
bytes_of (ok bs) = bs
bytes_of (err e) = []

module _ (started : ℕ) (opts : PumpOptions) where
  abbrev pub Rounds : List Arrival → Option (Result IoError PumpStats) → PumpState → Type 0
  Rounds made r s = pump_from started opts fresh made ≡ (r, s)

  -- Where the loop stands, after the arrivals of the rounds that it has ended, in which it has read
  -- these bytes from the source and from the destination.
  abbrev pub StandsAt : List Arrival → List ℕ → List ℕ → Point → PumpState → Type 0
  StandsAt made up down (selecting since) s = Rounds made none s × Reads made up down
  StandsAt made up down (to_destination chunk rest) s =
      (before : PumpState) × (old : List ℕ) × Rounds made none before
      × Reads made old down
      × (old ++ chunk ≡ up)
      × Halfway chunk rest before s given_destination
  StandsAt made up down (to_source chunk rest) s =
      (before : PumpState) × (old : List ℕ) × Rounds made none before
      × Reads made up old
      × (old ++ chunk ≡ down)
      × Halfway chunk rest before s given_source
  StandsAt made up down (returned r) s = Rounds made (some r) s × Reads made up down

  abbrev pub Stands : List ℕ → List ℕ → Pump → Type 0
  Stands up down p = (made : List Arrival) × StandsAt made up down p.point p.state

  -- One more round.
  pub round :
      (made : List Arrival) (a : Arrival) (s : PumpState)
      → Rounds made none s
      → pump_from started opts fresh (made ++ a ∷ []) ≡ outcome (pump_step started opts s a)
  round made a s h = pump_from-append started opts made a fresh s h

  module _ (made : List Arrival) (s : PumpState) (up down : List ℕ) (h : Rounds made none s)
      (reads : Reads made up down) where
    pub source_arm-Stands :
        (r : Result IoError (List ℕ)) (now : ℕ)
        → Stands (up ++ bytes_of r) down (source_arm started opts s r now)
    unfolding source_arm pump_step
    source_arm-Stands (err e) now =
        let a = source_read (err e) all now in
        (made ++ a ∷ [], (round made a s h, Reads-source made a refl reads))
    source_arm-Stands (ok []) now =
        let a = source_read (ok []) all now in
        (made ++ a ∷ [], (round made a s h, Reads-source made a refl reads))
    source_arm-Stands (ok (b ∷ bs)) now = (
      made,
      (
        s,
        up,
        h,
        reads,
        refl,
        record {
          written = [];
          joins = refl;
          first = b;
          others = bs;
          nonempty = refl;
          gave = ap (λ l. record s { to_destination = l }) (sym (append-nil s.to_destination));
        },
      ),
    )

    pub destination_arm-Stands :
        (r : Result IoError (List ℕ)) (now : ℕ)
        → Stands up (down ++ bytes_of r) (destination_arm started opts s r now)
    unfolding destination_arm pump_step
    destination_arm-Stands (err e) now =
        let a = destination_read (err e) all now in
        (made ++ a ∷ [], (round made a s h, Reads-destination made a refl reads))
    destination_arm-Stands (ok []) now =
        let a = destination_read (ok []) all now in
        (made ++ a ∷ [], (round made a s h, Reads-destination made a refl reads))
    destination_arm-Stands (ok (b ∷ bs)) now = (
      made,
      (
        s,
        down,
        h,
        reads,
        refl,
        record {
          written = [];
          joins = refl;
          first = b;
          others = bs;
          nonempty = refl;
          gave = ap (λ l. record s { to_source = l }) (sym (append-nil s.to_source));
        },
      ),
    )

    pub timer_arm-Stands :
        (timeout : Option ℕ) (since now : ℕ)
        → opts.idle_timeout ≡ timeout
        → Stands up down (timer_arm started opts timeout since s now)
    unfolding timer_arm pump_step from_timer
    timer_arm-Stands none since now e = (made, (h, reads))
    timer_arm-Stands (some timeout) since now e = elim (Bool-cases (leb (since + timeout) now)) [
      | inl due ↦ rw due (
        made ++ elapsed now ∷ [],
        (
          round made (elapsed now) s h ∙ ap (λ o. outcome (from_timer started o s now)) e,
          subst (λ l. Reads (made ++ elapsed now ∷ []) l down) (append-nil up)
              (Reads-source made (elapsed now) refl reads),
        ),
      )
      | inr early ↦ rw early (made, (h, reads))
    ]
