-- ===== src/Forward/Relay.antt =====
-- `pump` of src/forward.rs: the bytes that it passes on.
use rust_tcpao_proxy.Base.{
  ℕ, ◌≡◌, refl, sym, ap, ◌∙◌, Bool, true, false, Option, none, some, List, [], ◌∷◌, ◌++◌, Result,
  ok, err, take, drop, take-append-drop,
}
use mathlib.Core.Path.{subst}
use mathlib.Core.List.{append-nil, append_assoc}
use rust_tcpao_proxy.Error.{IoError}
use rust_tcpao_proxy.Forward.{
  PumpOptions, PumpStats, PumpState, all, partly, Arrival, source_read, destination_read, elapsed,
  Next, continue, finish, from_timer, pump_step, pump_from, fresh, pump,
}

-- The bytes that one round read from the source, and from the destination.
abbrev pub source_bytes : Arrival → List ℕ
source_bytes (source_read (ok bs) w now) = bs
source_bytes (source_read (err e) w now) = []
source_bytes (destination_read r w now) = []
source_bytes (elapsed now) = []

abbrev pub destination_bytes : Arrival → List ℕ
destination_bytes (source_read r w now) = []
destination_bytes (destination_read (ok bs) w now) = bs
destination_bytes (destination_read (err e) w now) = []
destination_bytes (elapsed now) = []

abbrev pub all_bytes : (Arrival → List ℕ) → List Arrival → List ℕ
all_bytes f [] = []
all_bytes f (a ∷ rest) = f a ++ all_bytes f rest

-- A round ends the loop: the end of a stream, an error, or the timer.
abbrev pub ends_loop : PumpOptions → Arrival → Bool
ends_loop opts (source_read (err e) w now) = true
ends_loop opts (source_read (ok []) w now) = true
ends_loop opts (source_read (ok (b ∷ bs)) all now) = false
ends_loop opts (source_read (ok (b ∷ bs)) (partly n e) now) = true
ends_loop opts (destination_read (err e) w now) = true
ends_loop opts (destination_read (ok []) w now) = true
ends_loop opts (destination_read (ok (b ∷ bs)) all now) = false
ends_loop opts (destination_read (ok (b ∷ bs)) (partly n e) now) = true
ends_loop opts (elapsed now) = elim opts.idle_timeout [ none ↦ false | some t ↦ true ]

-- The rounds that the loop makes: up to the first that ends it.
abbrev pub rounds : PumpOptions → List Arrival → List Arrival
rounds opts [] = []
rounds opts (a ∷ rest) = elim (ends_loop opts a) [ true ↦ a ∷ [] | false ↦ a ∷ rounds opts rest ]

-- What one round does to the bytes that one stream has taken: they grow by a part of what was read,
-- and by all of it unless the loop failed.
abbrev Kept : List ℕ → List ℕ → List ℕ → Result IoError PumpStats → Type 0
Kept out out' new r =
    (rest : List ℕ) × (out' ++ rest ≡ out ++ new) × ((st : PumpStats) → r ≡ ok st → rest ≡ [])

Kept-nothing : (out : List ℕ) (r : Result IoError PumpStats) → Kept out out [] r
Kept-nothing out r = ([], refl, λ st h. refl)

Kept-part : (out bs : List ℕ) (n : ℕ) (e : IoError) → Kept out (out ++ take n bs) bs (err e)
Kept-part out bs n e = (
  drop n bs,
  append_assoc out (take n bs) (drop n bs) ∙ ap (λ l. out ++ l) (take-append-drop n bs),
  λ st h. cc,
)

abbrev StepFits : PumpOptions → PumpState → Arrival → Next → Type 0
StepFits opts s a (continue s') =
    (ends_loop opts a ≡ false)
    × (s'.to_destination ≡ s.to_destination ++ source_bytes a)
    × (s'.to_source ≡ s.to_source ++ destination_bytes a)
StepFits opts s a (finish s' r) =
    (ends_loop opts a ≡ true)
    × Kept s.to_destination s'.to_destination (source_bytes a) r
    × Kept s.to_source s'.to_source (destination_bytes a) r

timer-fits :
    (started : ℕ) (timeout : Option ℕ) (s : PumpState) (now : ℕ)
    → StepFits
        (record { idle_timeout = timeout })
        s
        (elapsed now)
        (from_timer started timeout s now)
unfolding from_timer
timer-fits started none s now = (refl, sym (append-nil _), sym (append-nil _))
timer-fits started (some t) s now = (refl, Kept-nothing _ _, Kept-nothing _ _)

pump_step-fits :
    (started : ℕ) (opts : PumpOptions) (s : PumpState) (a : Arrival)
    → StepFits opts s a (pump_step started opts s a)
unfolding pump_step
pump_step-fits started opts s (source_read (err e) w now) =
    (refl, Kept-nothing _ _, Kept-nothing _ _)
pump_step-fits started opts s (source_read (ok []) w now) =
    (refl, Kept-nothing _ _, Kept-nothing _ _)
pump_step-fits started opts s (source_read (ok (b ∷ bs)) all now) = (refl, refl, sym (append-nil _))
pump_step-fits started opts s (source_read (ok (b ∷ bs)) (partly n e) now) =
    (refl, Kept-part _ _ n e, Kept-nothing _ _)
pump_step-fits started opts s (destination_read (err e) w now) =
    (refl, Kept-nothing _ _, Kept-nothing _ _)
pump_step-fits started opts s (destination_read (ok []) w now) =
    (refl, Kept-nothing _ _, Kept-nothing _ _)
pump_step-fits started opts s (destination_read (ok (b ∷ bs)) all now) =
    (refl, sym (append-nil _), refl)
pump_step-fits started opts s (destination_read (ok (b ∷ bs)) (partly n e) now) =
    (refl, Kept-nothing _ _, Kept-part _ _ n e)
pump_step-fits started opts s (elapsed now) = timer-fits started opts.idle_timeout s now

-- The bytes taken by a stream, against the bytes that the rounds read for it: all of them, or, after
-- an error, a prefix.
abbrev pub Relayed : List ℕ → List ℕ → Option (Result IoError PumpStats) → Type 0
Relayed out given none = out ≡ given
Relayed out given (some (ok st)) = out ≡ given
Relayed out given (some (err e)) = (rest : List ℕ) × (out ++ rest ≡ given)

abbrev pub IsRelayed :
    PumpOptions → PumpState → List Arrival → Option (Result IoError PumpStats) × PumpState → Type 0
IsRelayed opts s arrivals (r, s') =
    Relayed s'.to_destination (s.to_destination ++ all_bytes source_bytes (rounds opts arrivals)) r
    × Relayed s'.to_source (s.to_source ++ all_bytes destination_bytes (rounds opts arrivals)) r

Relayed-end :
    (out out' new : List ℕ) (r : Result IoError PumpStats)
    → Kept out out' new r
    → Relayed out' (out ++ (new ++ [])) (some r)
Relayed-end out out' new (ok st) (rest, e, clean) =
    rw append-nil (sym (append-nil out') ∙ (ap (λ l. out' ++ l) (sym (clean st refl)) ∙ e))
Relayed-end out out' new (err x) (rest, e, clean) = (rest, rw append-nil e)

Relayed-more :
    (out : List ℕ) {out' : List ℕ} (final new given : List ℕ)
    (r : Option (Result IoError PumpStats))
    → out' ≡ out ++ new
    → Relayed final (out' ++ given) r
    → Relayed final (out ++ (new ++ given)) r
Relayed-more out final new given r e h =
    subst (λ l. Relayed final l r) (ap (λ l. l ++ given) e ∙ append_assoc out new given) h

rounds_more :
    (opts : PumpOptions) (a : Arrival) (rest : List Arrival)
    → ends_loop opts a ≡ false
    → rounds opts (a ∷ rest) ≡ a ∷ rounds opts rest
rounds_more opts a rest e = rw (e, rounds) refl

rounds_last :
    (opts : PumpOptions) (a : Arrival) (rest : List Arrival)
    → ends_loop opts a ≡ true
    → rounds opts (a ∷ rest) ≡ a ∷ []
rounds_last opts a rest e = rw (e, rounds) refl

module _ (started : ℕ) (opts : PumpOptions) where
  -- `IsRelayed`, over the rounds as a list of their own.
  abbrev Fits : PumpState → List Arrival → Option (Result IoError PumpStats) × PumpState → Type 0
  Fits s made (r, s') =
      Relayed s'.to_destination (s.to_destination ++ all_bytes source_bytes made) r
      × Relayed s'.to_source (s.to_source ++ all_bytes destination_bytes made) r

  pump_from-relays :
      (arrivals : List Arrival) (s : PumpState)
      → IsRelayed opts s arrivals (pump_from started opts s arrivals)
  unfolding pump_from
  pump_from-relays [] s = (sym (append-nil _), sym (append-nil _))
  pump_from-relays (a ∷ rest) s =
      (elim (pump_step started opts s a)
          as (λ n.
            StepFits opts s a n
            → Fits s (rounds opts (a ∷ rest)) (elim n [
              | continue s' ↦ pump_from started opts s' rest
              | finish s' r ↦ (some r, s')
            ])) [
              | continue s' ↦ λ (goes, up, down).
                  let (ih_up, ih_down) = pump_from-relays rest s' in
                  let final = pump_from started opts s' rest in
                  subst (λ l. Fits s l final) (sym (rounds_more opts a rest goes))
                    (
                      Relayed-more _ _ (source_bytes a) _ final.0 up ih_up,
                      Relayed-more _ _ (destination_bytes a) _ final.0 down ih_down,
                    )
              | finish s' r ↦ λ (stops, up, down).
                  subst (λ l. Fits s l (some r, s')) (sym (rounds_last opts a rest stops))
                    (
                      Relayed-end _ _ (source_bytes a) r up,
                      Relayed-end _ _ (destination_bytes a) r down,
                    )
            ])
        (pump_step-fits started opts s a)

-- What each of the two streams has taken is what `pump` read for it in the rounds that it made,
-- byte for byte and in order: all of it as long as the loop waits or once it has ended at the end of
-- a stream or by the timer, and a prefix of it if the loop failed.
pub pump-relays :
    (opts : PumpOptions) (started : ℕ) (arrivals : List Arrival)
    → IsRelayed opts fresh arrivals (pump opts started arrivals)
unfolding pump
pump-relays opts started arrivals = pump_from-relays started opts arrivals fresh
