-- ===== src/Forward/Returns.antt =====
-- `pump` of src/forward.rs: when it returns.
use rust_tcpao_proxy.Base.{
  ℕ, ◌≡◌, refl, ◌↔◌, ◌≢◌, ◌⊎◌, inl, inr, Bool, true, false, Option, none, some, List, [], ◌∷◌,
  Result, ok, err, Any,
}
use rust_tcpao_proxy.Error.{IoError}
use rust_tcpao_proxy.Forward.{
  PumpOptions, PumpStats, PumpState, all, partly, Arrival, source_read, destination_read, elapsed,
  Next, continue, finish, from_timer, pump_step, pump_from, fresh, pump,
}
use rust_tcpao_proxy.Forward.Relay.{ends_loop}

-- Whether a step returns.
abbrev Returns : Bool → Next → Type 0
Returns ends (continue s) = ends ≡ false
Returns ends (finish s r) = ends ≡ true

timer-Returns :
    (started : ℕ) (s : PumpState) (now : ℕ) (timeout : Option ℕ)
    → Returns
        (ends_loop (record { idle_timeout = timeout }) (elapsed now))
        (from_timer started timeout s now)
unfolding from_timer
timer-Returns started s now none = refl
timer-Returns started s now (some t) = refl

pump_step-Returns :
    (started : ℕ) (opts : PumpOptions) (s : PumpState) (a : Arrival)
    → Returns (ends_loop opts a) (pump_step started opts s a)
unfolding pump_step
pump_step-Returns started opts s (source_read (err e) w now) = refl
pump_step-Returns started opts s (source_read (ok []) w now) = refl
pump_step-Returns started opts s (source_read (ok (b ∷ bs)) all now) = refl
pump_step-Returns started opts s (source_read (ok (b ∷ bs)) (partly n e) now) = refl
pump_step-Returns started opts s (destination_read (err e) w now) = refl
pump_step-Returns started opts s (destination_read (ok []) w now) = refl
pump_step-Returns started opts s (destination_read (ok (b ∷ bs)) all now) = refl
pump_step-Returns started opts s (destination_read (ok (b ∷ bs)) (partly n e) now) = refl
pump_step-Returns started opts s (elapsed now) = timer-Returns started s now opts.idle_timeout

later : {B : Type 0} (b : Bool) → b ≡ false → (b ≡ true) ⊎ B → B
later b e (inl t) = cc
later b e (inr m) = m

abbrev ReturnsWhen : Type 0 → Option (Result IoError PumpStats) × PumpState → Type 0
ReturnsWhen B r = (r.0 ≢ none) ↔ B

pump_from-returns_iff :
    (started : ℕ) (opts : PumpOptions) (arrivals : List Arrival) (s : PumpState)
    → ReturnsWhen (Any (λ a. ends_loop opts a ≡ true) arrivals) (pump_from started opts s arrivals)
unfolding pump_from
pump_from-returns_iff started opts [] s = (λ h. h refl, λ m. absurd m)
pump_from-returns_iff started opts (a ∷ rest) s =
    (elim (pump_step started opts s a)
        as (λ n.
          Returns (ends_loop opts a) n
          → ReturnsWhen (Any (λ b. ends_loop opts b ≡ true) (a ∷ rest)) (elim n [
            | continue s' ↦ pump_from started opts s' rest
            | finish s' r ↦ (some r, s')
          ])) [
            | continue s' ↦ λ goes.
                let ih = pump_from-returns_iff started opts rest s' in
                (λ h. inr (ih.0 h), λ m. ih.1 (later (ends_loop opts a) goes m))
            | finish s' r ↦ λ ends. (λ h. inl ends, λ m. λ e. cc)
          ])
      (pump_step-Returns started opts s a)

-- `pump` returns exactly when a round ends the loop: a stream ends or fails, or the timer fires.
pub pump-returns_iff :
    (opts : PumpOptions) (started : ℕ) (arrivals : List Arrival)
    → ((pump opts started arrivals).0 ≢ none) ↔ Any (λ a. ends_loop opts a ≡ true) arrivals
unfolding pump
pump-returns_iff opts started arrivals = pump_from-returns_iff started opts arrivals fresh
