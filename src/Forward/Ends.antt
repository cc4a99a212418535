-- ===== src/Forward/Ends.antt =====
-- `pump` of src/forward.rs: what it counted when it returns, and what it shut down.
use rust_tcpao_proxy.Base.{
  ℕ, ◌%◌, ◌^◌, ◌≡◌, refl, ◌≢◌, true, false, Option, none, some, List, [], ◌∷◌, arith, Result, ok,
  err, length, length-append,
}
use mathlib.Core.Path.{subst}
use rust_tcpao_proxy.Error.{IoError}
use rust_tcpao_proxy.Forward.{
  PumpOptions, PumpStats, source_eof, destination_eof, idle_timeout, PumpState, all, partly,
  Arrival, source_read, destination_read, elapsed, Next, continue, finish, from_timer, pump_step,
  pump_from, fresh, pump,
}

-- The rule for the loop: `P` holds as long as it goes on, and `Q` when it returns.
module _ (P : PumpState → Type 0) (Q : Result IoError PumpStats → PumpState → Type 0) where
  abbrev AtStep : Next → Type 0
  AtStep (continue s) = P s
  AtStep (finish s r) = Q r s

  abbrev pub AtEnd : Option (Result IoError PumpStats) × PumpState → Type 0
  AtEnd (none, s) = P s
  AtEnd (some r, s) = Q r s

  pump_from_inv :
      (started : ℕ) (opts : PumpOptions)
      → ((s : PumpState) (a : Arrival) → P s → AtStep (pump_step started opts s a))
      → (arrivals : List Arrival) (s : PumpState) → P s
      → AtEnd (pump_from started opts s arrivals)
  unfolding pump_from
  pump_from_inv started opts keep [] s h = h
  pump_from_inv started opts keep (a ∷ rest) s h =
      (elim (pump_step started opts s a)
          as (λ n.
            AtStep n
            → AtEnd (elim n [
              | continue s' ↦ pump_from started opts s' rest
              | finish s' r ↦ (some r, s')
            ])) [
              | continue s' ↦ λ p. pump_from_inv started opts keep rest s' p
              | finish s' r ↦ λ q. q
            ])
        (keep s a h)

-- The counters are the numbers of bytes passed on, as `u64`.
record Counted (s : PumpState) : Type 0 where
  up : s.source_to_destination ≡ length s.to_destination % 2 ^ 64
  down : s.destination_to_source ≡ length s.to_source % 2 ^ 64

abbrev pub Reports : Result IoError PumpStats → PumpState → Type 0
Reports (ok st) s =
    (st.bytes_up ≡ length s.to_destination % 2 ^ 64) × (st.bytes_down ≡ length s.to_source % 2 ^ 64)
Reports (err e) s = Unit

timer-Counted :
    (started : ℕ) (timeout : Option ℕ) (s : PumpState) (now : ℕ)
    → Counted s
    → AtStep Counted Reports (from_timer started timeout s now)
unfolding from_timer
timer-Counted started none s now h = h
timer-Counted started (some t) s now h = (h.up, h.down)

pump_step-Counted :
    (started : ℕ) (opts : PumpOptions) (s : PumpState) (a : Arrival)
    → Counted s
    → AtStep Counted Reports (pump_step started opts s a)
unfolding pump_step
pump_step-Counted started opts s (source_read (err e) w now) h = tt
pump_step-Counted started opts s (source_read (ok []) w now) h = (h.up, h.down)
pump_step-Counted started opts s (source_read (ok (b ∷ bs)) all now) h = record {
  up = omega (arith, h.up, length-append s.to_destination (b ∷ bs));
  down = h.down;
}
pump_step-Counted started opts s (source_read (ok (b ∷ bs)) (partly n e) now) h = tt
pump_step-Counted started opts s (destination_read (err e) w now) h = tt
pump_step-Counted started opts s (destination_read (ok []) w now) h = (h.up, h.down)
pump_step-Counted started opts s (destination_read (ok (b ∷ bs)) all now) h = record {
  up = h.up;
  down = omega (arith, h.down, length-append s.to_source (b ∷ bs));
}
pump_step-Counted started opts s (destination_read (ok (b ∷ bs)) (partly n e) now) h = tt
pump_step-Counted started opts s (elapsed now) h = timer-Counted started opts.idle_timeout s now h

Reports-of :
    (r : Option (Result IoError PumpStats) × PumpState) {st : PumpStats}
    → AtEnd Counted Reports r
    → r.0 ≡ some (ok st)
    → Reports (ok st) r.1
Reports-of (none, s) h e = cc
Reports-of (some (err x), s) h e = cc
Reports-of (some (ok st), s) {st = st'} h e =
    let same : st ≡ st' = cc in subst (λ x. Reports (ok x) s) same h

-- When `pump` returns statistics, its two byte counts are the numbers of bytes that the streams have
-- taken from it, modulo 2 ^ 64.
pub pump-counts :
    (opts : PumpOptions) (started : ℕ) (arrivals : List Arrival) {st : PumpStats}
    → (pump opts started arrivals).0 ≡ some (ok st)
    → Reports (ok st) (pump opts started arrivals).1
unfolding pump
pump-counts opts started arrivals e =
    Reports-of _
      (pump_from_inv Counted Reports started opts (pump_step-Counted started opts) arrivals fresh
        (record { up = refl; down = refl }))
      e

-- Which write halves are shut down when the loop waits, and when it has returned.
abbrev pub IsOpen : PumpState → Type 0
IsOpen s = (s.source_shut ≡ false) × (s.destination_shut ≡ false)

abbrev pub Closes : PumpOptions → PumpState → PumpStats → Type 0
Closes opts s st = elim st.reason [
  | source_eof ↦ (s.source_shut ≡ false) × (s.destination_shut ≡ true)
  | destination_eof ↦ (s.source_shut ≡ true) × (s.destination_shut ≡ false)
  | idle_timeout ↦ (s.source_shut ≡ true) × (s.destination_shut ≡ true) × (opts.idle_timeout ≢ none)
]

abbrev pub ClosesAs : PumpOptions → Result IoError PumpStats → PumpState → Type 0
ClosesAs opts (ok st) s = Closes opts s st
ClosesAs opts (err e) s = IsOpen s

timer-Closes :
    (started : ℕ) (opts : PumpOptions) (s : PumpState) (now : ℕ) (timeout : Option ℕ)
    → opts.idle_timeout ≡ timeout
    → IsOpen s
    → AtStep IsOpen (ClosesAs opts) (from_timer started timeout s now)
unfolding from_timer
timer-Closes started opts s now none e h = h
timer-Closes started opts s now (some t) e h = ground arith

pump_step-Closes :
    (started : ℕ) (opts : PumpOptions) (s : PumpState) (a : Arrival)
    → IsOpen s
    → AtStep IsOpen (ClosesAs opts) (pump_step started opts s a)
unfolding pump_step
pump_step-Closes started opts s (source_read (err e) w now) h = h
pump_step-Closes started opts s (source_read (ok []) w now) h = (h.0, refl)
pump_step-Closes started opts s (source_read (ok (b ∷ bs)) all now) h = h
pump_step-Closes started opts s (source_read (ok (b ∷ bs)) (partly n e) now) h = h
pump_step-Closes started opts s (destination_read (err e) w now) h = h
pump_step-Closes started opts s (destination_read (ok []) w now) h = (refl, h.1)
pump_step-Closes started opts s (destination_read (ok (b ∷ bs)) all now) h = h
pump_step-Closes started opts s (destination_read (ok (b ∷ bs)) (partly n e) now) h = h
pump_step-Closes started opts s (elapsed now) h =
    timer-Closes started opts s now opts.idle_timeout refl h

-- As long as `pump` waits, and when it fails, it has shut down nothing. At the end of the source it
-- has shut down the destination only, at the end of the destination the source only, and at a
-- timeout both; and it times out only if a timeout is configured.
pub pump-closes :
    (opts : PumpOptions) (started : ℕ) (arrivals : List Arrival)
    → AtEnd IsOpen (ClosesAs opts) (pump opts started arrivals)
unfolding pump
pump-closes opts started arrivals =
    pump_from_inv IsOpen (ClosesAs opts) started opts (pump_step-Closes started opts) arrivals fresh
      (refl, refl)
