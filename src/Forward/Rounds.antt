-- ===== src/Forward/Rounds.antt =====
-- `pump` of src/forward.rs, one round at a time.
use rust_tcpao_proxy.Base.{ℕ, ◌≡◌, refl, ap, Option, none, some, List, [], ◌∷◌, ◌++◌, Result}
use rust_tcpao_proxy.Error.{IoError}
use rust_tcpao_proxy.Forward.{
  PumpOptions, PumpStats, PumpState, Arrival, Next, continue, finish, pump_step, pump_from,
}

abbrev pub outcome : Next → Option (Result IoError PumpStats) × PumpState
outcome (continue s) = (none, s)
outcome (finish s r) = (some r, s)

module _ (started : ℕ) (opts : PumpOptions) where
  -- One more arrival, for a loop that waits.
  pub pump_from-append :
      (before : List Arrival) (a : Arrival) (s s' : PumpState)
      → pump_from started opts s before ≡ (none, s')
      → pump_from started opts s (before ++ a ∷ []) ≡ outcome (pump_step started opts s' a)
  unfolding pump_from
  pump_from-append [] a s s' h =
      rw (ap (λ r. r.1) h)
        (elim (pump_step started opts s' a)
          as (λ n. (elim n [ continue t ↦ (none, t) | finish t r ↦ (some r, t) ]) ≡ outcome n) [
            | continue t ↦ refl
            | finish t r ↦ refl
          ])
  pump_from-append (b ∷ rest) a s s' h =
      (elim (pump_step started opts s b)
          as (λ n.
            (elim n [ continue t ↦ pump_from started opts t rest | finish t r ↦ (some r, t) ])
              ≡ (none, s')
            → (elim n [
              | continue t ↦ pump_from started opts t (rest ++ a ∷ [])
              | finish t r ↦ (some r, t)
            ])
              ≡ outcome (pump_step started opts s' a)) [
                | continue t ↦ λ e. pump_from-append rest a t s' e
                | finish t r ↦ λ e. let k : some r ≡ none = ap (λ x. x.0) e in absurd cc
              ])
        h
