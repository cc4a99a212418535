-- ===== src/Os/Invert.antt =====
-- What the success of a sequence of actions says of its parts.
use rust_tcpao_proxy.Base.{◌≡◌, refl, ap, Result, ok, err, map_err}
use rust_tcpao_proxy.Os.{Trace, Action, ◌>>=◌, ◌>>◌, resume}

-- The first part succeeded, and the second ended the whole.
pub record Splits {E A B : Type 0} (m : Action E A) (f : A → Action E B) (b : B) (t : Trace)
    : Type 0 where
  pub value : A
  pub first : (m t).0 ≡ ok value
  pub second : (f value (m t).1).0 ≡ ok b
  pub final : ((m >>= f) t).1 ≡ (f value (m t).1).1

pub >>=-Splits :
    {E A B : Type 0} (m : Action E A) (f : A → Action E B) (t : Trace) {b : B}
    → ((m >>= f) t).0 ≡ ok b
    → Splits m f b t
>>=-Splits {E} {A} {B} m f t {b} h = go (m t).0 refl h
  where
    go : (r : Result E A) → (m t).0 ≡ r → (resume f (r, (m t).1)).0 ≡ ok b → Splits m f b t
    go (ok a) e h' = record {
      value = a;
      first = e;
      second = h';
      final = ap (λ x. (resume f (x, (m t).1)).1) e;
    }
    go (err x) e h' = cc

-- The same for a first part without a value.
pub record Follows {E B : Type 0} (m : Action E (Unit {0})) (k : Action E B) (b : B) (t : Trace)
    : Type 0 where
  pub first : (m t).0 ≡ ok tt
  pub second : (k (m t).1).0 ≡ ok b
  pub final : ((m >> k) t).1 ≡ (k (m t).1).1

pub >>-Follows :
    {E B : Type 0} (m : Action E (Unit {0})) (k : Action E B) (t : Trace) {b : B}
    → ((m >> k) t).0 ≡ ok b
    → Follows m k b t
>>-Follows {E} {B} m k t {b} h = go (m t).0 refl h
  where
    go :
        (r : Result E (Unit {0}))
        → (m t).0 ≡ r
        → (resume (λ _. k) (r, (m t).1)).0 ≡ ok b
        → Follows m k b t
    go (ok tt) e h' = record {
      first = e;
      second = h';
      final = ap (λ x. (resume (λ _. k) (x, (m t).1)).1) e;
    }
    go (err x) e h' = cc

-- An action that succeeds after `map_err` has succeeded before.
pub map_err-ok :
    {E F A : Type 0} (g : E → F) (r : Result E A) {a : A} → map_err g r ≡ ok a → r ≡ ok a
map_err-ok g (ok b) h = cc
map_err-ok g (err x) h = cc

-- Sequences of actions by where they are grouped.
pub >>=_assoc :
    {E A B C : Type 0} (m : Action E A) (f : A → Action E B) (g : B → Action E C) (t : Trace)
    → ((m >>= f) >>= g) t ≡ (m >>= λ a. f a >>= g) t
>>=_assoc {E} {A} {B} {C} m f g t = go (m t)
  where
    go : (r : Result E A × Trace) → resume g (resume f r) ≡ resume (λ a. f a >>= g) r
    go (ok a, t') = refl
    go (err e, t') = refl

pub >>=_cong :
    {E A B : Type 0} (m : Action E A) (f g : A → Action E B)
    → ((a : A) (t : Trace) → f a t ≡ g a t)
    → (t : Trace) → (m >>= f) t ≡ (m >>= g) t
>>=_cong {E} {A} {B} m f g h t = go (m t)
  where
    go : (r : Result E A × Trace) → resume f r ≡ resume g r
    go (ok a, t') = h a t'
    go (err e, t') = refl
