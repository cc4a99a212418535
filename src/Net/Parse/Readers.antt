-- ===== src/Net/Parse/Readers.antt =====
-- The readers of numbers and of IPv4 addresses, which the parser of `SocketAddr` is made of.
use rust_tcpao_proxy.Base.{
  ℕ, ◌<◌, ◌≡◌, refl, Bool, true, false, not, ◌&&◌, ◌||◌, List, Option, none, some, Text, length,
  All, ltb, leb, ◌==◌, if◌then◌else◌, arith,
}
use rust_tcpao_proxy.Net.Parse.{
  Reader, ◌>>=◌, ◌>>◌, pure, given_char, digits, starts_zero, read_number, octet, read_v4,
  separated,
}

-- What a reader gives has the property.
abbrev pub Holds : {A : Type 0} → (A → Type 0) → Option (A × Text) → Type 0
Holds P none = Unit
Holds P (some (a, rest)) = P a

abbrev pub Reads : {A : Type 0} → (A → Type 0) → Reader A → Type 0
Reads P m = (s : Text) → Holds P (m s)

pub Reads-bind :
    {A B : Type 0} (P : A → Type 0) (Q : B → Type 0) (m : Reader A) (f : A → Reader B)
    → Reads P m
    → ((a : A) → P a → Reads Q (f a))
    → Reads Q (m >>= f)
Reads-bind P Q m f h k s =
    (elim (m s) as (λ o. Holds P o → Holds Q (elim o [ none ↦ none | some (a, rest) ↦ f a rest ])) [
      | none ↦ λ _. tt
      | some (a, rest) ↦ λ p. k a p rest
    ])
      (h s)

pub Reads-pure : {A : Type 0} (P : A → Type 0) (a : A) → P a → Reads P (pure a)
Reads-pure P a h s = h

-- A separator says nothing of what follows it.
pub Reads-then :
    {B : Type 0} (Q : B → Type 0) (m : Reader (Unit {0})) (k : Reader B)
    → Reads Q k
    → Reads Q (m >> k)
Reads-then Q m k h s =
    elim (m s) as (λ o. Holds Q (elim o [ none ↦ none | some (a, rest) ↦ k rest ])) [
      | none ↦ tt
      | some (a, rest) ↦ h rest
    ]

Holds-if :
    {A : Type 0} (P : A → Type 0) (a b c d : Bool) (value : A) (rest : Text)
    → (c ≡ true → P value)
    → Holds P (if a && b && c && d then some (value, rest) else none)
Holds-if P true true true true value rest h = h refl
Holds-if P true true true false value rest h = tt
Holds-if P true true false d value rest h = tt
Holds-if P true false c d value rest h = tt
Holds-if P false b c d value rest h = tt

pub ltb_lem : (a b : ℕ) → ltb a b ≡ true → a < b
ltb_lem a b h = ground arith

pub read_number-bound :
    (radix : ℕ) (most : Option ℕ) (zeros : Bool) (bound : ℕ)
    → Reads (λ n. n < bound) (read_number radix most zeros bound)
unfolding read_number
read_number-bound radix most zeros bound s =
    let (value, count, rest) = digits radix 0 0 s in
    Holds-if (λ n. n < bound) (not (count == 0)) (elim most [ none ↦ true | some m ↦ leb count m ])
      (ltb value bound) (zeros || not (starts_zero s && ltb 1 count)) value rest
      (ltb_lem value bound)

-- Bytes, of a number that has the property.
pub record Octets (P : ℕ → Type 0) (os : List ℕ) : Type 0 where
  pub count : P (length os)
  pub bytes : All (λ o. o < 256) os

pub read_v4-Octets : Reads (Octets (λ n. n ≡ 4)) read_v4
unfolding read_v4 octet
read_v4-Octets =
    let each = read_number-bound 10 (some 3) false 256 in
    Reads-bind (λ n. n < 256) (Octets (λ n. n ≡ 4)) octet _ each
      λ a ha. Reads-then _ (given_char b'.') _ (
        Reads-bind (λ n. n < 256) (Octets (λ n. n ≡ 4)) octet _ each
          λ b hb. Reads-then _ (given_char b'.') _ (
            Reads-bind (λ n. n < 256) (Octets (λ n. n ≡ 4)) octet _ each
              λ c hc. Reads-then _ (given_char b'.') _ (
                Reads-bind (λ n. n < 256) (Octets (λ n. n ≡ 4)) octet _ each
                  λ d hd.
                    Reads-pure (Octets (λ n. n ≡ 4)) _
                      (record { count = refl; bytes = (ha, (hb, (hc, (hd, tt)))) }))))

pub separated-Reads :
    {A : Type 0} (P : A → Type 0) (first : Bool) (r : Reader A)
    → Reads P r
    → Reads P (separated first r)
unfolding separated
separated-Reads P true r h s = h s
separated-Reads P false r h s = Reads-then P (given_char b':') r h s
