-- ===== src/Config/Valid.antt =====
-- `Config::validate` of src/config.rs, described without the loops and the sets that it uses.
use rust_tcpao_proxy.Base.{
  ◌≡◌, refl, ◌↔◌, ◌≢◌, Bool, true, false, none, List, [], ◌∷◌, arith, Text, Result, ok, err, All,
  Distinct, list_eq_iff, is_empty, and_then, if◌then◌else◌,
}
use rust_tcpao_proxy.Net.{ip_eq_iff, port_eq_iff}
use rust_tcpao_proxy.Config.Types.{
  Config, Mode, initiator, terminator, AoPolicyConfig, KeySourceKind,
}
use rust_tcpao_proxy.Config.Keys.{kind_of}
use rust_tcpao_proxy.Config.Checks.{
  has_name, Tuple, tuple_eq, has_tuple, tuple_of, check_unique, check_key_sources, check_mode,
  check_nonempty, validate,
}

pub tuple_eq_iff : (t u : Tuple) → (tuple_eq t u ≡ true) ↔ (t ≡ u)
unfolding tuple_eq
tuple_eq_iff (a, p) (b, q) = ground (arith, ip_eq_iff a b, port_eq_iff p q)

has_name_iff : (n : Text) (ms : List Text) → (has_name n ms ≡ false) ↔ All (λ m. n ≢ m) ms
unfolding has_name
has_name_iff n [] = ground arith
has_name_iff n (m ∷ ms) = ground (arith, list_eq_iff n m, has_name_iff n ms)

has_tuple_iff : (t : Tuple) (us : List Tuple) → (has_tuple t us ≡ false) ↔ All (λ u. t ≢ u) us
unfolding has_tuple
has_tuple_iff t [] = ground arith
has_tuple_iff t (u ∷ us) = ground (arith, tuple_eq_iff t u, has_tuple_iff t us)

-- A policy whose name and peer are new to the sets.
abbrev IsNew : List Text → List Tuple → AoPolicyConfig → Type 0
IsNew names tuples p = All (λ m. p.name ≢ m) names × All (λ u. tuple_of p ≢ u) tuples

abbrev pub IsUnique : List AoPolicyConfig → Type 0
IsUnique ps = Distinct (λ p. p.name) ps × Distinct tuple_of ps

-- Policies that are new to the larger sets are new to the smaller ones, and differ from `p`.
All-IsNew_split :
    (names : List Text) (tuples : List Tuple) (p : AoPolicyConfig) (ps : List AoPolicyConfig)
    → All (IsNew (p.name ∷ names) (tuple_of p ∷ tuples)) ps ↔ (
        All (IsNew names tuples) ps
        × All (λ q. q.name ≢ p.name) ps
        × All (λ q. tuple_of q ≢ tuple_of p) ps)
All-IsNew_split names tuples p [] = (λ _. (tt, tt, tt), λ _. tt)
All-IsNew_split names tuples p (q ∷ ps) =
    let ih = All-IsNew_split names tuples p ps in
    (
      λ h. let (a, b, c) = ih.0 h.1 in (((h.0.0.1, h.0.1.1), a), (h.0.0.0, b), (h.0.1.0, c)),
      λ h. (((h.1.0, h.0.0.0), (h.2.0, h.0.0.1)), ih.1 (h.0.1, h.1.1, h.2.1)),
    )

-- Two guards in front of the rest.
guards_iff :
    {E : Type 0} (a b : Bool) (e f : E) (r : Result E (Unit {0}))
    → ((if a then err e else if b then err f else r) ≡ ok tt)
      ↔ ((a ≡ false) × (b ≡ false) × (r ≡ ok tt))
guards_iff true b e f r = ground arith
guards_iff false true e f r = ground arith
guards_iff false false e f r = ground arith

pub check_unique_iff :
    (names : List Text) (tuples : List Tuple) (ps : List AoPolicyConfig)
    → (check_unique names tuples ps ≡ ok tt) ↔ (All (IsNew names tuples) ps × IsUnique ps)
unfolding check_unique
check_unique_iff names tuples [] = (λ _. (tt, (tt, tt)), λ _. refl)
check_unique_iff names tuples (p ∷ ps) =
    let ih = check_unique_iff (p.name ∷ names) (tuple_of p ∷ tuples) ps in
    let split = All-IsNew_split names tuples p ps in
    let guards = guards_iff (has_name p.name names) (has_tuple (tuple_of p) tuples) _ _ _ in
    (
      λ h.
          let (a, b, c) = guards.0 h in
          let (fresh, unique) = ih.0 c in
          let (news, names_differ, tuples_differ) = split.0 fresh in
          (
            (((has_name_iff p.name names).0 a, (has_tuple_iff (tuple_of p) tuples).0 b), news),
            ((names_differ, unique.0), (tuples_differ, unique.1)),
          ),
      λ h. guards.1 (
        (has_name_iff p.name names).1 h.0.0.0,
        (has_tuple_iff (tuple_of p) tuples).1 h.0.0.1,
        ih.1 (split.1 (h.0.1, h.1.0.0, h.1.1.0), (h.1.0.1, h.1.1.1)),
      ),
    )

-- The text names a key source of a known kind.
abbrev pub HasKind : AoPolicyConfig → Type 0
HasKind p = (k : KeySourceKind) × (kind_of p.key_source ≡ ok k)

kind_first :
    {E A : Type 0} (r : Result E A) (rest : Result E (Unit {0}))
    → (and_then r (λ _. rest) ≡ ok tt) ↔ (((a : A) × (r ≡ ok a)) × (rest ≡ ok tt))
kind_first (ok a) rest = (λ h. ((a, refl), h), λ h. h.1)
kind_first (err e) rest = (λ h. cc, λ h. cc (h.0.1))

check_key_sources_iff : (ps : List AoPolicyConfig) → (check_key_sources ps ≡ ok tt) ↔ All HasKind ps
unfolding check_key_sources
check_key_sources_iff [] = (λ _. tt, λ _. refl)
check_key_sources_iff (p ∷ ps) =
    let ih = check_key_sources_iff ps in
    let first = kind_first (kind_of p.key_source) (check_key_sources ps) in
    (λ h. ((first.0 h).0, ih.0 (first.0 h).1), λ h. first.1 (h.0, ih.1 h.1))

-- The section for the mode is there.
abbrev pub HasSection : Config → Mode → Type 0
HasSection c initiator = c.initiator ≢ none
HasSection c terminator = c.terminator ≢ none

check_mode_iff : (c : Config) (mode : Mode) → (check_mode c mode ≡ ok tt) ↔ HasSection c mode
unfolding check_mode
check_mode_iff c initiator = ground arith
check_mode_iff c terminator = ground arith

check_nonempty_iff : (ps : List AoPolicyConfig) → (check_nonempty ps ≡ ok tt) ↔ (ps ≢ [])
unfolding check_nonempty is_empty
check_nonempty_iff [] = ground arith
check_nonempty_iff (p ∷ ps) = ground arith

unit_first :
    {E : Type 0} (r rest : Result E (Unit {0}))
    → (and_then r (λ _. rest) ≡ ok tt) ↔ ((r ≡ ok tt) × (rest ≡ ok tt))
unit_first (ok tt) rest = (λ h. (refl, h), λ h. h.1)
unit_first (err e) rest = (λ h. cc, λ h. cc (h.0))

-- What a configuration has to be to run in a mode.
pub record IsValid (c : Config) (mode : Mode) : Type 0 where
  pub section : HasSection c mode
  pub nonempty : c.ao_policy ≢ []
  pub kinds : All HasKind c.ao_policy
  pub unique : IsUnique c.ao_policy

fresh-All : (ps : List AoPolicyConfig) → All (IsNew [] []) ps
fresh-All [] = tt
fresh-All (p ∷ ps) = ((tt, tt), fresh-All ps)

-- `validate` accepts exactly the configurations that have the section of the mode and at least one
-- policy, whose key sources are all of a known kind, and in which no two policies share their name
-- and no two share their peer address and port.
pub validate_iff : (c : Config) (mode : Mode) → (validate c mode ≡ ok tt) ↔ IsValid c mode
unfolding validate
validate_iff c mode =
    let ps = c.ao_policy in
    let one = unit_first (check_mode c mode) _ in
    let two = unit_first (check_nonempty ps) _ in
    let three = unit_first (check_key_sources ps) (check_unique [] [] ps) in
    let last = check_unique_iff [] [] ps in
    (
      λ h.
          let (a, h₁) = one.0 h in
          let (b, h₂) = two.0 h₁ in
          let (d, h₃) = three.0 h₂ in
          record {
            section = (check_mode_iff c mode).0 a;
            nonempty = (check_nonempty_iff ps).0 b;
            kinds = (check_key_sources_iff ps).0 d;
            unique = (last.0 h₃).1;
          },
      λ v. one.1 (
        (check_mode_iff c mode).1 v.section,
        two.1 (
          (check_nonempty_iff ps).1 v.nonempty,
          three.1 ((check_key_sources_iff ps).1 v.kinds, last.1 (fresh-All ps, v.unique)),
        ),
      ),
    )
