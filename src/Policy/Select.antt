-- ===== src/Policy/Select.antt =====
-- `select_policy` of src/tcpao/policy.rs: which policies it can give, and when it gives none.
use rust_tcpao_proxy.Base.{
  ℕ, ◌≤◌, ◌≡◌, refl, ◌↔◌, ◌≢◌, ◌⊎◌, inl, inr, Bool, true, false, Option, none, some, List, [], ◌∷◌,
  arith, length, Any, Option-cases, is_empty,
}
use rust_tcpao_proxy.Net.{IpAddr, ip_eq_iff, port_eq_iff}
use rust_tcpao_proxy.Config.{AoPolicyConfig}
use rust_tcpao_proxy.Policy.{find, keep, matches, matches_ip, sole, select_any_port, select_policy}

-- A policy of the list with a property.
abbrev pub IsIn : AoPolicyConfig → List AoPolicyConfig → Type 0
IsIn p ps = Any (λ q. q ≡ p) ps

pub matches_iff :
    (ip : IpAddr) (port : Option ℕ) (p : AoPolicyConfig)
    → (matches ip port p ≡ true) ↔ ((p.peer_ip ≡ ip) × (p.peer_port ≡ port))
unfolding matches
matches_iff ip port p = ground (arith, ip_eq_iff p.peer_ip ip, port_eq_iff p.peer_port port)

pub matches_ip_iff :
    (ip : IpAddr) (p : AoPolicyConfig) → (matches_ip ip p ≡ true) ↔ (p.peer_ip ≡ ip)
unfolding matches_ip
matches_ip_iff ip p = ip_eq_iff p.peer_ip ip

module _ (f : AoPolicyConfig → Bool) where
  pub find-some :
      (ps : List AoPolicyConfig) {p : AoPolicyConfig}
      → find f ps ≡ some p
      → IsIn p ps × (f p ≡ true)
  unfolding find
  find-some [] h = cc
  find-some (q ∷ ps) {p} h = ground (arith, find-some ps {p = p})

  pub find-none :
      (ps : List AoPolicyConfig) {p : AoPolicyConfig} → find f ps ≡ none → IsIn p ps → f p ≡ false
  unfolding find
  find-none [] h m = absurd m
  find-none (q ∷ ps) {p} h (inl e) = ground arith
  find-none (q ∷ ps) {p} h (inr m) = find-none ps (ground arith) m

  pub keep-IsIn :
      (ps : List AoPolicyConfig) {p : AoPolicyConfig}
      → IsIn p (keep f ps)
      → IsIn p ps × (f p ≡ true)
  unfolding keep
  keep-IsIn [] m = absurd m
  keep-IsIn (q ∷ ps) {p} m = ground (arith, keep-IsIn ps {p = p})

pub sole-IsIn : (ps : List AoPolicyConfig) {p : AoPolicyConfig} → sole ps ≡ some p → IsIn p ps
unfolding sole
sole-IsIn [] h = cc
sole-IsIn (q ∷ ps) h = ground arith

select_any_port-IsIn :
    (xs ys : List AoPolicyConfig) {p : AoPolicyConfig}
    → select_any_port xs ys ≡ some p
    → IsIn p xs ⊎ IsIn p ys
unfolding select_any_port
select_any_port-IsIn [] ys h = inr (sole-IsIn ys h)
select_any_port-IsIn (x ∷ xs) ys h = inl (sole-IsIn (x ∷ xs) h)

-- The port of a chosen policy: the peer's own port, or any port.
abbrev pub PortFits : Option ℕ → Option ℕ → Type 0
PortFits (some port) q = (q ≡ some port) ⊎ (q ≡ none)
PortFits none q = Unit

abbrev pub Fits : List AoPolicyConfig → IpAddr → Option ℕ → AoPolicyConfig → Type 0
Fits ps ip port p = IsIn p ps × (p.peer_ip ≡ ip) × PortFits port p.peer_port

kept-Fits :
    (port : Option ℕ) (ps : List AoPolicyConfig) (ip : IpAddr) (p : AoPolicyConfig)
    → IsIn p (keep (matches ip port) ps)
    → Fits ps ip none p
kept-Fits port ps ip p m =
    let (here, fits) = keep-IsIn (matches ip port) ps m in
    (here, ((matches_iff ip port p).0 fits).0, tt)

-- A policy that is chosen is listed, has the peer's address, and, for a peer with a known port, has
-- that port or no port.
pub select_policy-Fits :
    (ps : List AoPolicyConfig) (ip : IpAddr) (port : Option ℕ) {p : AoPolicyConfig}
    → select_policy ps ip port ≡ some p
    → Fits ps ip port p
unfolding select_policy
select_policy-Fits ps ip (some port) {p} h =
    elim (Option-cases (find (matches ip (some port)) ps)) [
      | inr (q, e) ↦
          let same : q ≡ p = ground arith in
          let (here, fits) = find-some (matches ip (some port)) ps (rw same at e) in
          let (a, b) = (matches_iff ip (some port) p).0 fits in (here, a, inl b)
      | inl e ↦
          let (here, fits) = find-some (matches ip none) ps {p = p} (rw (e, select_policy) at h) in
          let (a, b) = (matches_iff ip none p).0 fits in (here, a, inr b)
    ]
select_policy-Fits ps ip none {p} h = elim (select_any_port-IsIn _ _ h) [
  | inl m ↦ kept-Fits none ps ip p m
  | inr m ↦
      let (here, fits) = keep-IsIn (matches_ip ip) ps m in (here, (matches_ip_iff ip p).0 fits, tt)
]

-- A policy for exactly the peer's address and port always wins over one for any port.
pub select_policy-prefers :
    (ps : List AoPolicyConfig) (ip : IpAddr) (port : ℕ) (p : AoPolicyConfig)
    → IsIn p ps
    → p.peer_ip ≡ ip
    → p.peer_port ≡ some port
    → (q : AoPolicyConfig) × (select_policy ps ip (some port) ≡ some q) × (q.peer_port ≡ some port)
unfolding select_policy
select_policy-prefers ps ip port p m a b = elim (Option-cases (find (matches ip (some port)) ps)) [
  | inr (q, e) ↦ (
    q,
    rw (e, select_policy) refl,
    ((matches_iff ip (some port) q).0 (find-some (matches ip (some port)) ps e).1).1,
  )
  | inl e ↦ cc (find-none (matches ip (some port)) ps e m, (matches_iff ip (some port) p).1 (a, b))
]

-- How many policies pass a test.
abbrev pub count : (AoPolicyConfig → Bool) → List AoPolicyConfig → ℕ
count f ps = length (keep f ps)

sole-none_iff : (ps : List AoPolicyConfig) → (sole ps ≡ none) ↔ (length ps ≢ 1)
unfolding sole is_empty
sole-none_iff [] = ground arith
sole-none_iff (p ∷ []) = ground arith
sole-none_iff (p ∷ q ∷ ps) = ground arith

-- Without a port nothing is chosen exactly when the choice is empty or ambiguous: two or more
-- policies for any port, or none of these and not exactly one policy for the address.
pub select_policy-ambiguous_iff :
    (ps : List AoPolicyConfig) (ip : IpAddr)
    → (select_policy ps ip none ≡ none) ↔ (
        (2 ≤ count (matches ip none) ps)
        ⊎ ((count (matches ip none) ps ≡ 0) × (count (matches_ip ip) ps ≢ 1)))
unfolding select_policy
select_policy-ambiguous_iff ps ip = go (keep (matches ip none) ps) (keep (matches_ip ip) ps)
  where
    go :
        (xs ys : List AoPolicyConfig)
        → (select_any_port xs ys ≡ none) ↔ ((2 ≤ length xs) ⊎ ((length xs ≡ 0) × (length ys ≢ 1)))
    go [] ys = ground (arith, sole-none_iff ys)
    go (x ∷ xs) ys = ground (arith, sole-none_iff (x ∷ xs))
