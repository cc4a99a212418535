-- ===== src/Policy/Spec.antt =====
-- `select_policy` of src/tcpao/policy.rs against what it is to choose, on policies with distinct peers.
use mathlib.Core.Path.{subst}
use rust_tcpao_proxy.Base.{
  ℕ, ◌≡◌, refl, sym, ap, ◌∙◌, ◌↔◌, ◌⊎◌, inl, inr, true, Option, none, some, List, [], ◌∷◌, is_empty,
  Bool-cases, Option-cases, some-eq,
}
use rust_tcpao_proxy.Net.{IpAddr}
use rust_tcpao_proxy.Config.{AoPolicyConfig}
use rust_tcpao_proxy.Config.Valid.{IsUnique}
use rust_tcpao_proxy.Policy.{
  find, keep, matches, matches_ip, sole, select_any_port, prefer, select_policy,
}
use rust_tcpao_proxy.Policy.Select.{
  IsIn, matches_iff, matches_ip_iff, find-some, find-none, keep-IsIn,
}
use rust_tcpao_proxy.Policy.Unique.{same_peer, keep-empty, keep-only, kept, find-only, sole-only}

-- A policy for exactly the address and the port.
abbrev pub IsFor : List AoPolicyConfig → IpAddr → Option ℕ → AoPolicyConfig → Type 0
IsFor ps ip port p = IsIn p ps × (p.peer_ip ≡ ip) × (p.peer_port ≡ port)

abbrev pub HasNone : List AoPolicyConfig → IpAddr → Option ℕ → Type 0
HasNone ps ip port = (q : AoPolicyConfig) → ¬ IsFor ps ip port q

-- For a known port: the policy for it, or else the one for any port. For an unknown port: the policy
-- for any port, or else the only one for the address.
abbrev pub Chooses : List AoPolicyConfig → IpAddr → Option ℕ → AoPolicyConfig → Type 0
Chooses ps ip (some n) p = IsFor ps ip (some n) p ⊎ (HasNone ps ip (some n) × IsFor ps ip none p)
Chooses ps ip none p =
    IsFor ps ip none p
    ⊎ (HasNone ps ip none
        × IsIn p ps
        × (p.peer_ip ≡ ip)
        × ((q : AoPolicyConfig) → IsIn q ps → q.peer_ip ≡ ip → q ≡ p))

module _ (ps : List AoPolicyConfig) (unique : IsUnique ps) (ip : IpAddr) where
  -- What passes `matches` is for the address and the port, and there is only one.
  find-IsFor :
      (port : Option ℕ) {p : AoPolicyConfig}
      → find (matches ip port) ps ≡ some p
      → IsFor ps ip port p
  find-IsFor port {p} e =
      let (m, t) = find-some (matches ip port) ps e in
      let (a, b) = (matches_iff ip port p).0 t in (m, a, b)

  find-HasNone : (port : Option ℕ) → find (matches ip port) ps ≡ none → HasNone ps ip port
  find-HasNone port e q (m, a, b) =
      let fails = find-none (matches ip port) ps e m in
      let passes = (matches_iff ip port q).1 (a, b) in absurd cc

  IsFor-only :
      (port : Option ℕ) (p : AoPolicyConfig)
      → IsFor ps ip port p
      → (q : AoPolicyConfig) → IsIn q ps
      → matches ip port q ≡ true
      → q ≡ p
  IsFor-only port p (m, a, b) q n t =
      let (a', b') = (matches_iff ip port q).0 t in same_peer ps q p unique.1 n m cc

  IsFor-find :
      (port : Option ℕ) (p : AoPolicyConfig)
      → IsFor ps ip port p
      → find (matches ip port) ps ≡ some p
  IsFor-find port p (m, a, b) =
      find-only (matches ip port) ps p m ((matches_iff ip port p).1 (a, b))
        (IsFor-only port p (m, a, b))

  HasNone-find : (port : Option ℕ) → HasNone ps ip port → find (matches ip port) ps ≡ none
  HasNone-find port h = elim (Option-cases (find (matches ip port) ps)) [
    | inl e ↦ e
    | inr (q, e) ↦ absurd (h q (find-IsFor port e))
  ]

  IsFor-keep :
      (port : Option ℕ) (p : AoPolicyConfig)
      → IsFor ps ip port p
      → keep (matches ip port) ps ≡ p ∷ []
  IsFor-keep port p (m, a, b) =
      keep-only (matches ip port) ps p unique.1 m ((matches_iff ip port p).1 (a, b))
        (IsFor-only port p (m, a, b))

  HasNone-keep : (port : Option ℕ) → HasNone ps ip port → keep (matches ip port) ps ≡ []
  HasNone-keep port h = keep-empty (matches ip port) ps λ q m.
      elim (Bool-cases (matches ip port q)) [
        | inr fails ↦ fails
        | inl passes ↦ let (a, b) = (matches_iff ip port q).0 passes in absurd (h q (m, a, b))
      ]

  known-Chooses :
      (n : ℕ) (p : AoPolicyConfig)
      → select_policy ps ip (some n) ≡ some p
      → Chooses ps ip (some n) p
  unfolding select_policy
  known-Chooses n p h = elim (Option-cases (find (matches ip (some n)) ps)) [
    | inr (q, e) ↦
        let same : q ≡ p = some-eq (rw (e, prefer) at h) in
        inl (find-IsFor (some n) (e ∙ ap some same))
    | inl e ↦ inr (find-HasNone (some n) e, find-IsFor none (rw (e, prefer) at h))
  ]

  Chooses-known :
      (n : ℕ) (p : AoPolicyConfig)
      → Chooses ps ip (some n) p
      → select_policy ps ip (some n) ≡ some p
  unfolding select_policy prefer
  Chooses-known n p (inl h) = rw (IsFor-find (some n) p h) refl
  Chooses-known n p (inr (h, k)) = rw (HasNone-find (some n) h, IsFor-find none p k) refl

  Chooses-unknown : (p : AoPolicyConfig) → Chooses ps ip none p → select_policy ps ip none ≡ some p
  unfolding select_policy select_any_port sole is_empty
  Chooses-unknown p (inl h) = rw (IsFor-keep none p h) refl
  Chooses-unknown p (inr (h, m, a, only)) =
      let alone : keep (matches_ip ip) ps ≡ p ∷ [] =
        keep-only (matches_ip ip) ps p unique.1 m ((matches_ip_iff ip p).1 a)
          (λ q n t. only q n ((matches_ip_iff ip q).0 t)) in
      rw (HasNone-keep none h, alone) refl

  -- The choice without a port, by what is kept for any port.
  by_kept :
      (p : AoPolicyConfig) (l : List AoPolicyConfig)
      → keep (matches ip none) ps ≡ l
      → select_any_port l (keep (matches_ip ip) ps) ≡ some p
      → Chooses ps ip none p
  unfolding select_any_port
  by_kept p [] e h =
      let alone = sole-only (keep (matches_ip ip) ps) p h in
      let (m, t) = keep-IsIn (matches_ip ip) ps (rw alone (inl refl)) in
      inr (
        λ q (n, a, b). rw e at (kept (matches ip none) ps q n ((matches_iff ip none q).1 (a, b))),
        m,
        (matches_ip_iff ip p).0 t,
        λ q n a. only-one (rw alone at (kept (matches_ip ip) ps q n ((matches_ip_iff ip q).1 a))),
      )
    where
      only-one : {q : AoPolicyConfig} → IsIn q (p ∷ []) → q ≡ p
      only-one (inl same) = sym same
      only-one (inr m) = absurd m
  by_kept p (x ∷ rest) e h =
      let alone = sole-only (x ∷ rest) p h in
      let (m, t) =
        keep-IsIn (matches ip none) ps {p = p} (rw e (subst (IsIn p) (sym alone) (inl refl))) in
      let (a, b) = (matches_iff ip none p).0 t in inl (m, a, b)

  unknown-Chooses : (p : AoPolicyConfig) → select_policy ps ip none ≡ some p → Chooses ps ip none p
  unfolding select_policy
  unknown-Chooses p h = by_kept p (keep (matches ip none) ps) refl h

-- On policies with distinct names and distinct peers, `select_policy` gives a policy exactly if it is: for a
-- known port, the one for the address and that port, or, where there is none, the one for the
-- address and any port; for an unknown port, the one for the address and any port, or, where there is
-- none, the only one for the address.
pub select_policy_iff :
    (ps : List AoPolicyConfig) (ip : IpAddr) (port : Option ℕ) (p : AoPolicyConfig)
    → IsUnique ps
    → (select_policy ps ip port ≡ some p) ↔ Chooses ps ip port p
select_policy_iff ps ip (some n) p unique =
    (known-Chooses ps unique ip n p, Chooses-known ps unique ip n p)
select_policy_iff ps ip none p unique =
    (unknown-Chooses ps unique ip p, Chooses-unknown ps unique ip p)
