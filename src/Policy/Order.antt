-- ===== src/Policy/Order.antt =====
-- `select_policy` of src/tcpao/policy.rs on lists of the same policies in another order.
use mathlib.Core.Logic.{∥∥₁_elim}
use mathlib.Core.Path.{subst, ap₂}
use mathlib.Core.List.{Perm, Permᴰ}
use rust_tcpao_proxy.Base.{
  ℕ, ◌≡◌, refl, sym, ◌∙◌, ◌≢◌, inl, inr, Bool, true, Option, none, some, List, [], ◌∷◌, All,
  Distinct, is_empty, Bool-cases,
}
use rust_tcpao_proxy.Net.{IpAddr}
use rust_tcpao_proxy.Config.{AoPolicyConfig, tuple_of}
use rust_tcpao_proxy.Config.Valid.{IsUnique}
use rust_tcpao_proxy.Policy.{
  find, keep, matches, matches_ip, sole, select_any_port, prefer, select_policy,
}
use rust_tcpao_proxy.Policy.Select.{matches_iff}

Perm_self : (ps : List AoPolicyConfig) → Permᴰ ps ps
Perm_self [] = Permᴰ.nil
Perm_self (p ∷ ps) = Permᴰ.cons refl (Perm_self ps)

-- A permutation of the items is one of those that pass a test.
keep-perm :
    (f : AoPolicyConfig → Bool) {ps qs : List AoPolicyConfig}
    → Permᴰ ps qs
    → Permᴰ (keep f ps) (keep f qs)
unfolding keep
keep-perm f Permᴰ.nil = Permᴰ.nil
keep-perm f (Permᴰ.cons {a = a} {b = b} e d) = elim (Bool-cases (f a)) [
  | inl t ↦ rw (t, rw e at t) (Permᴰ.cons e (keep-perm f d))
  | inr t ↦ rw (t, rw e at t) (keep-perm f d)
]
keep-perm f (Permᴰ.swap {a = a} {b = b} e e') = elim (Bool-cases (f a)) [
  | inl t ↦ elim (Bool-cases (f b)) [
    | inl u ↦ rw (t, u, rw e at t, rw e' at u) (Permᴰ.swap e e')
    | inr u ↦ rw (t, u, rw e at t, rw e' at u) (Permᴰ.cons e (Perm_self _))
  ]
  | inr t ↦ elim (Bool-cases (f b)) [
    | inl u ↦ rw (t, u, rw e at t, rw e' at u) (Permᴰ.cons e' (Perm_self _))
    | inr u ↦ rw (t, u, rw e at t, rw e' at u) (Perm_self _)
  ]
]
keep-perm f (Permᴰ.trans d d') = Permᴰ.trans (keep-perm f d) (keep-perm f d')

is_empty-perm : {ps qs : List AoPolicyConfig} → Permᴰ ps qs → is_empty ps ≡ is_empty qs
unfolding is_empty
is_empty-perm Permᴰ.nil = refl
is_empty-perm (Permᴰ.cons e d) = refl
is_empty-perm (Permᴰ.swap e e') = refl
is_empty-perm (Permᴰ.trans d d') = is_empty-perm d ∙ is_empty-perm d'

sole-perm : {ps qs : List AoPolicyConfig} → Permᴰ ps qs → sole ps ≡ sole qs
unfolding sole
sole-perm Permᴰ.nil = refl
sole-perm (Permᴰ.cons e d) = rw (is_empty-perm d, e) refl
sole-perm (Permᴰ.swap e e') = refl
sole-perm (Permᴰ.trans d d') = sole-perm d ∙ sole-perm d'

-- Only one item of a list with distinct peers can fit an address and a port.
keep-nil :
    (ip : IpAddr) (port : Option ℕ) (p : AoPolicyConfig) (ps : List AoPolicyConfig)
    → matches ip port p ≡ true
    → All (λ q. tuple_of q ≢ tuple_of p) ps
    → keep (matches ip port) ps ≡ []
unfolding keep
keep-nil ip port p [] h d = refl
keep-nil ip port p (q ∷ ps) h d = elim (Bool-cases (matches ip port q)) [
  | inr t ↦ rw t (keep-nil ip port p ps h d.1)
  | inl t ↦
      let (a, b) = (matches_iff ip port p).0 h in
      let (a', b') = (matches_iff ip port q).0 t in absurd (d.0 (cc))
]

-- So the first that fits is the only one.
find-eq-sole :
    (ip : IpAddr) (port : Option ℕ) (ps : List AoPolicyConfig)
    → Distinct tuple_of ps
    → find (matches ip port) ps ≡ sole (keep (matches ip port) ps)
unfolding find keep sole is_empty
find-eq-sole ip port [] d = refl
find-eq-sole ip port (p ∷ ps) d = elim (Bool-cases (matches ip port p)) [
  | inr t ↦ rw t (find-eq-sole ip port ps d.1)
  | inl t ↦ rw (t, keep-nil ip port p ps t d.0) refl
]

-- Two peers listed in one order are distinct in every other order.
All-perm :
    (t : AoPolicyConfig) {ps qs : List AoPolicyConfig}
    → Permᴰ ps qs
    → All (λ q. tuple_of q ≢ tuple_of t) ps
    → All (λ q. tuple_of q ≢ tuple_of t) qs
All-perm t Permᴰ.nil h = tt
All-perm t (Permᴰ.cons e d) h = (rw (sym e) h.0, All-perm t d h.1)
All-perm t (Permᴰ.swap e e') h = (rw (sym e') h.1.0, (rw (sym e) h.0, h.1.1))
All-perm t (Permᴰ.trans d d') h = All-perm t d' (All-perm t d h)

Distinct-perm :
    {ps qs : List AoPolicyConfig} → Permᴰ ps qs → Distinct tuple_of ps → Distinct tuple_of qs
Distinct-perm Permᴰ.nil h = tt
Distinct-perm (Permᴰ.cons {b = b} e d) h = (All-perm b d (rw e at h.0), Distinct-perm d h.1)
Distinct-perm (Permᴰ.swap {l = l} e e') h = (
  (λ k. h.0.0 (cc (sym k)), subst (λ x. All (λ q. tuple_of q ≢ tuple_of x) l) e' h.1.0),
  (subst (λ x. All (λ q. tuple_of q ≢ tuple_of x) l) e h.0.1, h.1.1),
)
Distinct-perm (Permᴰ.trans d d') h = Distinct-perm d' (Distinct-perm d h)

find-perm :
    (ip : IpAddr) (port : Option ℕ) {ps qs : List AoPolicyConfig}
    → Permᴰ ps qs
    → Distinct tuple_of ps
    → find (matches ip port) ps ≡ find (matches ip port) qs
find-perm ip port {ps} {qs} d h =
    find-eq-sole ip port ps h
    ∙ sole-perm (keep-perm (matches ip port) d)
    ∙ sym (find-eq-sole ip port qs (Distinct-perm d h))

select_any_port-perm :
    {xs xs' ys ys' : List AoPolicyConfig}
    → Permᴰ xs xs'
    → Permᴰ ys ys'
    → select_any_port xs ys ≡ select_any_port xs' ys'
unfolding select_any_port
select_any_port-perm {xs = []} {xs' = []} d d' = sole-perm d'
select_any_port-perm {xs = []} {xs' = x' ∷ xs'} d d' = unfold is_empty in cc (is_empty-perm d)
select_any_port-perm {xs = x ∷ xs} {xs' = []} d d' = unfold is_empty in cc (is_empty-perm d)
select_any_port-perm {xs = x ∷ xs} {xs' = x' ∷ xs'} d d' = sole-perm d

select_policy-permutation :
    (ip : IpAddr) (port : Option ℕ) {ps qs : List AoPolicyConfig}
    → Permᴰ ps qs
    → Distinct tuple_of ps
    → select_policy ps ip port ≡ select_policy qs ip port
unfolding select_policy
select_policy-permutation ip (some port) d h =
    ap₂ prefer (find-perm ip (some port) d h) (find-perm ip none d h)
select_policy-permutation ip none d h =
    select_any_port-perm (keep-perm (matches ip none) d) (keep-perm (matches_ip ip) d)

-- If no two policies share their name or their peer, `select_policy` gives the same policy in
-- whatever order the policies are listed.
pub select_policy-perm :
    (ip : IpAddr) (port : Option ℕ) (ps qs : List AoPolicyConfig)
    → IsUnique ps
    → Perm ps qs
    → select_policy ps ip port ≡ select_policy qs ip port
select_policy-perm ip port ps qs unique perm =
    ∥∥₁_elim perm (hlevel) (λ d. select_policy-permutation ip port d unique.1)
