-- ===== src/Policy/Tests.antt =====
-- The choice of a policy on the sample policies.
use mathlib.Core.Path.{refl}
use mathlib.Core.List.{Permᴰ}
use rust_tcpao_proxy.Base.{◌≡◌, ◌↔◌, ◌⊎◌, ◌≢◌, ◌≤◌, inl, inr, none, some, [], ◌∷◌, list_eq}
use rust_tcpao_proxy.Net.{ip_eq, port_eq}
use rust_tcpao_proxy.Policy.{matches, matches_ip, select_policy}
use rust_tcpao_proxy.Policy.Select.{
  Fits, count, select_policy-Fits, select_policy-prefers, select_policy-ambiguous_iff,
}
use rust_tcpao_proxy.Policy.Spec.{Chooses, select_policy_iff}
use rust_tcpao_proxy.Policy.Order.{select_policy-perm}
use rust_tcpao_proxy.Config.{AoPolicyConfig}
use rust_tcpao_proxy.Config.Accepts.{config-IsValid}
use rust_tcpao_proxy.Samples.{peer_ip, other_ip, exact, any_port, other, policies}

chooses_exact : select_policy policies peer_ip (some 1790) ≡ some exact
unfolding select_policy ip_eq list_eq port_eq
chooses_exact = refl

chooses_any_port : select_policy policies peer_ip (some 179) ≡ some any_port
unfolding select_policy ip_eq list_eq port_eq
chooses_any_port = refl

chooses_only_one : select_policy policies other_ip none ≡ some other
unfolding select_policy ip_eq list_eq port_eq
chooses_only_one = refl

chooses_none : select_policy (exact ∷ any_port ∷ any_port ∷ []) peer_ip none ≡ none
unfolding select_policy ip_eq list_eq port_eq
chooses_none = refl

select_policy-Fits_run : Fits policies peer_ip (some 179) any_port
select_policy-Fits_run = select_policy-Fits policies peer_ip (some 179) chooses_any_port

exact-preferred :
    (q : AoPolicyConfig) × (select_policy policies peer_ip (some 1790) ≡ some q)
    × (q.peer_port ≡ some 1790)
exact-preferred = select_policy-prefers policies peer_ip 1790 exact (inr (inl refl)) refl refl

select_policy-ambiguous_run : (select_policy policies peer_ip none ≡ none) ↔ (
    (2 ≤ count (matches peer_ip none) policies)
    ⊎ ((count (matches peer_ip none) policies ≡ 0) × (count (matches_ip peer_ip) policies ≢ 1)))
select_policy-ambiguous_run = select_policy-ambiguous_iff policies peer_ip

select_policy-perm_example :
    select_policy policies peer_ip none ≡ select_policy (exact ∷ any_port ∷ other ∷ []) peer_ip none
select_policy-perm_example =
    select_policy-perm peer_ip none policies (exact ∷ any_port ∷ other ∷ []) config-IsValid.unique
      ∣ Permᴰ.swap refl refl ∣₁

select_policy_iff_example :
    (select_policy policies peer_ip none ≡ some any_port) ↔ Chooses policies peer_ip none any_port
select_policy_iff_example = select_policy_iff policies peer_ip none any_port config-IsValid.unique
