-- ===== src/Policy/UnitTests.antt =====
-- The unit tests of src/tcpao/policy.rs, each as its assertions.
use rust_tcpao_proxy.Base.{
  ℕ, ◌≡◌, refl, Bool, true, false, ◌&&◌, Option, none, some, [], ◌∷◌, codes, String, list_eq, All,
}
use rust_tcpao_proxy.Net.{IpAddr, v4, ip_eq, port_eq}
use rust_tcpao_proxy.Config.{AoPolicyConfig}
use rust_tcpao_proxy.Policy.{select_policy}

-- The policies of the tests differ in the name and the port.
abbrev fixture : String → Option ℕ → AoPolicyConfig
fixture name port = record {
  name = codes name;
  peer_ip = v4 (10 ∷ 0 ∷ 0 ∷ 2 ∷ []);
  peer_port = port;
  keyid = 1;
  rnextkeyid = none;
  mac_alg = codes "hmac-sha256";
  key_source = record { source = codes "env:KEY" };
}

abbrev peer : IpAddr
peer = v4 (10 ∷ 0 ∷ 0 ∷ 2 ∷ [])

-- `expect`, and the comparison of the name.
abbrev is_named : String → Option AoPolicyConfig → Bool
is_named name none = false
is_named name (some p) = list_eq p.name (codes name)

abbrev same_name : Option AoPolicyConfig → Option AoPolicyConfig → Bool
same_name none q = false
same_name (some p) none = false
same_name (some p) (some q) = list_eq p.name q.name

abbrev is_none : Option AoPolicyConfig → Bool
is_none none = true
is_none (some p) = false

unfoldable policy_match_with_port_preference : Bool
unfolding select_policy ip_eq list_eq port_eq
policy_match_with_port_preference =
    is_named "with-port" (
      select_policy (fixture "no-port" none ∷ fixture "with-port" (some 1790) ∷ []) peer
        (some 1790))

unfoldable policy_falls_back_to_ip_match_when_port_is_missing : Bool
unfolding select_policy ip_eq list_eq port_eq
policy_falls_back_to_ip_match_when_port_is_missing =
    is_named "no-port" (select_policy (fixture "no-port" none ∷ []) peer (some 1790))

unfoldable policy_matches_port_specific_entry_when_port_is_unavailable : Bool
unfolding select_policy ip_eq list_eq port_eq
policy_matches_port_specific_entry_when_port_is_unavailable =
    is_named "with-port" (select_policy (fixture "with-port" (some 1790) ∷ []) peer none)

unfoldable policy_unknown_port_prefers_ip_only_if_present : Bool
unfolding select_policy ip_eq list_eq port_eq
policy_unknown_port_prefers_ip_only_if_present =
    is_named "ip-only"
      (select_policy (fixture "with-port" (some 1790) ∷ fixture "ip-only" none ∷ []) peer none)

unfoldable policy_unknown_port_fails_when_multiple_port_policies_exist_without_ip_only : Bool
unfolding select_policy ip_eq list_eq port_eq
policy_unknown_port_fails_when_multiple_port_policies_exist_without_ip_only = is_none (
    select_policy (fixture "with-port-a" (some 1790) ∷ fixture "with-port-b" (some 1791) ∷ []) peer
      none)

unfoldable policy_order_does_not_change_outcome_for_unknown_port : Bool
unfolding select_policy ip_eq list_eq port_eq
policy_order_does_not_change_outcome_for_unknown_port =
    is_named "ip-only"
      (select_policy (fixture "with-port" (some 1790) ∷ fixture "ip-only" none ∷ []) peer none)
    && same_name
        (select_policy (fixture "with-port" (some 1790) ∷ fixture "ip-only" none ∷ []) peer none)
        (select_policy (fixture "ip-only" none ∷ fixture "with-port" (some 1790) ∷ []) peer none)

passes :
    All
      (λ b. b ≡ true)
      (policy_match_with_port_preference ∷ policy_falls_back_to_ip_match_when_port_is_missing
        ∷ policy_matches_port_specific_entry_when_port_is_unavailable
        ∷ policy_unknown_port_prefers_ip_only_if_present
        ∷ policy_unknown_port_fails_when_multiple_port_policies_exist_without_ip_only
        ∷ policy_order_does_not_change_outcome_for_unknown_port ∷ [])
unfolding policy_match_with_port_preference policy_falls_back_to_ip_match_when_port_is_missing
    policy_matches_port_specific_entry_when_port_is_unavailable
    policy_unknown_port_prefers_ip_only_if_present
    policy_unknown_port_fails_when_multiple_port_policies_exist_without_ip_only
    policy_order_does_not_change_outcome_for_unknown_port
passes = (refl, (refl, (refl, (refl, (refl, (refl, tt))))))
