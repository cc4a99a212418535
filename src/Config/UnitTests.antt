-- ===== src/Config/UnitTests.antt =====
-- The unit tests of src/config.rs, each as its assertions.
use rust_tcpao_proxy.Base.{
  ℕ, ◌≡◌, refl, Bool, true, false, ◌&&◌, Option, none, some, List, [], ◌∷◌, codes, String, list_eq,
  All, Result, ok, err,
}
use rust_tcpao_proxy.Error.{ProxyError, display}
use rust_tcpao_proxy.Asserts.{is_ok, is_err, says}
use rust_tcpao_proxy.Net.{IpAddr, v4, ip_eq, port_eq}
use rust_tcpao_proxy.Config.Types.{
  initiator, terminator, Config, AoPolicyConfig, default_global, KeySourceKind, file, env,
}
use rust_tcpao_proxy.Config.Keys.{kind_of}
use rust_tcpao_proxy.Config.Checks.{validate}

abbrev policy : String → IpAddr → Option ℕ → AoPolicyConfig
policy name peer_ip peer_port = record {
  name = codes name;
  peer_ip = peer_ip;
  peer_port = peer_port;
  keyid = 1;
  rnextkeyid = none;
  mac_alg = codes "hmac-sha256";
  key_source = record { source = codes "env:TCPAO_KEY" };
}

abbrev base_config : List AoPolicyConfig → Config
base_config ao_policy = record {
  global = default_global;
  initiator =
      some (record { listen_plain = codes "127.0.0.1:5000"; remote_ao = codes "127.0.0.1:1790" });
  terminator =
      some (record { listen_ao = codes "0.0.0.0:1790"; forward_plain = codes "127.0.0.1:11019" });
  ao_policy = ao_policy;
}

abbrev second_ip : IpAddr
second_ip = v4 (10 ∷ 0 ∷ 0 ∷ 2 ∷ [])

abbrev third_ip : IpAddr
third_ip = v4 (10 ∷ 0 ∷ 0 ∷ 3 ∷ [])

-- `expect_err`, and what `to_string` contains.
abbrev fails_with : {A : Type 0} → String → Result ProxyError A → Bool
fails_with p (ok a) = false
fails_with p (err e) = says (codes p) (display e)

abbrev is_env : String → Result ProxyError KeySourceKind → Bool
is_env name (ok (env v)) = list_eq v (codes name)
is_env name (ok (file v)) = false
is_env name (err e) = false

unfoldable key_source_env_is_parsed : Bool
unfolding kind_of list_eq
key_source_env_is_parsed = is_env "TCPAO_KEY" (kind_of (record { source = codes "env:TCPAO_KEY" }))

unfoldable key_source_rejects_invalid_prefix : Bool
unfolding kind_of
key_source_rejects_invalid_prefix = is_err (kind_of (record { source = codes "vault:secret/path" }))

unfoldable validate_rejects_duplicate_policy_names : Bool
unfolding validate list_eq ip_eq port_eq says display
validate_rejects_duplicate_policy_names = fails_with "duplicate ao_policy name" (
    validate
      (base_config
        (policy "peer-a" second_ip (some 1790) ∷ policy "peer-a" third_ip (some 1790) ∷ []))
      initiator)

unfoldable validate_rejects_duplicate_peer_tuple_with_port : Bool
unfolding validate list_eq ip_eq port_eq says display
validate_rejects_duplicate_peer_tuple_with_port = fails_with "duplicate ao_policy peer tuple" (
    validate
      (base_config
        (policy "peer-a" second_ip (some 1790) ∷ policy "peer-b" second_ip (some 1790) ∷ []))
      terminator)

unfoldable validate_rejects_duplicate_peer_tuple_without_port : Bool
unfolding validate list_eq ip_eq port_eq says display
validate_rejects_duplicate_peer_tuple_without_port = fails_with "duplicate ao_policy peer tuple" (
    validate (base_config (policy "peer-a" second_ip none ∷ policy "peer-b" second_ip none ∷ []))
      terminator)

abbrev unique : Config
unique = base_config (
    policy "peer-a" second_ip (some 1790)
    ∷ policy "peer-b" second_ip none
    ∷ policy "peer-c" third_ip (some 1790)
    ∷ [])

unfoldable validate_accepts_unique_names_and_peer_tuples : Bool
unfolding validate list_eq ip_eq port_eq
validate_accepts_unique_names_and_peer_tuples =
    is_ok (validate unique initiator) && is_ok (validate unique terminator)

passes :
    All
      (λ b. b ≡ true)
      (key_source_env_is_parsed ∷ key_source_rejects_invalid_prefix
        ∷ validate_rejects_duplicate_policy_names ∷ validate_rejects_duplicate_peer_tuple_with_port
        ∷ validate_rejects_duplicate_peer_tuple_without_port
        ∷ validate_accepts_unique_names_and_peer_tuples ∷ [])
unfolding key_source_env_is_parsed key_source_rejects_invalid_prefix
    validate_rejects_duplicate_policy_names validate_rejects_duplicate_peer_tuple_with_port
    validate_rejects_duplicate_peer_tuple_without_port validate_accepts_unique_names_and_peer_tuples
passes = (refl, (refl, (refl, (refl, (refl, (refl, tt))))))
