-- ===== src/Tcpao/UnitTests.antt =====
-- The unit tests of src/tcpao/linux.rs, each as its assertions. They run in a debug build; the
-- variable that `ScopedEnvVar` sets is that of the system they run on.
use rust_tcpao_proxy.Base.{
  ℕ, ◌≡◌, refl, Bool, true, false, ◌&&◌, Option, none, some, [], ◌∷◌, Text, codes, String, list_eq,
  replicate, ◌++◌, All, Result, ok, err, ◌==◌, if◌then◌else◌,
}
use rust_tcpao_proxy.Error.{IoError, custom, not_found, kind, str, end}
use rust_tcpao_proxy.Asserts.{is_ok, is_permission_denied, io_says}
use rust_tcpao_proxy.Net.{v4, v6, SocketAddr, new_addr}
use rust_tcpao_proxy.Os.{Os}
use rust_tcpao_proxy.Tcpao.Mac.{normalize_mac_alg}
use rust_tcpao_proxy.Tcpao.Storage.{prefix_len_for_ip}
use rust_tcpao_proxy.Tcpao.Sockopt.{test_best_effort_inbound_env}
use rust_tcpao_proxy.Tcpao.Session.{ensure_ao_required, handle_missing_inbound_ao_info}
use rust_tcpao_proxy.Samples.{system}

-- `expect`, and the comparison of the name and the length.
abbrev is_alg : String → ℕ → Result IoError (Text × ℕ) → Bool
is_alg name maclen (ok (n, l)) = list_eq n (codes name) && l == maclen
is_alg name maclen (err e) = false

abbrev is_denied : {A : Type 0} → Result IoError A → Bool
is_denied (ok a) = false
is_denied (err e) = is_permission_denied (kind e)

abbrev is_denied_with : {A : Type 0} → String → Result IoError A → Bool
is_denied_with p (ok a) = false
is_denied_with p (err e) = is_permission_denied (kind e) && io_says (codes p) e

unfoldable normalize_mac_alg_maps_known_values : Bool
unfolding normalize_mac_alg list_eq
normalize_mac_alg_maps_known_values =
    is_alg "hmac(sha1)" 12 (normalize_mac_alg (codes "hmac-sha1"))
    && is_alg "hmac(sha256)" 16 (normalize_mac_alg (codes "hmac-sha256"))

unfoldable prefix_len_uses_full_prefix_for_specific_addresses : Bool
unfolding prefix_len_for_ip
prefix_len_uses_full_prefix_for_specific_addresses =
    prefix_len_for_ip (v4 (127 ∷ 0 ∷ 0 ∷ 1 ∷ [])) == 32
    && prefix_len_for_ip (v6 (replicate 15 0 ++ 1 ∷ [])) == 128

unfoldable prefix_len_allows_unspecified_wildcard : Bool
unfolding prefix_len_for_ip
prefix_len_allows_unspecified_wildcard =
    prefix_len_for_ip (v4 (0 ∷ 0 ∷ 0 ∷ 0 ∷ [])) == 0 && prefix_len_for_ip (v6 (replicate 16 0)) == 0

-- `ScopedEnvVar::set`: one variable set, or removed.
unfoldable set_var : Text → Option Text → Os
unfolding list_eq
set_var key value = record system {
  debug_assertions = true;
  env_var = λ t name. if list_eq name key then value else none;
}

abbrev peer : SocketAddr
peer = new_addr (v4 (10 ∷ 0 ∷ 0 ∷ 2 ∷ [])) 1790

abbrev enoent_error : IoError
enoent_error = custom not_found (str "ENOENT" end)

unfoldable missing_inbound_ao_info_fails_in_strict_mode : Bool
unfolding handle_missing_inbound_ao_info set_var kind io_says
missing_inbound_ao_info_fails_in_strict_mode =
    is_denied_with "tcp-ao session info unavailable for peer"
      (handle_missing_inbound_ao_info (set_var test_best_effort_inbound_env none) peer enoent_error
        []).0

unfoldable missing_inbound_ao_info_allows_best_effort_when_enabled : Bool
unfolding handle_missing_inbound_ao_info set_var
missing_inbound_ao_info_allows_best_effort_when_enabled =
    is_ok
      (handle_missing_inbound_ao_info (set_var test_best_effort_inbound_env (some (codes "1"))) peer
        enoent_error []).0

unfoldable ensure_ao_required_rejects_zero_flag : Bool
unfolding ensure_ao_required kind
ensure_ao_required_rejects_zero_flag = is_denied (ensure_ao_required (record { ao_required = 0 }))

unfoldable ensure_ao_required_accepts_nonzero_flag : Bool
unfolding ensure_ao_required
ensure_ao_required_accepts_nonzero_flag = is_ok (ensure_ao_required (record { ao_required = 1 }))

passes :
    All
      (λ b. b ≡ true)
      (normalize_mac_alg_maps_known_values ∷ prefix_len_uses_full_prefix_for_specific_addresses
        ∷ prefix_len_allows_unspecified_wildcard ∷ missing_inbound_ao_info_fails_in_strict_mode
        ∷ missing_inbound_ao_info_allows_best_effort_when_enabled
        ∷ ensure_ao_required_rejects_zero_flag ∷ ensure_ao_required_accepts_nonzero_flag ∷ [])
unfolding normalize_mac_alg_maps_known_values prefix_len_uses_full_prefix_for_specific_addresses
    prefix_len_allows_unspecified_wildcard missing_inbound_ao_info_fails_in_strict_mode
    missing_inbound_ao_info_allows_best_effort_when_enabled ensure_ao_required_rejects_zero_flag
    ensure_ao_required_accepts_nonzero_flag
passes = (refl, (refl, (refl, (refl, (refl, (refl, (refl, tt)))))))
