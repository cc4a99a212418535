-- ===== src/Tcpao/Sockopt.antt =====
-- The socket options of TCP-AO, and the switches that debug builds read from the environment.
use rust_tcpao_proxy.Base.{
  ℕ, Bool, false, ◌||◌, not, Option, none, some, Text, String, codes, ◌==◌, if◌then◌else◌, [], ◌∷◌,
}
use rust_tcpao_proxy.Error.{
  IoError, custom, unsupported, kind, raw_os_error, str, show_io, end, enoprotoopt, eopnotsupp,
}
use rust_tcpao_proxy.Os.{
  Os, Action, ◌>>=◌, pure, mapping, getenv, sys_setsockopt, sys_getsockopt, SockOpt, ao_info,
  AoInfo,
}
use rust_tcpao_proxy.Tcpao.Mac.{one_of}

abbrev pub test_bypass_env : Text
test_bypass_env = codes "TCPAO_PROXY_TEST_NO_AO"

abbrev pub test_best_effort_inbound_env : Text
test_best_effort_inbound_env = codes "TCPAO_PROXY_TEST_ALLOW_BEST_EFFORT_INBOUND_AO"

-- The message of a failed call, and which kind of error it becomes.
unfoldable pub normalize_ao_error : String → IoError → IoError
unfolding kind raw_os_error
normalize_ao_error context e = elim (raw_os_error e) [
  | some code ↦
      if code == enoprotoopt || code == eopnotsupp
      then custom unsupported
          (str context (str " failed: kernel does not support tcp-ao (" (show_io e (str ")" end))))
      else custom (kind e) (str context (str " failed: " (show_io e end)))
  | none ↦ custom (kind e) (str context (str " failed: " (show_io e end)))
]

-- The values that switch a variable on.
unfoldable pub is_true : Option Text → Bool
unfolding one_of
is_true none = false
is_true (some v) =
    one_of v (codes "1" ∷ codes "true" ∷ codes "TRUE" ∷ codes "yes" ∷ codes "YES" ∷ [])

module _ (sys : Os) where
  unfoldable pub env_var_true : {E : Type 0} → Text → Action E Bool
  unfolding is_true
  env_var_true name = do v ← getenv sys name; pure (is_true v)

  -- A switch that only debug builds read.
  unfoldable pub allow : {E : Type 0} → Text → Action E Bool
  unfolding env_var_true
  allow name = if not sys.debug_assertions then pure false else env_var_true name

  unfoldable pub allow_test_bypass : {E : Type 0} → Action E Bool
  unfolding allow
  allow_test_bypass = allow test_bypass_env

  unfoldable pub allow_best_effort_inbound_ao : {E : Type 0} → Action E Bool
  unfolding allow
  allow_best_effort_inbound_ao = allow test_best_effort_inbound_env

  unfoldable pub setsockopt_tcp : ℕ → SockOpt → String → Action IoError (Unit {0})
  unfolding normalize_ao_error
  setsockopt_tcp fd opt context = mapping (normalize_ao_error context) (sys_setsockopt sys fd opt)

  unfoldable pub set_ao_required : ℕ → Bool → Action IoError (Unit {0})
  unfolding setsockopt_tcp
  set_ao_required fd required =
      setsockopt_tcp fd (ao_info (record { ao_required = if required then 1 else 0 })) "TCP_AO_INFO"

  unfoldable pub get_ao_info : ℕ → Action IoError AoInfo
  unfolding normalize_ao_error
  get_ao_info fd = mapping (normalize_ao_error "TCP_AO_INFO getsockopt") (sys_getsockopt sys fd)
