-- ===== src/Tcpao/Armed.antt =====
-- `apply_outbound_policy` of src/tcpao/linux.rs: the state of a socket after it.
use rust_tcpao_proxy.Base.{
  ℕ, ◌≡◌, refl, ap, ◌∙◌, ◌≢◌, inl, inr, Bool, true, false, List, [], ◌∷◌, arith, String, ok, Any,
}
use rust_tcpao_proxy.Net.{SocketAddr}
use rust_tcpao_proxy.Config.{AoPolicyConfig, load_key_bytes}
use rust_tcpao_proxy.Config.Source.{load_key_bytes_iff}
use rust_tcpao_proxy.Os.{
  Os, Event, setsockopt, SockOpt, ao_add_key, ao_info, TcpAoAdd, Trace, lift, ◌>>◌,
}
use rust_tcpao_proxy.Os.Invert.{>>=-Splits, >>-Follows, map_err-ok}
use rust_tcpao_proxy.Tcpao.Sockopt.{allow, allow_test_bypass, setsockopt_tcp, set_ao_required}
use rust_tcpao_proxy.Tcpao.Key.{policy_key_bytes, key_request, install_key}
use rust_tcpao_proxy.Tcpao.Policies.{arm_outbound, apply_outbound_policy}

-- The key was loaded from the policy's source, at some time, and is not empty.
abbrev pub IsKeyOf : Os → AoPolicyConfig → List ℕ → Type 0
IsKeyOf sys p key = (key ≢ []) × ((t : Trace) × ((load_key_bytes sys p.key_source t).0 ≡ ok key))

-- A call that installed a key of a policy for a peer, by the request that `install_key` makes of it.
abbrev pub InstallsKey : Os → AoPolicyConfig → SocketAddr → ℕ → Bool → Event → Type 0
InstallsKey sys p peer fd current e =
    (k : TcpAoAdd) × (key : List ℕ) × IsKeyOf sys p key
    × (key_request sys.endian p peer key current ≡ ok k)
    × (e ≡ setsockopt fd (ao_add_key k) (ok tt))

-- A call that made TCP-AO required.
abbrev pub require_event : ℕ → Event
require_event fd = setsockopt fd (ao_info (record { ao_required = 1 })) (ok tt)

abbrev pub RequiresAo : ℕ → Event → Type 0
RequiresAo fd e = e ≡ require_event fd

abbrev pub IsArmed : Os → AoPolicyConfig → SocketAddr → ℕ → Trace → Type 0
IsArmed sys p peer fd t = Any (InstallsKey sys p peer fd true) t × Any (RequiresAo fd) t

module _ (sys : Os) where
  setsockopt_tcp-ok :
      (fd : ℕ) (opt : SockOpt) (context : String) (t : Trace)
      → (setsockopt_tcp sys fd opt context t).0 ≡ ok tt
      → (setsockopt_tcp sys fd opt context t).1 ≡ setsockopt fd opt (ok tt) ∷ t
  unfolding setsockopt_tcp
  setsockopt_tcp-ok fd opt context t h = ground arith

  pub set_ao_required-ok :
      (fd : ℕ) (t : Trace)
      → (set_ao_required sys fd true t).0 ≡ ok tt
      → (set_ao_required sys fd true t).1 ≡ require_event fd ∷ t
  unfolding set_ao_required
  set_ao_required-ok fd t h = setsockopt_tcp-ok fd _ "TCP_AO_INFO" t h

  pub install_key-ok :
      (fd : ℕ) (p : AoPolicyConfig) (peer : SocketAddr) (key : List ℕ) (current : Bool) (t : Trace)
      → (install_key sys fd p peer key current t).0 ≡ ok tt
      → (k : TcpAoAdd) × (key_request sys.endian p peer key current ≡ ok k)
        × ((install_key sys fd p peer key current t).1 ≡ setsockopt fd (ao_add_key k) (ok tt) ∷ t)
  unfolding install_key
  install_key-ok fd p peer key current t h =
      let s =
        >>=-Splits (lift (key_request sys.endian p peer key current))
          (λ k. setsockopt_tcp sys fd (ao_add_key k) "TCP_AO_ADD_KEY") t h in
      (s.value, s.first, s.final ∙ setsockopt_tcp-ok fd _ "TCP_AO_ADD_KEY" t s.second)

  -- A key that was loaded is the policy's.
  pub policy_key_bytes-IsKeyOf :
      (p : AoPolicyConfig) (t : Trace) (key : List ℕ)
      → (policy_key_bytes sys p t).0 ≡ ok key
      → IsKeyOf sys p key
  unfolding policy_key_bytes
  policy_key_bytes-IsKeyOf p t key h =
      let loaded = map_err-ok _ (load_key_bytes sys p.key_source t).0 h in
      (((load_key_bytes_iff sys t p.key_source key).0 loaded).3, (t, loaded))

  pub arm_outbound-IsArmed :
      (fd : ℕ) (p : AoPolicyConfig) (remote : SocketAddr) (t : Trace)
      → (arm_outbound sys fd p remote t).0 ≡ ok tt
      → IsArmed sys p remote fd (arm_outbound sys fd p remote t).1
  unfolding arm_outbound
  arm_outbound-IsArmed fd p remote t h =
      let a =
        >>=-Splits (policy_key_bytes sys p)
          (λ key. install_key sys fd p remote key true >> set_ao_required sys fd true) t h in
      let t₁ = (policy_key_bytes sys p t).1 in
      let m = install_key sys fd p remote a.value true in
      let b = >>-Follows m (set_ao_required sys fd true) t₁ a.second in
      let (k, made, added) = install_key-ok fd p remote a.value true t₁ b.first in
      let required = set_ao_required-ok fd (m t₁).1 b.second in
      let final = a.final ∙ b.final ∙ required ∙ ap (λ l. require_event fd ∷ l) added in
      rw final
        (inr (inl (k, a.value, policy_key_bytes-IsKeyOf p t a.value a.first, made, refl)), inl refl)

  -- A release build reads no switch.
  pub allow_test_bypass-off :
      {E : Type 0} (t : Trace)
      → sys.debug_assertions ≡ false
      → allow_test_bypass sys {E = E} t ≡ (ok false, t)
  unfolding allow_test_bypass allow
  allow_test_bypass-off t h = rw h refl

  pub apply-eq-arm :
      (fd : ℕ) (p : AoPolicyConfig) (remote : SocketAddr) (t : Trace)
      → sys.debug_assertions ≡ false
      → apply_outbound_policy sys fd p remote t ≡ arm_outbound sys fd p remote t
  unfolding apply_outbound_policy
  apply-eq-arm fd p remote t h = rw (allow_test_bypass-off t h) refl

-- In a release build, a socket to which an outbound policy was applied with success has that
-- policy's key for the remote address, and requires TCP-AO.
pub apply_outbound_policy-IsArmed :
    (sys : Os) (fd : ℕ) (p : AoPolicyConfig) (remote : SocketAddr) (t : Trace)
    → sys.debug_assertions ≡ false
    → (apply_outbound_policy sys fd p remote t).0 ≡ ok tt
    → IsArmed sys p remote fd (apply_outbound_policy sys fd p remote t).1
apply_outbound_policy-IsArmed sys fd p remote t release h =
    let same = apply-eq-arm sys fd p remote t release in
    rw same (arm_outbound-IsArmed sys fd p remote t (rw same at h))
