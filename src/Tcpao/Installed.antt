-- ===== src/Tcpao/Installed.antt =====
-- `configure_listener` of src/tcpao/linux.rs: which keys a listener gets, in which order.
use mathlib.Core.Path.{subst}
use rust_tcpao_proxy.Base.{
  ok-eq, ℕ, ◌+◌, ◌≡◌, refl, ap, ◌∙◌, ◌≢◌, inl, inr, Bool, true, false, List, [], ◌∷◌, ◌++◌, arith,
  length, ok, err, All, Bool-cases, ◌==◌,
}
use rust_tcpao_proxy.Error.{custom, invalid_input, str, end}
use rust_tcpao_proxy.Net.{IpAddr, v4, v6, SocketAddr}
use rust_tcpao_proxy.Config.{AoPolicyConfig}
use rust_tcpao_proxy.Config.Source.{load_key_bytes-reads, IsRead}
use rust_tcpao_proxy.Policy.{keep}
use rust_tcpao_proxy.Os.{Os, TcpAoAdd, ao_add_key, Event, Trace}
use rust_tcpao_proxy.Os.Invert.{>>=-Splits, >>-Follows}
use rust_tcpao_proxy.Tcpao.Key.{policy_key_bytes, install_key}
use rust_tcpao_proxy.Tcpao.Policies.{
  policy_matches_family, family_of, peer_of, install_policy, install_all, require_keys,
  arm_listener, configure_listener,
}
use rust_tcpao_proxy.Tcpao.Armed.{
  InstallsKey, require_event, install_key-ok, policy_key_bytes-IsKeyOf, set_ao_required-ok,
  allow_test_bypass-off,
}

-- From `t` to `t'` nothing happens but that each policy's key is read and then installed for the
-- policy's peer with success, in the order of the list; the first one becomes the current key.
abbrev pub Installs : Os → ℕ → ℕ → List AoPolicyConfig → Trace → Trace → Type 0
Installs sys fd n [] t t' = t' ≡ t
Installs sys fd n (p ∷ ps) t t' =
    (reads : Trace) × (e : Event) × All IsRead reads
    × InstallsKey sys p (peer_of p) fd (n == 0) e
    × Installs sys fd (n + 1) ps (e ∷ (reads ++ t)) t'

-- Both addresses are IPv4, or both are IPv6.
abbrev pub same_family : IpAddr → AoPolicyConfig → Bool
same_family (v4 a) p = elim p.peer_ip [ v4 b ↦ true | v6 b ↦ false ]
same_family (v6 a) p = elim p.peer_ip [ v4 b ↦ false | v6 b ↦ true ]

family_lem :
    (ip : IpAddr) (p : AoPolicyConfig)
    → policy_matches_family p.peer_ip (family_of ip) ≡ same_family ip p
unfolding policy_matches_family family_of
family_lem (v4 a) p = go p.peer_ip
  where
    go : (b : IpAddr) → policy_matches_family b 2 ≡ elim b [ v4 c ↦ true | v6 c ↦ false ]
    go (v4 c) = refl
    go (v6 c) = refl
family_lem (v6 a) p = go p.peer_ip
  where
    go : (b : IpAddr) → policy_matches_family b 10 ≡ elim b [ v4 c ↦ false | v6 c ↦ true ]
    go (v4 c) = refl
    go (v6 c) = refl

module _ (sys : Os) (fd : ℕ) where
  abbrev key_event : TcpAoAdd → Event
  key_event k = Event.setsockopt fd (ao_add_key k) (ok tt)

  policy_key_bytes-reads :
      (p : AoPolicyConfig) (t : Trace)
      → (reads : Trace) × All IsRead reads × ((policy_key_bytes sys p t).1 ≡ reads ++ t)
  unfolding policy_key_bytes
  policy_key_bytes-reads p t = load_key_bytes-reads sys p.key_source t

  install_policy-ok :
      (p : AoPolicyConfig) (n : ℕ) (t : Trace)
      → (install_policy sys fd p n t).0 ≡ ok tt
      → (reads : Trace) × (e : Event) × All IsRead reads
        × InstallsKey sys p (peer_of p) fd (n == 0) e
        × ((install_policy sys fd p n t).1 ≡ e ∷ (reads ++ t))
  unfolding install_policy
  install_policy-ok p n t h =
      let a =
        >>=-Splits (policy_key_bytes sys p) (λ key. install_key sys fd p (peer_of p) key (n == 0)) t
          h in
      let (reads, only, read) = policy_key_bytes-reads p t in
      let (k, made, added) =
        install_key-ok sys fd p (peer_of p) a.value (n == 0) (policy_key_bytes sys p t).1
          a.second in
      (
        reads,
        key_event k,
        only,
        (k, a.value, policy_key_bytes-IsKeyOf sys p t a.value a.first, made, refl),
        a.final ∙ added ∙ ap (λ l. key_event k ∷ l) read,
      )

  abbrev matching : IpAddr → List AoPolicyConfig → List AoPolicyConfig
  matching ip = keep (same_family ip)

  install_all-ok :
      (ip : IpAddr) (ps : List AoPolicyConfig) (n m : ℕ) (t : Trace)
      → (install_all sys fd (family_of ip) ps n t).0 ≡ ok m
      → Installs sys fd n (matching ip ps) t (install_all sys fd (family_of ip) ps n t).1
  unfolding install_all keep
  install_all-ok ip [] n m t h = refl
  install_all-ok ip (p ∷ ps) n m t h = elim (Bool-cases (same_family ip p)) [
    | inr other ↦
        let skip = family_lem ip p ∙ other in
        rw (skip, other) (install_all-ok ip ps n m t (rw skip at h))
    | inl same ↦
        let take_it = family_lem ip p ∙ same in
        let one = install_policy sys fd p n in
        let s = >>-Follows one (install_all sys fd (family_of ip) ps (n + 1)) t (rw take_it at h) in
        let (reads, e, only, installs, added) = install_policy-ok p n t s.first in
        let later = install_all-ok ip ps (n + 1) m (one t).1 s.second in
        rw (take_it, same)
          (
            reads,
            e,
            only,
            installs,
            rw s.final (
                subst
                  (λ x.
                    Installs sys fd (n + 1) (matching ip ps) x
                      (install_all sys fd (family_of ip) ps (n + 1) (one t).1).1)
                  added later),
          )
  ]

  -- The count that the loop gives.
  install_all-count :
      (ip : IpAddr) (ps : List AoPolicyConfig) (n m : ℕ) (t : Trace)
      → (install_all sys fd (family_of ip) ps n t).0 ≡ ok m
      → m ≡ n + length (matching ip ps)
  unfolding install_all keep
  install_all-count ip [] n m t h = omega (arith, ok-eq h)
  install_all-count ip (p ∷ ps) n m t h = elim (Bool-cases (same_family ip p)) [
    | inr other ↦
        let skip = family_lem ip p ∙ other in
        rw other (install_all-count ip ps n m t (rw skip at h))
    | inl same ↦
        let take_it = family_lem ip p ∙ same in
        let one = install_policy sys fd p n in
        let s = >>-Follows one (install_all sys fd (family_of ip) ps (n + 1)) t (rw take_it at h) in
        rw same (omega (arith, install_all-count ip ps (n + 1) m (one t).1 s.second))
  ]

  arm_listener-ok :
      (a : SocketAddr) (ps : List AoPolicyConfig) (t : Trace)
      → (arm_listener sys fd a ps t).0 ≡ ok tt
      → (matching a.ip ps ≢ [])
        × ((t₁ : Trace) × Installs sys fd 0 (matching a.ip ps) t t₁
            × ((arm_listener sys fd a ps t).1 ≡ require_event fd ∷ t₁))
  unfolding arm_listener require_keys
  arm_listener-ok a ps t h =
      let all = install_all sys fd (family_of a.ip) ps 0 in
      let s = >>=-Splits all (require_keys sys fd) t h in
      let m = s.value in
      let installs = install_all-ok a.ip ps 0 m t s.first in
      let counted = install_all-count a.ip ps 0 m t s.first in
      elim (Bool-cases (m == 0)) [
        | inl nothing ↦ cc (rw (nothing, require_keys) at (s.second))
        | inr some_keys ↦
            let required =
              set_ao_required-ok sys fd (all t).1 (rw (some_keys, require_keys) at (s.second)) in
            (
              λ e. ground (arith, ap length e, counted),
              ((all t).1, installs, s.final ∙ rw (some_keys, require_keys) required),
            )
      ]

  -- Without a policy of the family, the listener is refused and nothing is called.
  install_all-nil :
      (ip : IpAddr) (ps : List AoPolicyConfig) (n : ℕ) (t : Trace)
      → matching ip ps ≡ []
      → install_all sys fd (family_of ip) ps n t ≡ (ok n, t)
  unfolding install_all keep
  install_all-nil ip [] n t h = refl
  install_all-nil ip (p ∷ ps) n t h = elim (Bool-cases (same_family ip p)) [
    | inl same ↦ cc (rw same at h)
    | inr other ↦
        let skip = family_lem ip p ∙ other in rw skip (install_all-nil ip ps n t (rw other at h))
  ]

module _ (sys : Os) (fd : ℕ) (a : SocketAddr) (ps : List AoPolicyConfig) (t : Trace) where
  -- In a release build, `configure_listener` succeeds only if some policy has the family of the
  -- listening address, and then it has read and installed, with success and in order, a key that is
  -- not empty for exactly the policies of that family, the first as the current key, and last of all
  -- made TCP-AO required; it has called nothing else.
  pub configure_listener-Installs :
      sys.debug_assertions ≡ false
      → (configure_listener sys fd a ps t).0 ≡ ok tt
      → (keep (same_family a.ip) ps ≢ [])
        × ((t₁ : Trace) × Installs sys fd 0 (keep (same_family a.ip) ps) t t₁
            × ((configure_listener sys fd a ps t).1 ≡ require_event fd ∷ t₁))
  unfolding configure_listener
  configure_listener-Installs release h =
      rw (allow_test_bypass-off sys t release)
        (arm_listener-ok sys fd a ps t (rw (allow_test_bypass-off sys t release) at h))

  -- In a release build, where no policy has the family of the listening address,
  -- `configure_listener` fails as invalid input and calls nothing.
  pub configure_listener-no_family :
      sys.debug_assertions ≡ false
      → keep (same_family a.ip) ps ≡ []
      → configure_listener sys fd a ps t
        ≡ (err (custom invalid_input (str "no AO policies matched listener address family" end)), t)
  unfolding configure_listener arm_listener require_keys
  configure_listener-no_family release h =
      rw (allow_test_bypass-off sys t release, install_all-nil sys fd a.ip ps 0 t h) refl
