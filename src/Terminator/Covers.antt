-- ===== src/Terminator/Covers.antt =====
-- `build_ao_listener` of src/mode_terminator.rs and the choice of a policy for what it accepts.
use mathlib.Core.Path.{subst}
use rust_tcpao_proxy.Base.{
  ℕ, ◌+◌, ◌≡◌, refl, ap, ◌∙◌, inl, inr, Bool, true, false, none, some, List, [], ◌∷◌, ◌++◌, ok, Any,
  ◌==◌, Bool-cases,
}
use rust_tcpao_proxy.Net.{IpAddr, v4, v6, SocketAddr}
use rust_tcpao_proxy.Config.{AoPolicyConfig}
use rust_tcpao_proxy.Policy.{keep, select_policy}
use rust_tcpao_proxy.Policy.Select.{IsIn, select_policy-Fits}
use rust_tcpao_proxy.Os.{Os, Event, Trace}
use rust_tcpao_proxy.Os.Quiet.{Any-append}
use rust_tcpao_proxy.Tcpao.Policies.{peer_of}
use rust_tcpao_proxy.Tcpao.Armed.{InstallsKey}
use rust_tcpao_proxy.Tcpao.Installed.{Installs, same_family}
use rust_tcpao_proxy.Terminator.{socket_family, build_ao_listener}
use rust_tcpao_proxy.Terminator.Listener.{build_ao_listener-IsListening}

-- A call that installed a key of the policy for the policy's own peer.
abbrev pub InstallsPolicy : Os → ℕ → AoPolicyConfig → Event → Type 0
InstallsPolicy sys fd p e = (current : Bool) × InstallsKey sys p (peer_of p) fd current e

IsIn-keep :
    (f : AoPolicyConfig → Bool) (p : AoPolicyConfig) (ps : List AoPolicyConfig)
    → IsIn p ps
    → f p ≡ true
    → IsIn p (keep f ps)
unfolding keep
IsIn-keep f p [] m h = absurd m
IsIn-keep f p (q ∷ ps) (inl same) h =
    let passes : f q ≡ true = ap f same ∙ h in rw passes (inl same)
IsIn-keep f p (q ∷ ps) (inr m) h = elim (Bool-cases (f q)) [
  | inl passes ↦ rw passes (inr (IsIn-keep f p ps m h))
  | inr fails ↦ rw fails (IsIn-keep f p ps m h)
]

-- What was in the trace before the keys were installed is in it afterwards.
Installs-keeps :
    (sys : Os) (fd n : ℕ) (P : Event → Type 0) (ps : List AoPolicyConfig) (t t' : Trace)
    → Installs sys fd n ps t t'
    → Any P t
    → Any P t'
Installs-keeps sys fd n P [] t t' i m = rw i m
Installs-keeps sys fd n P (p ∷ ps) t t' (reads, e, _, _, rest) m =
    Installs-keeps sys fd (n + 1) P ps (e ∷ (reads ++ t)) t' rest (inr (Any-append P reads t m))

Installs-policy :
    (sys : Os) (fd n : ℕ) (p : AoPolicyConfig) (ps : List AoPolicyConfig) (t t' : Trace)
    → Installs sys fd n ps t t'
    → IsIn p ps
    → Any (InstallsPolicy sys fd p) t'
Installs-policy sys fd n p [] t t' i m = absurd m
Installs-policy sys fd n p (q ∷ ps) t t' (reads, e, _, key, rest) (inl same) =
    Installs-keeps sys fd (n + 1) (InstallsPolicy sys fd p) ps (e ∷ (reads ++ t)) t' rest
      (inl (n == 0, subst (λ x. InstallsKey sys x (peer_of x) fd (n == 0) e) same key))
Installs-policy sys fd n p (q ∷ ps) t t' (reads, e, _, _, rest) (inr m) =
    Installs-policy sys fd (n + 1) p ps (e ∷ (reads ++ t)) t' rest m

same_family_lem :
    (a ip : IpAddr) (p : AoPolicyConfig)
    → p.peer_ip ≡ ip
    → socket_family a ≡ socket_family ip
    → same_family a p ≡ true
same_family_lem (v4 x) (v4 y) p h k = rw h refl
same_family_lem (v4 x) (v6 y) p h k = cc
same_family_lem (v6 x) (v4 y) p h k = cc
same_family_lem (v6 x) (v6 y) p h k = rw h refl

-- In a release build, once `build_ao_listener` has given a listener, every peer of the family of the
-- listening address that gets a policy by its address, as the terminator's connections do, has a key
-- of that policy installed on the listener for the policy's peer.
pub build_ao_listener-covers :
    (sys : Os) (a : SocketAddr) (ps : List AoPolicyConfig) (t : Trace) (fd : ℕ) (ip : IpAddr)
    (p : AoPolicyConfig)
    → sys.debug_assertions ≡ false
    → (build_ao_listener sys a ps t).0 ≡ ok fd
    → socket_family a.ip ≡ socket_family ip
    → select_policy ps ip none ≡ some p
    → Any (InstallsPolicy sys fd p) (build_ao_listener sys a ps t).1
build_ao_listener-covers sys a ps t fd ip p release h family chosen =
    let (_, (t₁, installs, final)) = build_ao_listener-IsListening sys a ps t fd release h in
    let (here, address, _) = select_policy-Fits ps ip none chosen in
    let kept = IsIn-keep (same_family a.ip) p ps here (same_family_lem a.ip ip p address family) in
    rw final (inr (inr (inr (inr (Installs-policy sys fd 0 p _ _ t₁ installs kept)))))
