-- ===== src/Terminator/Refuses.antt =====
-- `handle_connection` of src/mode_terminator.rs for connections that are not admitted.
use rust_tcpao_proxy.Base.{
  ℕ, ◌≡◌, ◌≢◌, ◌⊎◌, refl, inl, inr, false, none, List, ◌∷◌, Result, ok, err, map_err, Option-cases,
  Result-cases, Bool-cases,
}
use rust_tcpao_proxy.Error.{
  IoError, ProxyError, os, no_policy_for_peer, addr, end, kind, is_not_found,
}
use rust_tcpao_proxy.Net.{SocketAddr}
use rust_tcpao_proxy.Config.{AoPolicyConfig, GlobalConfig}
use rust_tcpao_proxy.Policy.{select_policy}
use rust_tcpao_proxy.Os.{Os, AoInfo, getsockopt, Trace}
use rust_tcpao_proxy.Tcpao.Sockopt.{get_ao_info, allow, allow_best_effort_inbound_ao}
use rust_tcpao_proxy.Tcpao.Session.{
  check_session, handle_missing_inbound_ao_info, inspect_session, ensure_inbound_session_has_ao,
}
use rust_tcpao_proxy.Tcpao.Armed.{allow_test_bypass-off}
use rust_tcpao_proxy.Os.Invert.{map_err-ok}
use rust_tcpao_proxy.Tcpao.Inbound.{check_session-ok, context}
use rust_tcpao_proxy.Forward.{Arrival}
use rust_tcpao_proxy.Connection.{broken, relay}
use rust_tcpao_proxy.Terminator.Verified.{inbound_failed}
use rust_tcpao_proxy.Terminator.{open_plain, handle_connection}

-- The kernel, asked now, says that the connection requires TCP-AO.
abbrev pub Says : Os → ℕ → Trace → Type 0
Says sys fd t = (info : AoInfo) × (sys.getsockopt t fd ≡ ok info) × (info.ao_required ≢ 0)

-- An outcome that is an error, with no call but the question to the kernel.
abbrev pub IsRefusal : {E A : Type 0} → Os → ℕ → Trace → Result E A × Trace → Type 0
IsRefusal {E} sys fd t r = (e : E) × (r.0 ≡ err e) × (r.1 ≡ getsockopt fd (sys.getsockopt t fd) ∷ t)

module _ (sys : Os) (release : sys.debug_assertions ≡ false) where
  check_session-same :
      (peer : SocketAddr) (r : Result IoError AoInfo) (t : Trace)
      → (check_session sys peer r t).1 ≡ t
  unfolding check_session handle_missing_inbound_ao_info allow_best_effort_inbound_ao allow
  check_session-same peer (ok info) t = refl
  check_session-same peer (err e) t = elim (Bool-cases (is_not_found (kind e))) [
    | inl missing ↦ rw (missing, release) refl
    | inr present ↦ rw present refl
  ]

  ensure_inbound-IsRefusal :
      (fd : ℕ) (peer : SocketAddr) (t : Trace)
      → ¬ Says sys fd t
      → IsRefusal sys fd t (ensure_inbound_session_has_ao sys fd peer t)
  unfolding ensure_inbound_session_has_ao inspect_session get_ao_info
  ensure_inbound-IsRefusal fd peer t silent =
      let answer = map_err context (map_err os (sys.getsockopt t fd)) in
      let asked = getsockopt fd (sys.getsockopt t fd) ∷ t in
      rw (allow_test_bypass-off sys t release)
        (elim (Result-cases (check_session sys peer answer asked).0) [
          | inr (e, refused) ↦ (e, refused, check_session-same peer answer asked)
          | inl (u, passed) ↦
              let (info, got, required, _) =
                check_session-ok sys release peer answer asked passed in
              absurd (
                silent (
                  info,
                  map_err-ok os (sys.getsockopt t fd)
                      (map_err-ok context (map_err os (sys.getsockopt t fd)) got),
                  required,
                ))
        ])

-- In a release build, where the peer has no policy, or the kernel, asked about the accepted connection
-- now, does not say that it requires TCP-AO, a connection's task fails, and has made no call but that
-- question.
pub handle_connection-refuses :
    (sys : Os) (conn_id wire : ℕ) (wire_peer forward_plain : SocketAddr)
    (policies : List AoPolicyConfig) (g : GlobalConfig) (started : ℕ) (arrivals : List Arrival)
    (t : Trace)
    → sys.debug_assertions ≡ false
    → (select_policy policies wire_peer.ip none ≡ none) ⊎ ¬ Says sys wire t
    → (e : ProxyError) × ((handle_connection sys conn_id wire wire_peer forward_plain policies g
          started arrivals t).0
        ≡ broken none e)
      × (((handle_connection sys conn_id wire wire_peer forward_plain policies g started arrivals
              t).1
            ≡ t)
          ⊎ ((handle_connection sys conn_id wire wire_peer forward_plain policies g started arrivals
                t).1
              ≡ getsockopt wire (sys.getsockopt t wire) ∷ t))
unfolding handle_connection open_plain relay
handle_connection-refuses sys conn_id wire wire_peer forward_plain policies g started arrivals t
      release (inl unknown) =
    (no_policy_for_peer (addr wire_peer end), rw unknown refl, inl (rw unknown refl))
handle_connection-refuses sys conn_id wire wire_peer forward_plain policies g started arrivals t
      release (inr silent) =
    let (e, refused, asked) = ensure_inbound-IsRefusal sys release wire wire_peer t silent in
    elim (Option-cases (select_policy policies wire_peer.ip none)) [
      | inl unknown ↦
          (no_policy_for_peer (addr wire_peer end), rw unknown refl, inl (rw unknown refl))
      | inr (p, chosen) ↦
          (inbound_failed e, rw (chosen, refused) refl, inr (rw (chosen, refused) asked))
    ]
