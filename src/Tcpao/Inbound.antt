-- ===== src/Tcpao/Inbound.antt =====
-- `ensure_inbound_session_has_ao` of src/tcpao/linux.rs: what the kernel has said when it passes.
use rust_tcpao_proxy.Base.{
  ℕ, ◌≡◌, refl, ◌≢◌, inl, false, ◌∷◌, arith, Result, ok, err, Any, ap, map_err,
}
use rust_tcpao_proxy.Error.{IoError}
use rust_tcpao_proxy.Net.{SocketAddr}
use rust_tcpao_proxy.Os.{Os, Event, getsockopt, AoInfo, Trace}
use rust_tcpao_proxy.Os.Invert.{map_err-ok}
use rust_tcpao_proxy.Tcpao.Sockopt.{
  normalize_ao_error, allow, allow_best_effort_inbound_ao, get_ao_info,
}
use rust_tcpao_proxy.Tcpao.Session.{check_session, inspect_session, ensure_inbound_session_has_ao}
use rust_tcpao_proxy.Tcpao.Armed.{allow_test_bypass-off}

-- A call that read from the kernel that the connection requires TCP-AO.
abbrev pub ShowsAo : ℕ → Event → Type 0
ShowsAo fd e = (info : AoInfo) × (info.ao_required ≢ 0) × (e ≡ getsockopt fd (ok info))

-- What `get_ao_info` makes of an error.
abbrev pub context : IoError → IoError
context = normalize_ao_error "TCP_AO_INFO getsockopt"

module _ (sys : Os) (release : sys.debug_assertions ≡ false) where
  pub check_session-ok :
      (peer : SocketAddr) (r : Result IoError AoInfo) (t : Trace)
      → (check_session sys peer r t).0 ≡ ok tt
      → (info : AoInfo) × (r ≡ ok info)
        × (info.ao_required ≢ 0)
        × ((check_session sys peer r t).1 ≡ t)
  unfolding check_session allow_best_effort_inbound_ao allow
  check_session-ok peer (ok info) t h = (info, refl, ground arith, refl)
  check_session-ok peer (err e) t h = ground arith

  inspect_session-ShowsAo :
      (fd : ℕ) (peer : SocketAddr) (t : Trace)
      → (inspect_session sys fd peer t).0 ≡ ok tt
      → Any (ShowsAo fd) (inspect_session sys fd peer t).1
  unfolding inspect_session get_ao_info
  inspect_session-ShowsAo fd peer t h =
      let answer = sys.getsockopt t fd in
      let (info, got, required, same) =
        check_session-ok peer (get_ao_info sys fd t).0 (getsockopt fd answer ∷ t) h in
      let answered : answer ≡ ok info =
        map_err-ok IoError.os answer (map_err-ok context (map_err IoError.os answer) got) in
      rw same (inl (info, required, ap (λ r. getsockopt fd r) answered))

  -- In a release build, a connection passes only if the kernel has said that it requires TCP-AO.
  pub ensure_inbound-ShowsAo :
      (fd : ℕ) (peer : SocketAddr) (t : Trace)
      → (ensure_inbound_session_has_ao sys fd peer t).0 ≡ ok tt
      → Any (ShowsAo fd) (ensure_inbound_session_has_ao sys fd peer t).1
  unfolding ensure_inbound_session_has_ao
  ensure_inbound-ShowsAo fd peer t h =
      rw (allow_test_bypass-off sys t release)
        (inspect_session-ShowsAo fd peer t (rw (allow_test_bypass-off sys t release) at h))
