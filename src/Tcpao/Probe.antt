-- ===== src/Tcpao/Probe.antt =====
-- `probe_tcpao_support` of src/tcpao/linux.rs: what it takes for support, and the socket it uses.
use rust_tcpao_proxy.Base.{
  ℕ, ◌≡◌, ◌↔◌, ◌⊎◌, refl, sym, ap, ◌∙◌, inl, inr, false, true, Bool, ◌||◌, ◌∷◌, Result, ok, err,
  map_err, err-eq, none, Bool-cases, ◌==◌, if◌then◌else◌, arith,
}
use rust_tcpao_proxy.Error.{
  IoError, os, kind, is_not_found, decode_error_kind, raw_os_error, enoent, enoprotoopt, eopnotsupp,
}
use rust_tcpao_proxy.Os.{Os, AoInfo, getsockopt, socket, close, inet, Trace}
use rust_tcpao_proxy.Tcpao.Sockopt.{normalize_ao_error, get_ao_info}
use rust_tcpao_proxy.Tcpao.Session.{probe_result, probe, probe_tcpao_support}
use rust_tcpao_proxy.Tcpao.Inbound.{context}
use rust_tcpao_proxy.Tcpao.Armed.{allow_test_bypass-off}

-- The kernel knows the option: it answers, or there is no TCP-AO state on the socket.
abbrev pub KnowsAo : Result ℕ AoInfo → Type 0
KnowsAo r = ((info : AoInfo) × (r ≡ ok info)) ⊎ (r ≡ err enoent)

context-no_errno : (n : ℕ) → raw_os_error (context (os n)) ≡ none
unfolding normalize_ao_error raw_os_error
context-no_errno n = elim (Bool-cases (n == enoprotoopt || n == eopnotsupp)) [
  | inl unknown ↦ rw unknown refl
  | inr known ↦ rw known refl
]

not_found_iff : (n : ℕ) → (is_not_found (decode_error_kind n) ≡ true) ↔ (n ≡ enoent)
unfolding is_not_found decode_error_kind
not_found_iff n = ground arith

context-not_found_iff : (n : ℕ) → (is_not_found (kind (context (os n))) ≡ true) ↔ (n ≡ enoent)
unfolding normalize_ao_error kind is_not_found decode_error_kind
context-not_found_iff n = ground arith

probe_result-err :
    (e : IoError)
    → raw_os_error e ≡ none
    → probe_result (err e) ≡ (if is_not_found (kind e) then ok tt else err e)
unfolding probe_result
probe_result-err e h = rw h refl

if-ok_iff : (b : Bool) (e : IoError) → ((if b then ok tt else err e) ≡ ok tt) ↔ (b ≡ true)
if-ok_iff true e = (λ h. refl, λ h. refl)
if-ok_iff false e = (λ h. cc, λ h. cc)

probe_result_iff :
    (r : Result ℕ AoInfo) → (probe_result (map_err context (map_err os r)) ≡ ok tt) ↔ KnowsAo r
unfolding probe_result
probe_result_iff (ok info) = (λ h. inl (info, refl), λ h. refl)
probe_result_iff (err n) =
    let e = context (os n) in
    let same = probe_result-err e (context-no_errno n) in
    let passes = if-ok_iff (is_not_found (kind e)) e in
    let missing = context-not_found_iff n in
    (
      λ h. inr (ap err (missing.0 (passes.0 (sym same ∙ h)))),
      λ h. elim h [
        | inl (info, answered) ↦ cc
        | inr none_there ↦ same ∙ passes.1 (missing.1 (err-eq none_there))
      ],
    )

-- In a release build, with a socket made, `probe_tcpao_support` asks the kernel about it once and
-- closes it, whatever the answer, and calls nothing else; and it succeeds exactly if the kernel
-- answers, or says that the socket has no TCP-AO state.
pub probe_tcpao_support-probes :
    (sys : Os) (t : Trace) (fd : ℕ)
    → sys.debug_assertions ≡ false
    → sys.socket t inet ≡ ok fd
    → ((probe_tcpao_support sys t).1
        ≡ close fd
          ∷ getsockopt fd (sys.getsockopt (socket inet (ok fd) ∷ t) fd)
          ∷ socket inet (ok fd)
          ∷ t)
      × (((probe_tcpao_support sys t).0 ≡ ok tt)
          ↔ KnowsAo (sys.getsockopt (socket inet (ok fd) ∷ t) fd))
unfolding probe_tcpao_support probe get_ao_info
probe_tcpao_support-probes sys t fd release made = (
  rw (allow_test_bypass-off sys t release, made) refl,
  rw (allow_test_bypass-off sys t release, made)
      (probe_result_iff (sys.getsockopt (socket inet (ok fd) ∷ t) fd)),
)
