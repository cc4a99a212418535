-- ===== src/Tcpao/Session.antt =====
-- `ensure_inbound_session_has_ao` and `probe_tcpao_support`: reading the TCP-AO state of a socket.
use rust_tcpao_proxy.Base.{
  ℕ, Bool, false, ◌||◌, Option, none, some, Result, ok, err, ◌==◌, if◌then◌else◌,
}
use rust_tcpao_proxy.Error.{
  IoError, custom, permission_denied, kind, is_not_found, raw_os_error, str, addr, show_io, text,
  end, enoent,
}
use rust_tcpao_proxy.Net.{SocketAddr}
use rust_tcpao_proxy.Os.{
  Os, Action, ◌>>=◌, ◌>>◌, pure, throw, lift, attempt, AoInfo, inet, new_socket, close_fd,
}
use rust_tcpao_proxy.Tcpao.Sockopt.{
  test_best_effort_inbound_env, allow_test_bypass, allow_best_effort_inbound_ao, get_ao_info,
}

unfoldable pub ensure_ao_required : AoInfo → Result IoError (Unit {0})
ensure_ao_required info =
    if info.ao_required == 0
    then err (custom permission_denied (str "tcp-ao not required on inbound session" end))
    else ok tt

abbrev has_errno : Option ℕ → ℕ → Bool
has_errno none n = false
has_errno (some m) n = m == n

-- What `probe_tcpao_support` makes of the query: a socket with no TCP-AO state is supported.
unfoldable pub probe_result : Result IoError AoInfo → Result IoError (Unit {0})
unfolding kind is_not_found raw_os_error
probe_result (ok info) = ok tt
probe_result (err e) =
    if has_errno (raw_os_error e) enoent || is_not_found (kind e) then ok tt else err e

module _ (sys : Os) where
  unfoldable pub handle_missing_inbound_ao_info : SocketAddr → IoError → Action IoError (Unit {0})
  unfolding allow_best_effort_inbound_ao
  handle_missing_inbound_ao_info peer e = do
    best_effort ← allow_best_effort_inbound_ao sys
    if best_effort
        then pure tt
        else throw (
            custom permission_denied (
              str "tcp-ao session info unavailable for peer " (
                addr peer (
                  str ": " (
                    show_io e (
                      str "; set " (
                        text test_best_effort_inbound_env
                          (str "=1 only for debug/test best-effort mode" end))))))))

  -- The `match` on the outcome of `get_ao_info`.
  unfoldable pub check_session : SocketAddr → Result IoError AoInfo → Action IoError (Unit {0})
  unfolding ensure_ao_required handle_missing_inbound_ao_info kind is_not_found
  check_session peer (ok info) = lift (ensure_ao_required info)
  check_session peer (err e) =
      if is_not_found (kind e) then handle_missing_inbound_ao_info peer e else throw e

  -- `ensure_inbound_session_has_ao` without the bypass.
  unfoldable pub inspect_session : ℕ → SocketAddr → Action IoError (Unit {0})
  unfolding check_session get_ao_info
  inspect_session fd peer = do info ← attempt (get_ao_info sys fd); check_session peer info

  unfoldable pub ensure_inbound_session_has_ao : ℕ → SocketAddr → Action IoError (Unit {0})
  unfolding allow_test_bypass inspect_session
  ensure_inbound_session_has_ao fd peer = do
    bypass ← allow_test_bypass sys
    if bypass then pure tt else inspect_session fd peer

  -- `probe_tcpao_support` without the bypass.
  unfoldable pub probe : Action IoError (Unit {0})
  unfolding get_ao_info probe_result
  probe = do
    fd ← new_socket sys inet
    info ← attempt (get_ao_info sys fd)
    close_fd sys fd
    lift (probe_result info)

  unfoldable pub probe_tcpao_support : Action IoError (Unit {0})
  unfolding allow_test_bypass probe
  probe_tcpao_support = do bypass ← allow_test_bypass sys; if bypass then pure tt else probe
