-- ===== src/Terminator/Stages.antt =====
-- `handle_connection` of src/mode_terminator.rs, cut where it awaits.
use rust_tcpao_proxy.Base.{ℕ, ◌≡◌, sym, ◌∙◌, none, List, ok, ok_or}
use rust_tcpao_proxy.Error.{ProxyError, io_error, no_policy_for_peer, addr, end}
use rust_tcpao_proxy.Net.{SocketAddr}
use rust_tcpao_proxy.Config.{AoPolicyConfig, GlobalConfig, terminator}
use rust_tcpao_proxy.Policy.{select_policy}
use rust_tcpao_proxy.Os.{
  Os, Trace, Action, ◌>>=◌, ◌>>◌, pure, lift, mapping, from_io, new_socket, sys_connect,
}
use rust_tcpao_proxy.Os.Invert.{>>=_assoc, >>=_cong}
use rust_tcpao_proxy.Os.Quiet.{
  Quiet, Quiet-lift, Quiet-bind, Quiet-then, Quiet-map, Quiet-new_socket,
}
use rust_tcpao_proxy.Tcpao.Session.{ensure_inbound_session_has_ao}
use rust_tcpao_proxy.Connection.{Streams, Task}
use rust_tcpao_proxy.Process.{Stages}
use rust_tcpao_proxy.Process.Alone.{set_up}
use rust_tcpao_proxy.Terminator.{socket_family, apply_keepalive, plain_stream, open_plain}
use rust_tcpao_proxy.Terminator.Verified.{inbound_failed, Quiet-apply_keepalive}

module _ (sys : Os) (forward_plain : SocketAddr) (policies : List AoPolicyConfig)
    (g : GlobalConfig) where
  -- `handle_connection`, cut where it awaits.
  abbrev pub chosen : Task → Action ProxyError AoPolicyConfig
  chosen k =
      lift (ok_or (no_policy_for_peer (addr k.peer end)) (select_policy policies k.peer.ip none))

  abbrev pub checked : Task → Action ProxyError (Unit {0})
  checked k = mapping inbound_failed (ensure_inbound_session_has_ao sys k.stream k.peer)

  abbrev pub new_plain : Action ProxyError ℕ
  new_plain = from_io (new_socket sys (socket_family forward_plain.ip))

  abbrev pub prepare : Task → Action ProxyError (AoPolicyConfig × ℕ)
  prepare k = do
    policy ← chosen k
    checked k
    socket ← new_plain
    apply_keepalive sys socket g
    pure (policy, socket)

  abbrev pub complete : Task → AoPolicyConfig → ℕ → Action ProxyError Streams
  complete k policy plain = do
    apply_keepalive sys plain g
    apply_keepalive sys k.stream g
    pure (record { policy = policy; source = k.stream; destination = plain })

  abbrev pub stages : Stages
  stages = record {
    mode = terminator;
    global = g;
    target = forward_plain;
    prepare = prepare;
    complete = complete;
  }

  -- The socket for the application, tuned, beside the policy.
  abbrev pub made : AoPolicyConfig → Action ProxyError (AoPolicyConfig × ℕ)
  made p = new_plain >>= λ s. apply_keepalive sys s g >> pure (p, s)

  pub Quiet-made : (p : AoPolicyConfig) → Quiet (made p)
  Quiet-made p =
      Quiet-bind new_plain _
        (Quiet-map io_error (new_socket sys (socket_family forward_plain.ip))
          (Quiet-new_socket sys (socket_family forward_plain.ip)))
        λ s.
          Quiet-then (apply_keepalive sys s g) _ (Quiet-apply_keepalive sys s g)
            (Quiet-lift (ok (p, s)))

  -- From the connection on.
  abbrev rest : Task → AoPolicyConfig × ℕ → Action ProxyError Streams
  rest k (p, s) = from_io (sys_connect sys s forward_plain) >>= λ plain. complete k p plain

  abbrev joined : Task → AoPolicyConfig → ℕ → Action ProxyError Streams
  joined k p plain =
      apply_keepalive sys k.stream g
      >> pure (record { policy = p; source = k.stream; destination = plain })

  made-rest :
      (k : Task) (p : AoPolicyConfig) (t : Trace)
      → (plain_stream sys forward_plain g >>= joined k p) t ≡ (made p >>= rest k) t
  unfolding plain_stream
  made-rest k p t =
      let tuned : ℕ → Action ProxyError ℕ = λ plain. apply_keepalive sys plain g >> pure plain in
      let opened : ℕ → Action ProxyError ℕ =
        λ s. from_io (sys_connect sys s forward_plain) >>= tuned in
      >>=_assoc new_plain (λ s. apply_keepalive sys s g >> opened s) (joined k p) t
      ∙ >>=_cong new_plain _ _
          (λ s u.
            >>=_assoc (apply_keepalive sys s g) (λ _. opened s) (joined k p) u
            ∙ >>=_cong (apply_keepalive sys s g) _ _
                (λ _ v.
                  >>=_assoc (from_io (sys_connect sys s forward_plain)) tuned (joined k p) v
                  ∙ >>=_cong (from_io (sys_connect sys s forward_plain)) _ _
                      (λ plain w.
                        >>=_assoc (apply_keepalive sys plain g) (λ _. pure plain) (joined k p) w)
                      v)
                u
            ∙ sym (>>=_assoc (apply_keepalive sys s g) (λ _. pure (p, s)) (rest k) u))
          t
      ∙ sym (>>=_assoc new_plain (λ s. apply_keepalive sys s g >> pure (p, s)) (rest k) t)

  pub open_plain-set_up :
      (k : Task) (t : Trace)
      → open_plain sys k.stream k.peer forward_plain policies g t ≡ set_up sys stages k t
  unfolding open_plain
  open_plain-set_up k t =
      >>=_cong (chosen k) _ _
        (λ p u.
          >>=_cong (checked k) _ _ (λ _ v. made-rest k p v) u
          ∙ sym (>>=_assoc (checked k) (λ _. made p) (rest k) u))
        t
      ∙ sym (>>=_assoc (chosen k) (λ p. checked k >> made p) (rest k) t)
