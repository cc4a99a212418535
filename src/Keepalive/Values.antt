-- ===== src/Keepalive/Values.antt =====
-- `apply_keepalive` of src/mode_initiator.rs: the calls that it makes.
use mathlib.Core.List.{append_assoc}
use rust_tcpao_proxy.Base.{
  ℕ, ◌%◌, ◌^◌, ◌<◌, ◌≡◌, ◌∙◌, if◌then◌else◌, refl, Option, none, some, [], ◌∷◌, ◌++◌, arith, ok,
  not, Bool-cases, inl, inr,
}
use rust_tcpao_proxy.Error.{
  io_error, sol_socket, so_keepalive, ipproto_tcp, tcp_keepidle, tcp_keepintvl, tcp_keepcnt,
}
use rust_tcpao_proxy.Config.{GlobalConfig}
use rust_tcpao_proxy.Os.{Os, Trace, ◌>>◌, int_option, setsockopt, sys_setsockopt}
use rust_tcpao_proxy.Os.Invert.{>>-Follows}
use rust_tcpao_proxy.Os.Quiet.{Quiet, Quiet-lift, Quiet-then, Quiet-map, Quiet-if, Quiet-setsockopt}
use rust_tcpao_proxy.Keepalive.{
  as_i32, set_sockopt_int, set_if_some, set_keepalive, apply_keepalive,
}

module _ (sys : Os) (fd : ℕ) where
  Quiet-set_sockopt_int : (level name value : ℕ) → Quiet (set_sockopt_int sys fd level name value)
  unfolding set_sockopt_int
  Quiet-set_sockopt_int level name value =
      Quiet-map io_error (sys_setsockopt sys fd (int_option level name value))
        (Quiet-setsockopt sys fd (int_option level name value))

  Quiet-set_if_some : (name : ℕ) (v : Option ℕ) → Quiet (set_if_some sys fd name v)
  unfolding set_if_some
  Quiet-set_if_some name none = Quiet-lift (ok tt)
  Quiet-set_if_some name (some v) = Quiet-set_sockopt_int ipproto_tcp name (as_i32 v)

  -- Setting keepalive opens no connection.
  pub Quiet-apply_keepalive : (global : GlobalConfig) → Quiet (apply_keepalive sys fd global)
  unfolding apply_keepalive set_keepalive
  Quiet-apply_keepalive global = Quiet-if (not global.tcp_keepalive) _ _ (Quiet-lift (ok tt)) (
      Quiet-then (set_sockopt_int sys fd sol_socket so_keepalive 1) _
        (Quiet-set_sockopt_int sol_socket so_keepalive 1)
        (Quiet-then (set_if_some sys fd tcp_keepidle global.keepalive_time_secs) _
          (Quiet-set_if_some tcp_keepidle global.keepalive_time_secs)
          (Quiet-then (set_if_some sys fd tcp_keepintvl global.keepalive_intvl_secs) _
            (Quiet-set_if_some tcp_keepintvl global.keepalive_intvl_secs)
            (Quiet-set_if_some tcp_keepcnt global.keepalive_probes))))

-- A call that set an option, if it is configured.
abbrev pub sets : ℕ → ℕ → Option ℕ → Trace
sets fd name none = []
sets fd name (some v) = setsockopt fd (int_option ipproto_tcp name v) (ok tt) ∷ []

-- The calls for a configuration, the newest first, with the values as they are configured.
abbrev pub keepalive_calls : ℕ → GlobalConfig → Trace
keepalive_calls fd g =
    sets fd tcp_keepcnt g.keepalive_probes
    ++ (sets fd tcp_keepintvl g.keepalive_intvl_secs
        ++ (sets fd tcp_keepidle g.keepalive_time_secs
            ++ setsockopt fd (int_option sol_socket so_keepalive 1) (ok tt) ∷ []))

abbrev pub IsI32 : Option ℕ → Type 0
IsI32 none = Unit
IsI32 (some v) = v < 2 ^ 31

-- The configured numbers are in the range of `i32`.
pub record InRange (g : GlobalConfig) : Type 0 where
  pub time : IsI32 g.keepalive_time_secs
  pub intvl : IsI32 g.keepalive_intvl_secs
  pub probes : IsI32 g.keepalive_probes

module _ (sys : Os) (fd : ℕ) where
  set_sockopt_int-ok :
      (level name value : ℕ) (t : Trace)
      → (set_sockopt_int sys fd level name value t).0 ≡ ok tt
      → (set_sockopt_int sys fd level name value t).1
        ≡ setsockopt fd (int_option level name value) (ok tt) ∷ t
  unfolding set_sockopt_int
  set_sockopt_int-ok level name value t h = ground arith

  set_if_some-ok :
      (name : ℕ) (v : Option ℕ) (t : Trace)
      → IsI32 v
      → (set_if_some sys fd name v t).0 ≡ ok tt
      → (set_if_some sys fd name v t).1 ≡ sets fd name v ++ t
  unfolding set_if_some as_i32
  set_if_some-ok name none t i h = refl
  set_if_some-ok name (some v) t i h =
      let same : v % 2 ^ 32 ≡ v = omega arith in
      rw same (set_sockopt_int-ok ipproto_tcp name v t (rw same at h))

  set_keepalive-ok :
      (g : GlobalConfig) (t : Trace)
      → InRange g
      → (set_keepalive sys fd g t).0 ≡ ok tt
      → (set_keepalive sys fd g t).1 ≡ keepalive_calls fd g ++ t
  unfolding set_keepalive
  set_keepalive-ok g t i h =
      let m₁ = set_sockopt_int sys fd sol_socket so_keepalive 1 in
      let m₂ = set_if_some sys fd tcp_keepidle g.keepalive_time_secs in
      let m₃ = set_if_some sys fd tcp_keepintvl g.keepalive_intvl_secs in
      let m₄ = set_if_some sys fd tcp_keepcnt g.keepalive_probes in
      let a = >>-Follows m₁ (m₂ >> (m₃ >> m₄)) t h in
      let b = >>-Follows m₂ (m₃ >> m₄) (m₁ t).1 a.second in
      let c = >>-Follows m₃ m₄ (m₂ (m₁ t).1).1 b.second in
      let e₁ = set_sockopt_int-ok sol_socket so_keepalive 1 t a.first in
      let e₂ = set_if_some-ok tcp_keepidle _ (m₁ t).1 i.time b.first in
      let e₃ = set_if_some-ok tcp_keepintvl _ (m₂ (m₁ t).1).1 i.intvl c.first in
      let e₄ = set_if_some-ok tcp_keepcnt _ (m₃ (m₂ (m₁ t).1).1).1 i.probes c.second in
      a.final ∙ b.final ∙ c.final ∙ e₄ ∙ rw (e₃, e₂, e₁) (simp append_assoc)

-- When `apply_keepalive` succeeds and the configured numbers fit in an `i32`, it has made exactly
-- these calls, all with success: none if keepalive is off, and else `SO_KEEPALIVE` and one option for
-- each number that is configured, with that number.
pub apply_keepalive-calls :
    (sys : Os) (fd : ℕ) (g : GlobalConfig) (t : Trace)
    → InRange g
    → (apply_keepalive sys fd g t).0 ≡ ok tt
    → (apply_keepalive sys fd g t).1 ≡ (if g.tcp_keepalive then keepalive_calls fd g ++ t else t)
unfolding apply_keepalive
apply_keepalive-calls sys fd g t i h = elim (Bool-cases g.tcp_keepalive) [
  | inl on ↦
      rw (on, apply_keepalive) (set_keepalive-ok sys fd g t i (rw (on, apply_keepalive) at h))
  | inr off ↦ rw (off, apply_keepalive) refl
]
