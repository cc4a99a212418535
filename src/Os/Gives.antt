-- ===== src/Os/Gives.antt =====
-- Actions that come to a value, on a system where the calls succeed.
use mathlib.Core.Path.{subst}
use rust_tcpao_proxy.Base.{
  ℕ, ◌≡◌, sym, ap, ◌∙◌, Bool, true, false, Result, ok, err, ok-eq, if◌then◌else◌, map_err,
}
use rust_tcpao_proxy.Net.{SocketAddr}
use rust_tcpao_proxy.Error.{os}
use rust_tcpao_proxy.Os.{
  Os, Family, SockOpt, Trace, Action, ◌>>=◌, ◌>>◌, resume, mapping, sys_setsockopt,
}

pub resume-ok :
    {E A B : Type 0} (f : A → Action E B) (r : Result E A × Trace) {a : A}
    → r.0 ≡ ok a
    → resume f r ≡ f a r.1
resume-ok f (ok b, t) h = ap (λ x. f x t) (ok-eq h)
resume-ok f (err e, t) h = cc

-- From the trace `t` the action gives a value, and the value and the longer trace satisfy `P`.
pub record Gives {E A : Type 0} (m : Action E A) (t : Trace) (P : A → Trace → Type 0) : Type 0 where
  pub value : A
  pub gives : (m t).0 ≡ ok value
  pub holds : P value (m t).1

pub Gives-bind :
    {E A B : Type 0} {P : A → Trace → Type 0} {Q : B → Trace → Type 0} (m : Action E A)
    (f : A → Action E B) (t : Trace)
    → Gives m t P
    → ((a : A) (t' : Trace) → P a t' → Gives (f a) t' Q)
    → Gives (m >>= f) t Q
Gives-bind {Q = Q} m f t g k =
    let n = k g.value (m t).1 g.holds in
    let same = resume-ok f (m t) g.gives in
    record {
      value = n.value;
      gives = ap (λ r. r.0) same ∙ n.gives;
      holds = subst (λ r. Q n.value r.1) (sym same) n.holds;
    }

-- An action without a value that always succeeds.
abbrev pub Runs : {E : Type 0} → Action E (Unit {0}) → Type 0
Runs m = (t : Trace) → (m t).0 ≡ ok tt

pub Runs-then : {E : Type 0} (m k : Action E (Unit {0})) → Runs m → Runs k → Runs (m >> k)
Runs-then m k r s t = ap (λ x. x.0) (resume-ok (λ _. k) (m t) (r t)) ∙ s (m t).1

pub Runs-map : {E F : Type 0} (g : E → F) (m : Action E (Unit {0})) → Runs m → Runs (mapping g m)
Runs-map g m r t = ap (map_err g) (r t)

pub Runs-if :
    {E : Type 0} (b : Bool) (m k : Action E (Unit {0}))
    → Runs m
    → Runs k
    → Runs (if b then m else k)
Runs-if true m k r s = r
Runs-if false m k r s = s

-- Before the rest of a sequence.
pub Gives-then :
    {E B : Type 0} {Q : B → Trace → Type 0} (m : Action E (Unit {0})) (k : Action E B) (t : Trace)
    → Runs m
    → Gives k (m t).1 Q
    → Gives (m >> k) t Q
Gives-then {Q = Q} m k t r n =
    let same = resume-ok (λ _. k) (m t) (r t) in
    record {
      value = n.value;
      gives = ap (λ x. x.0) same ∙ n.gives;
      holds = subst (λ x. Q n.value x.1) (sym same) n.holds;
    }

-- A system on which sockets can be made, take every option and connect.
pub record IsWilling (sys : Os) : Type 0 where
  pub made : (t : Trace) (f : Family) → (fd : ℕ) × (sys.socket t f ≡ ok fd)
  pub set : (t : Trace) (fd : ℕ) (opt : SockOpt) → sys.setsockopt t fd opt ≡ ok tt
  pub connected : (t : Trace) (fd : ℕ) (a : SocketAddr) → sys.connect t fd a ≡ ok tt

pub sys_setsockopt-Runs :
    (sys : Os) → IsWilling sys → (fd : ℕ) (opt : SockOpt) → Runs (sys_setsockopt sys fd opt)
sys_setsockopt-Runs sys w fd opt t = ap (map_err os) (w.set t fd opt)
