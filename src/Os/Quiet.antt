-- ===== src/Os/Quiet.antt =====
-- Actions that open no connection: what they add to the trace, and the rules to put them together.
use mathlib.Core.List.{append_assoc}
use rust_tcpao_proxy.Base.{
  ℕ, ◌≡◌, refl, sym, ap, ◌∙◌, Bool, true, false, [], ◌∷◌, ◌++◌, All, All-append, Any, inr, Text,
  Result, ok, err, if◌then◌else◌,
}
use rust_tcpao_proxy.Net.{SocketAddr}
use rust_tcpao_proxy.Os.{
  Os, Family, SockOpt, getenv, fs_read, new_socket, sys_setsockopt, sys_getsockopt, Event, connect,
  Trace, Action, ◌>>=◌, ◌>>◌, resume, lift, mapping, attempt,
}

abbrev IsQuiet : Event → Type 0
IsQuiet (connect fd a r) = ⊥
IsQuiet (Event.read_file path) = Unit
IsQuiet _ = Unit

pub record Quiet {E A : Type 0} (m : Action E A) : Type 0 where
  pub adds : (t : Trace) → (s : Trace) × ((m t).1 ≡ s ++ t) × All IsQuiet s

pub Quiet-lift : {E A : Type 0} (r : Result E A) → Quiet (lift r)
Quiet-lift r = record { adds = λ t. ([], refl, tt) }

pub Quiet-bind :
    {E A B : Type 0} (m : Action E A) (f : A → Action E B)
    → Quiet m
    → ((a : A) → Quiet (f a))
    → Quiet (m >>= f)
Quiet-bind {E} {A} {B} m f q k = record { adds = λ t. go t (m t) (q.adds t) }
  where
    go :
        (t : Trace) (r : Result E A × Trace)
        → (s : Trace) × (r.1 ≡ s ++ t) × All IsQuiet s
        → (s : Trace) × ((resume f r).1 ≡ s ++ t) × All IsQuiet s
    go t (ok a, t') (s, e, h) =
        let (s', e', h') = (k a).adds t' in
        (
          s' ++ s,
          e' ∙ ap (λ l. s' ++ l) e ∙ sym (append_assoc s' s t),
          All-append IsQuiet s' s h' h,
        )
    go t (err x, t') added = added

pub Quiet-then :
    {E B : Type 0} (m : Action E (Unit {0})) (k : Action E B) → Quiet m → Quiet k → Quiet (m >> k)
Quiet-then m k q p = Quiet-bind m (λ _. k) q (λ _. p)

pub Quiet-map : {E F A : Type 0} (g : E → F) (m : Action E A) → Quiet m → Quiet (mapping g m)
Quiet-map g m q = record { adds = q.adds }

pub Quiet-attempt : {E F A : Type 0} (m : Action E A) → Quiet m → Quiet (attempt {F = F} m)
Quiet-attempt m q = record { adds = q.adds }

pub Quiet-if :
    {E A : Type 0} (b : Bool) (m k : Action E A) → Quiet m → Quiet k → Quiet (if b then m else k)
Quiet-if true m k q p = q
Quiet-if false m k q p = p

-- What was in the trace before a quiet action is in it afterwards.
pub Any-append : (P : Event → Type 0) (s t : Trace) → Any P t → Any P (s ++ t)
Any-append P [] t m = m
Any-append P (e ∷ s) t m = inr (Any-append P s t m)

pub Quiet-Any :
    {E A : Type 0} {m : Action E A} (P : Event → Type 0) (t : Trace)
    → Quiet m
    → Any P t
    → Any P (m t).1
Quiet-Any P t q h = let (s, e, _) = q.adds t in rw e (Any-append P s t h)

-- Every `connect` of a trace is made only after calls that satisfy `G`.
module _ (G : ℕ → SocketAddr → Trace → Type 0) where
  abbrev pub Guarded : Trace → Type 0
  Guarded [] = Unit
  Guarded (connect fd a r ∷ t) = G fd a t × Guarded t
  Guarded (Event.read_file path ∷ t) = Guarded t
  Guarded (_ ∷ t) = Guarded t

  Guarded-append : (s t : Trace) → All IsQuiet s → Guarded t → Guarded (s ++ t)
  Guarded-append [] t h g = g
  Guarded-append (connect fd a r ∷ s) t h g = absurd h.0
  Guarded-append (Event.read_file path ∷ s) t h g = Guarded-append s t h.1 g
  Guarded-append (_ ∷ s) t h g = Guarded-append s t h.1 g

  pub Quiet-Guarded :
      {E A : Type 0} {m : Action E A} (t : Trace) → Quiet m → Guarded t → Guarded (m t).1
  Quiet-Guarded t q g = let (s, e, h) = q.adds t in rw e (Guarded-append s t h g)

-- The calls but `connect` are quiet.
module _ (sys : Os) where
  pub Quiet-getenv : {E : Type 0} (name : Text) → Quiet (getenv sys name {E = E})
  Quiet-getenv name = record { adds = λ t. (Event.env_var name ∷ [], refl, (tt, tt)) }

  pub Quiet-fs_read : (path : Text) → Quiet (fs_read sys path)
  Quiet-fs_read path = record { adds = λ t. (Event.read_file path ∷ [], refl, (tt, tt)) }

  pub Quiet-new_socket : (f : Family) → Quiet (new_socket sys f)
  Quiet-new_socket f = record { adds = λ t. (Event.socket f (sys.socket t f) ∷ [], refl, (tt, tt)) }

  pub Quiet-setsockopt : (fd : ℕ) (opt : SockOpt) → Quiet (sys_setsockopt sys fd opt)
  Quiet-setsockopt fd opt = record {
    adds = λ t. (Event.setsockopt fd opt (sys.setsockopt t fd opt) ∷ [], refl, (tt, tt));
  }

  pub Quiet-getsockopt : (fd : ℕ) → Quiet (sys_getsockopt sys fd)
  Quiet-getsockopt fd = record {
    adds = λ t. (Event.getsockopt fd (sys.getsockopt t fd) ∷ [], refl, (tt, tt));
  }

-- A quiet rest keeps what holds of the trace after the first part.
pub resume-Guarded :
    {E A B : Type 0} (G : ℕ → SocketAddr → Trace → Type 0) (f : A → Action E B) (r : Result E A)
    (t : Trace)
    → ((a : A) → Quiet (f a))
    → Guarded G t
    → Guarded G (resume f (r, t)).1
resume-Guarded G f (ok a) t q h = Quiet-Guarded G {m = f a} t (q a) h
resume-Guarded G f (err x) t q h = h
