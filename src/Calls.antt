-- ===== src/Calls.antt =====
-- The arguments of the system calls that src/mode_initiator.rs, src/mode_terminator.rs and
-- src/tcpao/linux.rs make, against the C types that they are passed in.
pub mod Options
pub mod Keys
pub mod Modes
pub mod Starts
pub mod Program
mod Tests
use mathlib.Core.List.{append_assoc}
use rust_tcpao_proxy.Base.{
  ℕ, ◌^◌, ◌<◌, ◌≡◌, refl, sym, ap, ◌∙◌, Bool, true, false, Option, none, some, [], ◌∷◌, ◌++◌, List,
  All, All-append, Text, Result, ok, err, map_err, if◌then◌else◌,
}
use rust_tcpao_proxy.Net.{SocketAddr, IsIp}
use rust_tcpao_proxy.Config.{AoPolicyConfig, GlobalConfig}
use rust_tcpao_proxy.Os.{
  Os, Event, Trace, Action, SockOpt, ao_add_key, ao_info, int_option, reuse_address, ◌>>=◌, ◌>>◌,
  resume, lift, mapping, attempt,
}
use rust_tcpao_proxy.Os.Invert.{map_err-ok}
use rust_tcpao_proxy.Tcpao.Bytes.{AreBytes, IsText}
use rust_tcpao_proxy.Tcpao.Bounds.{IsStruct}
use rust_tcpao_proxy.Tcpao.Storage.Decode.{IsAddr}

-- `struct tcp_ao_add`; the one bit of `struct tcp_ao_info_opt`; a `c_int`, by its 32 bits.
abbrev pub FitsOption : SockOpt → Type 0
FitsOption (ao_add_key add) = IsStruct add
FitsOption (ao_info info) = info.ao_required < 2
FitsOption (int_option level name value) = value < 2 ^ 32
FitsOption reuse_address = Unit

-- An address that fits `sockaddr_in` or `sockaddr_in6`.
abbrev pub FitsAddr : SocketAddr → Type 0
FitsAddr a = IsAddr a × (a.port < 2 ^ 16)

abbrev pub Fits : Event → Type 0
Fits (Event.setsockopt fd opt r) = FitsOption opt
Fits (Event.bind fd a r) = FitsAddr a
Fits (Event.connect fd a r) = FitsAddr a
Fits (Event.tcp_bind a r) = FitsAddr a
Fits (Event.listen fd backlog r) = backlog < 2 ^ 31
Fits (Event.read_file path) = Unit
Fits _ = Unit

-- What the types of the system's answers say: a file is bytes, and a variable is text.
pub record IsTypedOs (sys : Os) : Type 0 where
  pub files : (t : Trace) (path : Text) (bs : List ℕ) → sys.read_file t path ≡ ok bs → AreBytes bs
  pub texts : (t : Trace) (name s : Text) → sys.env_var t name ≡ some s → IsText s

-- What the types of the fields of a policy say: an address has octets, the identifier is a `u8`, and the
-- algorithm is text.
pub record IsTypedPolicy (p : AoPolicyConfig) : Type 0 where
  pub peer_ip : IsIp p.peer_ip
  pub keyid : p.keyid < 2 ^ 8
  pub mac_alg : IsText p.mac_alg

-- Every call that an action makes fits, and its value has `Q`.
pub record Sends {E A : Type 0} (Q : A → Type 0) (m : Action E A) : Type 0 where
  pub adds : (t : Trace) → (s : Trace) × ((m t).1 ≡ s ++ t) × All Fits s
  pub gives : (t : Trace) (a : A) → (m t).0 ≡ ok a → Q a

-- An action of which the value does not matter.
abbrev pub SendsOnly : {E A : Type 0} → Action E A → Type 0
SendsOnly m = Sends (λ _. Unit) m

pub Sends-lift :
    {E A : Type 0} (Q : A → Type 0) (r : Result E A) → ((a : A) → r ≡ ok a → Q a) → Sends Q (lift r)
Sends-lift Q r q = record { adds = λ t. ([], refl, tt); gives = λ t. q }

pub Sends-bind :
    {E A B : Type 0} (R : A → Type 0) (Q : B → Type 0) (m : Action E A) (f : A → Action E B)
    → Sends R m
    → ((a : A) → R a → Sends Q (f a))
    → Sends Q (m >>= f)
Sends-bind {E} {A} {B} R Q m f q k = record {
  adds = λ t. go t (m t) refl (q.adds t);
  gives = λ t. value t (m t) refl;
}
  where
    go :
        (t : Trace) (r : Result E A × Trace)
        → m t ≡ r
        → (s : Trace) × (r.1 ≡ s ++ t) × All Fits s
        → (s : Trace) × ((resume f r).1 ≡ s ++ t) × All Fits s
    go t (ok a, t') is (s, e, h) =
        let (s', e', h') = (k a (q.gives t a (ap (λ x. x.0) is))).adds t' in
        (s' ++ s, e' ∙ ap (λ l. s' ++ l) e ∙ sym (append_assoc s' s t), All-append Fits s' s h' h)
    go t (err x, t') is added = added

    value : (t : Trace) (r : Result E A × Trace) → m t ≡ r → (b : B) → (resume f r).0 ≡ ok b → Q b
    value t (ok a, t') is b h = (k a (q.gives t a (ap (λ x. x.0) is))).gives t' b h
    value t (err x, t') is b h = absurd cc

pub Sends-then :
    {E B : Type 0} (Q : B → Type 0) (m : Action E (Unit {0})) (k : Action E B)
    → SendsOnly m
    → Sends Q k
    → Sends Q (m >> k)
Sends-then Q m k q p = Sends-bind _ Q m (λ _. k) q (λ _ _. p)

pub Sends-map :
    {E F A : Type 0} (Q : A → Type 0) (g : E → F) (m : Action E A)
    → Sends Q m
    → Sends Q (mapping g m)
Sends-map Q g m q = record { adds = q.adds; gives = λ t a h. q.gives t a (map_err-ok g (m t).0 h) }

pub Sends-attempt : {E F A : Type 0} (m : Action E A) → SendsOnly m → SendsOnly (attempt {F = F} m)
Sends-attempt m q = record { adds = q.adds; gives = λ t a h. tt }

pub Sends-if :
    {E A : Type 0} (Q : A → Type 0) (b : Bool) (m k : Action E A)
    → Sends Q m
    → Sends Q k
    → Sends Q (if b then m else k)
Sends-if Q true m k q p = q
Sends-if Q false m k q p = p

-- A call that fits.
pub Sends-call :
    {E A : Type 0} (r : Trace → Result E A) (e : Trace → Event)
    → ((t : Trace) → Fits (e t))
    → SendsOnly (λ t. (r t, e t ∷ t))
Sends-call r e h = record { adds = λ t. (e t ∷ [], refl, (h t, tt)); gives = λ t a _. tt }
