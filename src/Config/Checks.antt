-- ===== src/Config/Checks.antt =====
-- `Config::validate`.
use rust_tcpao_proxy.Base.{
  ℕ, Bool, false, ◌&&◌, ◌||◌, Option, none, some, List, [], ◌∷◌, Text, Result, ok, err, and_then,
  list_eq, is_empty, if◌then◌else◌,
}
use rust_tcpao_proxy.Net.{IpAddr, ip_eq, port_eq}
use rust_tcpao_proxy.Error.{
  ProxyError, config, missing_mode_config, str, text, ip, optional_port, end,
}
use rust_tcpao_proxy.Config.Types.{Config, Mode, initiator, terminator, AoPolicyConfig}
use rust_tcpao_proxy.Config.Keys.{kind_of}

-- The two `HashSet`s: a set is the list of what was inserted, and `insert` says whether the value
-- was new.
unfoldable pub has_name : Text → List Text → Bool
has_name n [] = false
has_name n (m ∷ ms) = list_eq n m || has_name n ms

abbrev pub Tuple : Type 0
Tuple = IpAddr × Option ℕ

unfoldable pub tuple_eq : Tuple → Tuple → Bool
tuple_eq (a, p) (b, q) = ip_eq a b && port_eq p q

unfoldable pub has_tuple : Tuple → List Tuple → Bool
unfolding tuple_eq
has_tuple t [] = false
has_tuple t (u ∷ us) = tuple_eq t u || has_tuple t us

abbrev pub tuple_of : AoPolicyConfig → Tuple
tuple_of p = (p.peer_ip, p.peer_port)

-- The loop over the policies, with the sets `names` and `peer_tuples` so far.
unfoldable pub check_unique :
    List Text → List Tuple → List AoPolicyConfig → Result ProxyError (Unit {0})
unfolding has_name has_tuple
check_unique names tuples [] = ok tt
check_unique names tuples (p ∷ ps) =
    let rest = check_unique (p.name ∷ names) (tuple_of p ∷ tuples) ps in
    if has_name p.name names
    then err (config (str "duplicate ao_policy name '" (text p.name (str "'" end))))
    else if has_tuple (tuple_of p) tuples
    then err (
        config (
          str "duplicate ao_policy peer tuple "
            (ip p.peer_ip (str ":" (optional_port p.peer_port end)))))
    else rest

-- `policy.key_source.kind()?` for every policy.
unfoldable pub check_key_sources : List AoPolicyConfig → Result ProxyError (Unit {0})
unfolding kind_of
check_key_sources [] = ok tt
check_key_sources (p ∷ ps) = and_then (kind_of p.key_source) (λ _. check_key_sources ps)

unfoldable pub check_mode : Config → Mode → Result ProxyError (Unit {0})
check_mode c initiator = elim c.initiator [
  | none ↦ err (missing_mode_config "initiator")
  | some _ ↦ ok tt
]
check_mode c terminator = elim c.terminator [
  | none ↦ err (missing_mode_config "terminator")
  | some _ ↦ ok tt
]

unfoldable pub check_nonempty : List AoPolicyConfig → Result ProxyError (Unit {0})
unfolding is_empty
check_nonempty ps =
    if is_empty ps
    then err (config (str "at least one [[ao_policy]] entry is required" end))
    else ok tt

unfoldable pub validate : Config → Mode → Result ProxyError (Unit {0})
unfolding check_mode check_nonempty check_key_sources check_unique
validate c mode = and_then (check_mode c mode) λ _.
    and_then (check_nonempty c.ao_policy)
      λ _. and_then (check_key_sources c.ao_policy) λ _. check_unique [] [] c.ao_policy
