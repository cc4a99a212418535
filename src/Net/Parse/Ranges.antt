-- ===== src/Net/Parse/Ranges.antt =====
-- The addresses that the parser of `SocketAddr` gives to src/config.rs.
use mathlib.Core.Path.{subst}
use rust_tcpao_proxy.Base.{
  ℕ, zero, suc, ◌-◌, ◌*◌, ◌/◌, ◌^◌, ◌<◌, ◌≤◌, ◌≡◌, refl, ◌∙◌, Bool, true, false, List, [], ◌∷◌,
  ◌++◌, Option, none, some, Text, length, length-append, length-replicate, replicate, All,
  All-append, ltb, ◌==◌, if◌then◌else◌, arith,
}
use rust_tcpao_proxy.Net.{IpAddr, v4, v6, SocketAddr, IsIp}
use rust_tcpao_proxy.Net.Parse.{
  ◌>>◌, given_char, read_number, read_v4, separated, group_octets, read_groups, read_tail, read_v6,
  read_port, read_scope, read_socket_v4, read_socket_v6, whole, parse_socket_addr,
}
use rust_tcpao_proxy.Net.Parse.Readers.{
  Holds, Reads, Reads-bind, Reads-pure, Reads-then, ltb_lem, read_number-bound, Octets,
  read_v4-Octets, separated-Reads,
}

group_octets-bytes : (g : ℕ) → g < 65536 → All (λ o. o < 256) (group_octets g)
unfolding group_octets
group_octets-bytes g h = (omega arith, (omega arith, tt))

Holds-test :
    {A : Type 0} (P : A → Type 0) (b : Bool) (o : Option (A × Text))
    → (b ≡ true → Holds P o)
    → Holds P (if b then o else none)
Holds-test P true o h = h refl
Holds-test P false o h = tt

Holds-map :
    {A : Type 0} (P Q : A → Type 0) (o : Option (A × Text))
    → ((a : A) → P a → Q a)
    → Holds P o
    → Holds Q o
Holds-map P Q none h p = tt
Holds-map P Q (some (a, rest)) h p = h a p

embedded-Octets :
    (limit : ℕ) (first : Bool) (s : Text)
    → Holds
        (Octets (λ n. n ≤ 2 * suc limit))
        (if ltb 0 limit then separated first read_v4 s else none)
embedded-Octets limit first s = Holds-test _ (ltb 0 limit) (separated first read_v4 s) λ two.
    let room : 0 < limit = ltb_lem 0 limit two in
    Holds-map (Octets (λ n. n ≡ 4)) _ (separated first read_v4 s)
      (λ os four.
        let n : length os ≡ 4 = four.count in record { count = omega arith; bytes = four.bytes })
      (separated-Reads _ first read_v4 read_v4-Octets s)

group_room :
    (g : ℕ) (os : List ℕ) (limit : ℕ)
    → length os ≤ 2 * limit
    → length (group_octets g ++ os) ≤ 2 * suc limit
unfolding group_octets
group_room g os limit h = omega arith

module _ (limit : ℕ) (first : Bool) (s : Text)
    (more : (rest : Text) → Octets (λ n. n ≤ 2 * limit) (read_groups limit false rest).0) where
  abbrev groups : Option (ℕ × Text) → List ℕ × Bool × Text
  groups o = elim o [
    | none ↦ ([], false, s)
    | some (g, rest) ↦
        let (os, has_v4, rest') = read_groups limit false rest in
        (group_octets g ++ os, has_v4, rest')
  ]

  group :
      (o : Option (ℕ × Text))
      → Holds (λ g. g < 65536) o
      → Octets (λ n. n ≤ 2 * suc limit) (groups o).0
  group none h = record { count = omega arith; bytes = tt }
  group (some (g, rest)) h =
      let ih = more rest in
      let n : length (read_groups limit false rest).0 ≤ 2 * limit = ih.count in
      record {
        count = group_room g _ limit n;
        bytes = All-append _ (group_octets g) _ (group_octets-bytes g h) ih.bytes;
      }

  abbrev run : Option (List ℕ × Text) → List ℕ × Bool × Text
  run o = elim o [
    | some (os, rest) ↦ (os, true, rest)
    | none ↦ groups (separated first (read_number 16 (some 4) true 65536) s)
  ]

  embedded :
      (o : Option (List ℕ × Text))
      → Holds (Octets (λ n. n ≤ 2 * suc limit)) o
      → Octets (λ n. n ≤ 2 * suc limit) (run o).0
  embedded (some (os, rest)) h = h
  embedded none h =
      group (separated first (read_number 16 (some 4) true 65536) s)
        (separated-Reads (λ g. g < 65536) first _ (read_number-bound 16 (some 4) true 65536) s)

-- At most two bytes for each group that is allowed.
read_groups-Octets :
    (limit : ℕ) (first : Bool) (s : Text)
    → Octets (λ n. n ≤ 2 * limit) (read_groups limit first s).0
unfolding read_groups
read_groups-Octets zero first s = record { count = omega arith; bytes = tt }
read_groups-Octets (suc limit) first s =
    embedded limit first s (read_groups-Octets limit false)
      (if ltb 0 limit then separated first read_v4 s else none) (embedded-Octets limit first s)

All-replicate : (n : ℕ) → All (λ o. o < 256) (replicate n 0)
All-replicate zero = tt
All-replicate (suc n) = (omega arith, All-replicate n)

-- The zeros for `::` fill up what the head and the tail leave.
read_tail-Octets :
    (head : List ℕ) → Octets (λ n. n < 16) head → Reads (Octets (λ n. n ≡ 16)) (read_tail head)
unfolding read_tail
read_tail-Octets head h s =
    let tail = (read_groups (7 - length head / 2) true s).0 in
    let t = read_groups-Octets (7 - length head / 2) true s in
    let fits : length tail ≤ 2 * (7 - length head / 2) = t.count in
    let short : length head < 16 = h.count in
    let zeros = 16 - length head - length tail in
    record {
      count =
          length-append (head ++ replicate zeros 0) tail
          ∙ rw (length-append head (replicate zeros 0), length-replicate {A = ℕ} zeros 0)
              (omega arith);
      bytes =
          All-append _ (head ++ replicate zeros 0) tail
            (All-append _ head (replicate zeros 0) h.bytes (All-replicate zeros)) t.bytes;
    }

module _ (head : List ℕ) (has_v4 : Bool) (rest : Text) (h : Octets (λ n. n ≤ 16) head) where
  abbrev compressed : Option (List ℕ × Text)
  compressed = (do given_char b':'; given_char b':'; read_tail head) rest

  compressed-Octets : length head < 16 → Holds (Octets (λ n. n ≡ 16)) compressed
  compressed-Octets short =
      Reads-then _ (given_char b':') _
        (Reads-then _ (given_char b':') _
          (read_tail-Octets head (record { count = short; bytes = h.bytes })))
        rest

  finished :
      (b : Bool)
      → length head == 16 ≡ b
      → Holds
          (Octets (λ n. n ≡ 16))
          (if b then some (head, rest) else if has_v4 then none else compressed)
  finished true e = record { count = ground arith; bytes = h.bytes }
  finished false e =
      let limit : length head ≤ 16 = h.count in
      let short : length head < 16 = ground arith in
      elim has_v4 as (λ b. Holds (Octets (λ n. n ≡ 16)) (if b then none else compressed)) [
        | true ↦ tt
        | false ↦ compressed-Octets short
      ]

read_v6-Octets : Reads (Octets (λ n. n ≡ 16)) read_v6
unfolding read_v6
read_v6-Octets s =
    let (head, has_v4, rest) = read_groups 8 true s in
    finished head has_v4 rest (read_groups-Octets 8 true s) (length head == 16) refl

read_port-bound : Reads (λ n. n < 2 ^ 16) read_port
unfolding read_port
read_port-bound = Reads-then _ (given_char b':') _ (read_number-bound 10 none true (2 ^ 16))

read_scope-bound : Reads (λ n. n < 2 ^ 32) read_scope
unfolding read_scope
read_scope-bound s =
    (elim ((given_char b'%' >> read_number 10 none true (2 ^ 32)) s)
        as (λ o.
          Holds (λ n. n < 2 ^ 32) o
          → Holds (λ n. n < 2 ^ 32) (elim o [ none ↦ some (0, s) | some r ↦ some r ])) [
            | none ↦ λ _. omega arith
            | some r ↦ λ h. h
          ])
      (Reads-then _ (given_char b'%') _ (read_number-bound 10 none true (2 ^ 32)) s)

-- A value of `SocketAddr` in Rust: an IPv4 address has no scope.
abbrev pub HasScope : IpAddr → ℕ → Type 0
HasScope (v4 os) n = n ≡ 0
HasScope (v6 os) n = n < 2 ^ 32

pub record InRange (a : SocketAddr) : Type 0 where
  pub ip : IsIp a.ip
  pub port : a.port < 2 ^ 16
  pub flowinfo : a.flowinfo ≡ 0
  pub scope_id : HasScope a.ip a.scope_id

read_socket_v4-InRange : Reads InRange read_socket_v4
unfolding read_socket_v4
read_socket_v4-InRange = Reads-bind _ InRange read_v4 _ read_v4-Octets λ os h.
    Reads-bind _ InRange read_port _ read_port-bound λ p k.
      Reads-pure InRange (record { ip = v4 os; port = p; flowinfo = 0; scope_id = 0 })
        (record { ip = (h.count, h.bytes); port = k; flowinfo = refl; scope_id = refl })

read_socket_v6-InRange : Reads InRange read_socket_v6
unfolding read_socket_v6
read_socket_v6-InRange = Reads-then InRange (given_char b'[') _ (
    Reads-bind _ InRange read_v6 _ read_v6-Octets λ os h.
      Reads-bind _ InRange read_scope _ read_scope-bound λ scope l.
        Reads-then InRange (given_char b']') _ (
          Reads-bind _ InRange read_port _ read_port-bound λ p k.
            Reads-pure InRange (record { ip = v6 os; port = p; flowinfo = 0; scope_id = scope })
              (record { ip = (h.count, h.bytes); port = k; flowinfo = refl; scope_id = l })))

whole-Holds :
    {A : Type 0} (P : A → Type 0) (o : Option (A × Text)) {a : A}
    → Holds P o
    → whole o ≡ some a
    → P a
unfolding whole
whole-Holds P none h e = absurd cc
whole-Holds P (some (a, [])) {a = b} h e = let same : a ≡ b = cc in subst P same h
whole-Holds P (some (a, c ∷ s)) h e = absurd cc

-- What the parser gives is a value of `SocketAddr`.
pub parse_socket_addr-InRange :
    (s : Text) {a : SocketAddr} → parse_socket_addr s ≡ some a → InRange a
unfolding parse_socket_addr
parse_socket_addr-InRange s {a} =
    (elim (read_socket_v4 s)
        as (λ o.
          Holds InRange o
          → (elim o [ some (b, rest) ↦ whole (some (b, rest)) | none ↦ whole (read_socket_v6 s) ])
            ≡ some a
          → InRange a) [
            | some (b, rest) ↦ λ h e. whole-Holds InRange (some (b, rest)) h e
            | none ↦ λ _ e. whole-Holds InRange (read_socket_v6 s) (read_socket_v6-InRange s) e
          ])
      (read_socket_v4-InRange s)
