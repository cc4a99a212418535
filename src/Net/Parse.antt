-- ===== src/Net/Parse.antt =====
-- `str::parse::<SocketAddr>()`, which src/config.rs calls: the recursive descent of the standard
-- library's address parser. A reader gives the value and the text after it, or fails and consumes
-- nothing.
pub mod Readers
pub mod Ranges
use rust_tcpao_proxy.Base.{
  ℕ, zero, suc, ◌+◌, ◌-◌, ◌*◌, ◌/◌, ◌%◌, ◌^◌, ◌≡◌, refl, Bool, true, false, not, ◌&&◌, ◌||◌, List,
  [], ◌∷◌, ◌++◌, Option, none, some, Text, codes, ltb, leb, ◌==◌, if◌then◌else◌, length, replicate,
}
use rust_tcpao_proxy.Net.{v4, v6, SocketAddr}

abbrev pub Reader : Type 0 → Type 0
Reader A = Text → Option (A × Text)

infixl 5 ◌>>=◌ ◌>>◌
abbrev ◌>>=◌ : {A B : Type 0} → Reader A → (A → Reader B) → Reader B
◌>>=◌ m f s = elim (m s) [ none ↦ none | some (a, rest) ↦ f a rest ]

abbrev ◌>>◌ : {B : Type 0} → Reader (Unit {0}) → Reader B → Reader B
m >> k = m >>= λ _. k

abbrev pure : {A : Type 0} → A → Reader A
pure a s = some (a, s)

given_char : ℕ → Reader (Unit {0})
given_char c [] = none
given_char c (d ∷ s) = if d == c then some (tt, s) else none

-- `char::to_digit`, for the radices 10 and 16.
to_digit : ℕ → ℕ → Option ℕ
to_digit radix c =
    let d =
      if leb b'0' c && leb c b'9'
      then c - b'0'
      else if leb b'a' c && leb c b'f'
      then c - b'a' + 10
      else if leb b'A' c && leb c b'F'
      then c - b'A' + 10
      else 99 in
    if ltb d radix then some d else none

-- The longest run of digits: its value, its length and the rest.
digits : ℕ → ℕ → ℕ → Text → ℕ × ℕ × Text
digits radix value count [] = (value, count, [])
digits radix value count (c ∷ s) = elim (to_digit radix c) [
  | none ↦ (value, count, c ∷ s)
  | some d ↦ digits radix (value * radix + d) (count + 1) s
]

starts_zero : Text → Bool
starts_zero [] = false
starts_zero (c ∷ s) = c == b'0'

-- `read_number`: at most `most` digits, a value below `bound`, and a leading zero only if allowed.
pub read_number : ℕ → Option ℕ → Bool → ℕ → Reader ℕ
read_number radix most zero_prefix bound s =
    let (value, count, rest) = digits radix 0 0 s in
    let short : Bool = elim most [ none ↦ true | some m ↦ leb count m ] in
    if not (count == 0)
      && short
      && ltb value bound
      && (zero_prefix || not (starts_zero s && ltb 1 count))
    then some (value, rest)
    else none

octet : Reader ℕ
octet = read_number 10 (some 3) false 256

pub read_v4 : Reader (List ℕ)
read_v4 = do
  a ← octet
  given_char b'.'
  b ← octet
  given_char b'.'
  c ← octet
  given_char b'.'
  d ← octet
  pure (a ∷ b ∷ c ∷ d ∷ [])

-- A reader behind a separator, which stands before all groups but the first.
pub separated : {A : Type 0} → Bool → Reader A → Reader A
separated first r s = if first then r s else (given_char b':' >> r) s

group_octets : ℕ → List ℕ
group_octets g = g / 256 ∷ g % 256 ∷ []

-- `read_groups`: at most `limit` groups, as octets; an embedded IPv4 address counts for two and ends
-- the run. Gives the octets, whether there was an IPv4 part, and the rest.
read_groups : ℕ → Bool → Text → List ℕ × Bool × Text
read_groups zero first s = ([], false, s)
read_groups (suc limit) first s =
    let embedded = if ltb 0 limit then separated first read_v4 s else none in
    elim embedded [
      | some (os, rest) ↦ (os, true, rest)
      | none ↦ elim (separated first (read_number 16 (some 4) true 65536) s) [
        | none ↦ ([], false, s)
        | some (g, rest) ↦
            let (os, has_v4, rest') = read_groups limit false rest in
            (group_octets g ++ os, has_v4, rest')
      ]
    ]

-- Behind `::`, the zeros that it stands for and the tail.
read_tail : List ℕ → Reader (List ℕ)
read_tail head s =
    let (tail, _, rest) = read_groups (7 - length head / 2) true s in
    some (head ++ replicate (16 - length head - length tail) 0 ++ tail, rest)

read_v6 : Reader (List ℕ)
read_v6 s =
    let (head, has_v4, rest) = read_groups 8 true s in
    if length head == 16
    then some (head, rest)
    else if has_v4
    then none
    else (do given_char b':'; given_char b':'; read_tail head) rest

read_port : Reader ℕ
read_port = do given_char b':'; read_number 10 none true (2 ^ 16)

-- `read_scope_id().unwrap_or(0)`.
read_scope : Reader ℕ
read_scope s = elim ((do given_char b'%'; read_number 10 none true (2 ^ 32)) s) [
  | none ↦ some (0, s)
  | some r ↦ some r
]

read_socket_v4 : Reader SocketAddr
read_socket_v4 = do
  os ← read_v4
  p ← read_port
  pure (record { ip = v4 os; port = p; flowinfo = 0; scope_id = 0 })

read_socket_v6 : Reader SocketAddr
read_socket_v6 = do
  given_char b'['
  os ← read_v6
  scope ← read_scope
  given_char b']'
  p ← read_port
  pure (record { ip = v6 os; port = p; flowinfo = 0; scope_id = scope })

-- The whole text must be consumed.
whole : {A : Type 0} → Option (A × Text) → Option A
whole none = none
whole (some (a, [])) = some a
whole (some (a, c ∷ s)) = none

unfoldable pub parse_socket_addr : Text → Option SocketAddr
unfolding given_char to_digit digits starts_zero read_number octet read_v4 separated group_octets
    read_groups read_tail read_v6 read_port read_scope read_socket_v4 read_socket_v6 whole
parse_socket_addr s = elim (read_socket_v4 s) [
  | some (a, rest) ↦ whole (some (a, rest))
  | none ↦ whole (read_socket_v6 s)
]

parse_v4 :
    parse_socket_addr (codes "10.0.0.2:1790")
    ≡ some (record { ip = v4 (10 ∷ 0 ∷ 0 ∷ 2 ∷ []); port = 1790; flowinfo = 0; scope_id = 0 })
unfolding parse_socket_addr
parse_v4 = refl

parse_v6 :
    parse_socket_addr (codes "[fe80::1%3]:179")
    ≡ some (record {
      ip = v6 (0xfe ∷ 0x80 ∷ replicate 13 0 ++ 1 ∷ []);
      port = 179;
      flowinfo = 0;
      scope_id = 3;
    })
unfolding parse_socket_addr
parse_v6 = refl

parse_octal : parse_socket_addr (codes "10.0.0.02:1790") ≡ none
unfolding parse_socket_addr
parse_octal = refl

parse_port_range : parse_socket_addr (codes "10.0.0.2:65536") ≡ none
unfolding parse_socket_addr
parse_port_range = refl
