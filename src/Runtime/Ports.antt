-- ===== src/Runtime/Ports.antt =====
-- backend/internal/runtime/ports.go, with its regular expression written out as a reader: the digits
-- of a match end at the first other character, and only its first character is a colon.
use calf.Common.{
  ℕ, ◌+◌, ◌-◌, ◌*◌, ◌&&◌, Bool, false, Option, none, some, List, [], ◌∷◌, ltb, leb, ◌==◌,
  if◌then◌else◌, any,
}
use calf.Strings.{Text, text, is_empty, has_prefix, skip}

abbrev pub is_digit : ℕ → Bool
is_digit c = leb b'0' c && leb c b'9'

-- `\d*`, and what stands behind it.
abbrev pub read_digits : Text → Text × Text
read_digits [] = ([], [])
read_digits (c ∷ s) =
    let (ds, rest) = read_digits s in if is_digit c then (c ∷ ds, rest) else ([], c ∷ s)

-- `->\d+/tcp`
abbrev pub reads_target : Text → Bool
reads_target s =
    let (ds, rest) = read_digits (skip 2 s) in
    if has_prefix s (text "->")
    then (if is_empty ds then false else has_prefix rest (text "/tcp"))
    else false

-- The submatch of a match that starts here.
abbrev pub match_here : Text → Option Text
match_here [] = none
match_here (c ∷ s) =
    let (ds, rest) = read_digits s in
    if c == b':'
    then (if is_empty ds then none else if reads_target rest then some ds else none)
    else none

abbrev pub add_match : Option Text → List Text → List Text
add_match none ms = ms
add_match (some m) ms = m ∷ ms

-- `FindAllStringSubmatch`: the submatches, from the left.
unfoldable pub host_tcp_ports : Text → List Text
host_tcp_ports [] = []
host_tcp_ports (c ∷ s) = add_match (match_here (c ∷ s)) (host_tcp_ports s)

abbrev pub first_match : List Text → Text
first_match [] = []
first_match (m ∷ ms) = m

unfoldable pub extract_host_tcp_port : Text → Text
unfolding host_tcp_ports
extract_host_tcp_port ports = first_match (host_tcp_ports ports)

-- `strconv.Atoi` of digits: an error where the number does not fit an int.
abbrev pub decimal_value : ℕ → Text → ℕ
decimal_value n [] = n
decimal_value n (c ∷ s) = decimal_value (n * 10 + (c - b'0')) s

abbrev pub add_port : ℕ → List ℕ → List ℕ
add_port port ports = if any (λ p. p == port) ports then ports else port ∷ ports

abbrev pub published_ports : List Text → List ℕ
published_ports [] = []
published_ports (m ∷ ms) =
    let port = decimal_value 0 m in
    let rest = published_ports ms in
    if ltb port 0x8000000000000000 then (if leb port 0 then rest else add_port port rest) else rest

-- `ParsePublishedTCPPorts`: the keys of the map.
unfoldable pub parse_published_tcp_ports : Text → List ℕ
unfolding host_tcp_ports
parse_published_tcp_ports value = published_ports (host_tcp_ports value)
