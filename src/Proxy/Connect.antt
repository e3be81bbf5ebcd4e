-- ===== src/Proxy/Connect.antt =====
-- crates/proxy/src/connect.rs: the host and the port of an authority.
use aiautotest.Common.{
  ℕ, ◌==◌, if◌then◌else◌, Bool-cases, ◌≡◌, refl, inl, inr, true, false, not, Option, none, some, [],
  ◌∷◌, ◌++◌, arith, any, all, Text, text, strip_prefix, starts_with, is_digit, is_all_digits,
  find_split, parse_digits,
}
use aiautotest.Proxy.Http.{parse_u16}

-- `rsplit_once`: what stands before and behind the last `sep`.
unfoldable pub rsplit_once : ℕ → Text → Option (Text × Text)
rsplit_once sep [] = none
rsplit_once sep (c ∷ s) = elim (rsplit_once sep s) [
  | some (before, behind) ↦ some (c ∷ before, behind)
  | none ↦ if c == sep then some ([], s) else none
]

abbrev with_port : (host : Text) → Option ℕ → (otherwise : Text × ℕ) → Text × ℕ
with_port host none otherwise = otherwise
with_port host (some port) otherwise = (host, port)

-- What stands behind the ']' may be a ':' and the port.
unfoldable pub ipv6_port : (host : Text) → Option Text → ℕ → Text × ℕ
unfolding parse_u16
ipv6_port host none default_port = (host, default_port)
ipv6_port host (some port) default_port = with_port host (parse_u16 port) (host, default_port)

unfoldable pub ipv6_literal : (authority : Text) → Text × Option Text → ℕ → Text × ℕ
unfolding ipv6_port strip_prefix
ipv6_literal authority (host, none) default_port = (authority, default_port)
ipv6_literal authority (host, some rest) default_port =
    ipv6_port host (strip_prefix (text ":") rest) default_port

unfoldable pub host_and_port : (authority : Text) → Option (Text × Text) → ℕ → Text × ℕ
unfolding parse_u16
host_and_port authority none default_port = (authority, default_port)
host_and_port authority (some (host, port)) default_port =
    with_port host (parse_u16 port) (authority, default_port)

unfoldable pub split_bracket : (authority : Text) → Option Text → ℕ → Text × ℕ
unfolding ipv6_literal host_and_port find_split rsplit_once
split_bracket authority (some host) default_port =
    ipv6_literal authority (find_split b']' host) default_port
split_bracket authority none default_port =
    host_and_port authority (rsplit_once b':' authority) default_port

unfoldable pub split_host_port : (authority : Text) → (default_port : ℕ) → Text × ℕ
unfolding split_bracket strip_prefix
split_host_port authority default_port =
    split_bracket authority (strip_prefix (text "[") authority) default_port

unfoldable pub parse_connect_target : Text → Text × ℕ
unfolding split_host_port
parse_connect_target target = split_host_port target 443

rsplit_once-none :
    (s : Text) (sep : ℕ) → all (λ c. not (c == sep)) s ≡ true → rsplit_once sep s ≡ none
unfolding rsplit_once
rsplit_once-none [] sep h = refl
rsplit_once-none (c ∷ s) sep h = ground (arith, rsplit_once-none s sep)

rsplit_once-append :
    (before behind : Text) (sep : ℕ)
    → all (λ c. not (c == sep)) behind ≡ true
    → rsplit_once sep (before ++ sep ∷ behind) ≡ some (before, behind)
unfolding rsplit_once
rsplit_once-append [] behind sep h = ground (arith, rsplit_once-none behind sep h)
rsplit_once-append (c ∷ before) behind sep h = rw (rsplit_once-append before behind sep h)

find_split-append :
    (before behind : Text) (sep : ℕ)
    → all (λ c. not (c == sep)) before ≡ true
    → find_split sep (before ++ sep ∷ behind) ≡ (before, some behind)
unfolding find_split
find_split-append [] behind sep h = ground arith
find_split-append (c ∷ before) behind sep h = ground (arith, find_split-append before behind sep)

no_colon : (s : Text) → all is_digit s ≡ true → all (λ c. not (c == b':')) s ≡ true
unfolding is_digit
no_colon [] h = refl
no_colon (c ∷ s) h = ground (arith, no_colon s)

parse_digits-no_colon :
    (largest : ℕ) (s : Text) (n : ℕ)
    → parse_digits largest s ≡ some n
    → all (λ c. not (c == b':')) s ≡ true
unfolding parse_digits is_all_digits
parse_digits-no_colon largest [] n h = refl
parse_digits-no_colon largest (c ∷ s) n h = no_colon (c ∷ s) (ground arith)

parse_u16-no_colon : (s : Text) (n : ℕ) → parse_u16 s ≡ some n → all (λ c. not (c == b':')) s ≡ true
unfolding parse_u16
parse_u16-no_colon [] n h = refl
parse_u16-no_colon (c ∷ s) n h = elim (Bool-cases (c == b'+')) [
  | inl plus ↦ ground (arith, parse_digits-no_colon 65535 s n)
  | inr other ↦ parse_digits-no_colon 65535 (c ∷ s) n (ground arith)
]

-- An authority as it is written: an address with colons stands in brackets.
unfoldable pub authority_of : (host port : Text) → Text
authority_of host port =
    if any (λ c. c == b':') host then b'[' ∷ (host ++ b']' ∷ b':' ∷ port) else host ++ b':' ∷ port

strip_bracket :
    (host rest : Text)
    → starts_with (text "[") host ≡ false
    → strip_prefix (text "[") (host ++ b':' ∷ rest) ≡ none
unfolding strip_prefix
strip_bracket [] rest h = refl
strip_bracket (c ∷ s) rest h = ground arith

split_host_port-name :
    (host port_text : Text) (port default_port : ℕ)
    → parse_u16 port_text ≡ some port
    → starts_with (text "[") host ≡ false
    → split_host_port (host ++ b':' ∷ port_text) default_port ≡ (host, port)
unfolding split_host_port
split_host_port-name host port_text port default_port parsed bare =
    let last = rsplit_once-append host port_text b':' (parse_u16-no_colon port_text port parsed) in
    rw (strip_bracket host port_text bare, split_bracket, last, host_and_port, parsed)

split_host_port-bracket :
    (host port_text : Text) (port default_port : ℕ)
    → parse_u16 port_text ≡ some port
    → all (λ c. not (c == b']')) host ≡ true
    → split_host_port (b'[' ∷ (host ++ b']' ∷ b':' ∷ port_text)) default_port ≡ (host, port)
unfolding split_host_port strip_prefix
split_host_port-bracket host port_text port default_port parsed closed =
    rw (find_split-append host (b':' ∷ port_text) b']' closed, parsed)

-- A host without brackets, written with a port, is split into the two again.
pub split_host_port-authority_of :
    (host port_text : Text) (port default_port : ℕ)
    → parse_u16 port_text ≡ some port
    → starts_with (text "[") host ≡ false
    → all (λ c. not (c == b']')) host ≡ true
    → split_host_port (authority_of host port_text) default_port ≡ (host, port)
unfolding authority_of
split_host_port-authority_of host port_text port default_port parsed bare closed =
    elim (Bool-cases (any (λ c. c == b':') host)) [
      | inl ipv6 ↦ rw ipv6 (split_host_port-bracket host port_text port default_port parsed closed)
      | inr name ↦ rw name (split_host_port-name host port_text port default_port parsed bare)
    ]
