-- ===== src/Proxy/Http/Cookies.antt =====
-- crates/proxy/src/http/cookies.rs: the names and the values of the cookies in a message's headers.
use aiautotest.Common.{
  ◌==◌, if◌then◌else◌, is_some, ◌≡◌, refl, Bool, true, false, ◌||◌, Option, none, some, List, [],
  ◌∷◌, arith, filter, Text, text, contains, lookup, trim, split, find_split, eq_ignore_ascii_case,
  set_insert, map_insert, contains-set_insert, lookup-map_insert,
}
use aiautotest.Proxy.Http.{Header}

-- `split_once('=')` of a part, both sides trimmed.
trim_pair : Text × Option Text → Option (Text × Text)
unfolding trim
trim_pair (name, none) = none
trim_pair (name, some value) = some (trim name, trim value)

unfoldable pub pair_of : (part : Text) → Option (Text × Text)
unfolding trim_pair find_split
pair_of part = trim_pair (find_split b'=' part)

unfoldable pub with_name : Text → List Header → List Header
unfolding eq_ignore_ascii_case
with_name name headers = filter (λ h. eq_ignore_ascii_case h.name name) headers

unfoldable pub split_list : Text → List Text
unfolding split
split_list value = let (part, parts) = split b';' value in part ∷ parts

-- `split(['=', ';']).next()`: what stands before the first of the two.
unfoldable pub before_either : Text → Text
before_either [] = []
before_either (c ∷ s) =
    let rest = before_either s in if c == b'=' || c == b';' then [] else c ∷ rest

unfoldable pub insert_name : Option (Text × Text) → List Text → List Text
insert_name none names = names
insert_name (some (name, value)) names = set_insert name names

unfoldable pub insert_names : (parts : List Text) → List Text → List Text
unfolding insert_name pair_of
insert_names [] names = names
insert_names (part ∷ parts) names = insert_names parts (insert_name (pair_of part) names)

-- The loops over the headers that are kept, from the names so far.
unfoldable pub request_names : List Header → List Text → List Text
unfolding insert_names split_list
request_names [] names = names
request_names (h ∷ hs) names = request_names hs (insert_names (split_list h.value) names)

unfoldable pub response_names : List Header → List Text → List Text
unfolding before_either trim
response_names [] names = names
response_names (h ∷ hs) names = response_names hs (set_insert (trim (before_either h.value)) names)

unfoldable pub cookie_names : List Header → (response : Bool) → List Text
unfolding request_names response_names with_name
cookie_names headers true = response_names (with_name (text "set-cookie") headers) []
cookie_names headers false = request_names (with_name (text "cookie") headers) []

unfoldable pub insert_value : Option (Text × Text) → List (Text × Text) → List (Text × Text)
insert_value none values = values
insert_value (some (name, value)) values = map_insert name value values

unfoldable pub insert_values : (parts : List Text) → List (Text × Text) → List (Text × Text)
unfolding insert_value pair_of
insert_values [] values = values
insert_values (part ∷ parts) values = insert_values parts (insert_value (pair_of part) values)

-- A response header gives its first part, a request header all of them.
unfoldable pub pairs : (response : Bool) → (value : Text) → List Text
unfolding split_list
pairs true value = (split b';' value).0 ∷ []
pairs false value = split_list value

unfoldable pub header_values :
    (response : Bool) → List Header → List (Text × Text) → List (Text × Text)
unfolding insert_values pairs
header_values response [] values = values
header_values response (h ∷ hs) values =
    header_values response hs (insert_values (pairs response h.value) values)

unfoldable pub cookie_values : List Header → (response : Bool) → List (Text × Text)
unfolding header_values with_name
cookie_values headers true = header_values true (with_name (text "set-cookie") headers) []
cookie_values headers false = header_values false (with_name (text "cookie") headers) []

-- The names are the keys of the values.
SameKeys : List Text → List (Text × Text) → Type 0
SameKeys names values = (k : Text) → contains k names ≡ is_some (lookup k values)

insert_name-SameKeys :
    (o : Option (Text × Text)) (names : List Text) (values : List (Text × Text))
    → SameKeys names values
    → SameKeys (insert_name o names) (insert_value o values)
unfolding insert_name insert_value SameKeys
insert_name-SameKeys none names values same k = same k
insert_name-SameKeys (some (name, value)) names values same k =
    ground (arith, contains-set_insert k name names, lookup-map_insert name k value values, same k)

insert_names-SameKeys :
    (parts : List Text) (names : List Text) (values : List (Text × Text))
    → SameKeys names values
    → SameKeys (insert_names parts names) (insert_values parts values)
unfolding insert_names insert_values
insert_names-SameKeys [] names values same = same
insert_names-SameKeys (part ∷ parts) names values same =
    insert_names-SameKeys parts (insert_name (pair_of part) names)
      (insert_value (pair_of part) values) (insert_name-SameKeys (pair_of part) names values same)

request_names-SameKeys :
    (hs : List Header) (names : List Text) (values : List (Text × Text))
    → SameKeys names values
    → SameKeys (request_names hs names) (header_values false hs values)
unfolding request_names header_values
request_names-SameKeys [] names values same = same
request_names-SameKeys (h ∷ hs) names values same =
    request_names-SameKeys hs _ _ (insert_names-SameKeys (split_list h.value) names values same)

-- The cookie names of a request are the keys of its cookie values.
pub cookie_names-cookie_values :
    (headers : List Header) (k : Text)
    → contains k (cookie_names headers false) ≡ is_some (lookup k (cookie_values headers false))
unfolding cookie_names cookie_values SameKeys lookup contains
cookie_names-cookie_values headers =
    request_names-SameKeys (with_name (text "cookie") headers) [] [] (λ k. refl)
