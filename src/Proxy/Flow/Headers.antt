-- ===== src/Proxy/Flow/Headers.antt =====
-- `headers_to_map` of crates/proxy/src/flow.rs.
use aiautotest.Common.{
  Bool-cases, unwrap_or, ◌≡◌, refl, ap, ◌∙◌, inl, inr, Option, none, some, List, [], ◌∷◌, ◌++◌, map,
  append_assoc, append-nil, arith, filter, Text, text, text_eq, text_eq_iff, lookup, map_insert,
  lookup-map_insert,
}
use aiautotest.Proxy.Http.{Header}

unfoldable pub join_values : List Text → Text
join_values [] = []
join_values (a ∷ []) = a
join_values (a ∷ b ∷ rest) = a ++ (text ", " ++ join_values (b ∷ rest))

-- `entry(name).or_default().push(value)`.
unfoldable pub push_value : Header → List (Text × List Text) → List (Text × List Text)
unfolding map_insert lookup
push_value h multi = map_insert h.name (unwrap_or (lookup h.name multi) [] ++ h.value ∷ []) multi

unfoldable pub push_all : List Header → List (Text × List Text) → List (Text × List Text)
unfolding push_value
push_all [] multi = multi
push_all (h ∷ hs) multi = push_all hs (push_value h multi)

unfoldable pub join_all : List (Text × List Text) → List (Text × Text)
unfolding join_values
join_all [] = []
join_all ((name, values) ∷ multi) = (name, join_values values) ∷ join_all multi

unfoldable pub headers_to_map : List Header → List (Text × Text)
unfolding join_all push_all
headers_to_map headers = join_all (push_all headers [])

-- The values of the headers with a name, in their order.
abbrev pub values_named : Text → List Header → List Text
values_named name headers = map Header.value (filter (λ h. text_eq h.name name) headers)

-- What is stored under a name when more values come behind those that are there.
abbrev extended : Option (List Text) → List Text → Option (List Text)
extended o [] = o
extended o (v ∷ vs) = some (unwrap_or o [] ++ v ∷ vs)

abbrev pub joined_values : List Text → Option Text
joined_values [] = none
joined_values (v ∷ vs) = some (join_values (v ∷ vs))

joined : Option (List Text) → Option Text
joined none = none
joined (some vs) = some (join_values vs)

lookup-join_all :
    (k : Text) (multi : List (Text × List Text))
    → lookup k (join_all multi) ≡ joined (lookup k multi)
unfolding lookup join_all joined
lookup-join_all k [] = refl
lookup-join_all k ((j, vs) ∷ multi) = ground (arith, lookup-join_all k multi)

extended-some : (xs vs : List Text) → extended (some xs) vs ≡ some (xs ++ vs)
extended-some xs [] = rw (append-nil xs)
extended-some xs (v ∷ vs) = refl

joined-extended : (vs : List Text) → joined (extended none vs) ≡ joined_values vs
unfolding joined
joined-extended [] = refl
joined-extended (v ∷ vs) = refl

lookup-push_value :
    (k : Text) (h : Header) (multi : List (Text × List Text))
    → lookup k (push_value h multi) ≡ extended (lookup k multi) (values_named k (h ∷ []))
unfolding push_value
lookup-push_value k h multi =
    let there =
      lookup-map_insert h.name k (unwrap_or (lookup h.name multi) [] ++ h.value ∷ []) multi in
    elim (Bool-cases (text_eq h.name k)) [
      | inl same ↦ there ∙ rw (same, (text_eq_iff h.name k).0 same)
      | inr other ↦ there ∙ rw other
    ]

extended-extended :
    (o : Option (List Text)) (xs ys : List Text)
    → extended (extended o xs) ys ≡ extended o (xs ++ ys)
extended-extended o [] ys = refl
extended-extended o (x ∷ xs) ys =
    extended-some (unwrap_or o [] ++ x ∷ xs) ys
    ∙ ap some (append_assoc (unwrap_or o []) (x ∷ xs) ys)

values_named-cons :
    (k : Text) (h : Header) (hs : List Header)
    → values_named k (h ∷ []) ++ values_named k hs ≡ values_named k (h ∷ hs)
values_named-cons k h hs = elim (Bool-cases (text_eq h.name k)) [ inl e ↦ rw e | inr e ↦ rw e ]

lookup-push_all :
    (k : Text) (hs : List Header) (multi : List (Text × List Text))
    → lookup k (push_all hs multi) ≡ extended (lookup k multi) (values_named k hs)
unfolding push_all push_value
lookup-push_all k [] multi = refl
lookup-push_all k (h ∷ hs) multi =
    lookup-push_all k hs (push_value h multi)
    ∙ ap (λ o. extended o (values_named k hs)) (lookup-push_value k h multi)
    ∙ extended-extended (lookup k multi) (values_named k (h ∷ [])) (values_named k hs)
    ∙ ap (extended (lookup k multi)) (values_named-cons k h hs)

-- Under each name stand the values of all the headers with it, in their order and joined by commas.
pub lookup-headers_to_map :
    (name : Text) (headers : List Header)
    → lookup name (headers_to_map headers) ≡ joined_values (values_named name headers)
unfolding headers_to_map lookup
lookup-headers_to_map name headers =
    lookup-join_all name (push_all headers [])
    ∙ ap joined (lookup-push_all name headers [])
    ∙ joined-extended (values_named name headers)
