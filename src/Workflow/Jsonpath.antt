-- ===== src/Workflow/Jsonpath.antt =====
-- crates/workflow/src/jsonpath.rs: paths such as `$.a.b[0].c` into a value.
use aiautotest.Common.{
  trim, split, find_split, parse_usize, ℕ, zero, suc, Bool, true, false, Option, none, some, List,
  [], ◌∷◌, Text, ◌==◌, if◌then◌else◌, length,
}
use aiautotest.Workflow.Json.{Value, get_key, get_index}

infixl 5 ◌>>=◌
abbrev pub ◌>>=◌ {ℓ κ} : {A : Type ℓ} {B : Type κ} → Option A → (A → Option B) → Option B
none >>= k = none
some a >>= k = k a

-- The loop of `split_indices` over `[i][j]…`, on fuel; `none` is a malformed segment. What stands
-- between the brackets is skipped, as `find` does.
unfoldable pub indices_from : ℕ → Text → Option (List ℕ)
indices_from zero rest = some []
indices_from (suc fuel) rest = elim (find_split b'[' rest).1 [
  | none ↦ some []
  | some remainder ↦ elim (find_split b']' remainder).1 [
    | none ↦ none
    | some rest' ↦ elim (parse_usize (trim (find_split b']' remainder).0)) [
      | none ↦ none
      | some index ↦ elim (indices_from fuel rest') [ none ↦ none | some is ↦ some (index ∷ is) ]
    ]
  ]
]

-- Each round takes at least two characters, so the length of the token is fuel enough.
unfoldable pub split_indices : Text → Option (Text × List ℕ)
unfolding indices_from find_split parse_usize trim
split_indices token =
    let (name, behind) = find_split b'[' token in
    elim behind [
      | none ↦ some (token, [])
      | some rest ↦ elim (indices_from (length token) (b'[' ∷ rest)) [
        | none ↦ none
        | some indices ↦ some (name, indices)
      ]
    ]

is_empty : Text → Bool
is_empty [] = true
is_empty (c ∷ s) = false

strip_dots : Text → Text
strip_dots [] = []
strip_dots (c ∷ s) = if c == b'.' then strip_dots s else c ∷ s

strip_dollar : Text → Text
unfolding strip_dots trim
strip_dollar [] = []
strip_dollar (c ∷ s) = if c == b'$' then trim (strip_dots s) else c ∷ s

module _ {N : Type 0} where
  unfoldable pub apply_indices : List ℕ → Value N → Option (Value N)
  apply_indices [] value = some value
  apply_indices (i ∷ is) value = do v ← get_index i value; apply_indices is v

  unfoldable pub apply_token : Text → Value N → Option (Value N)
  unfolding apply_indices is_empty split_indices get_key get_index
  apply_token token value = do
    (name, indices) ← split_indices token
    current ← if is_empty name then some value else get_key name value
    apply_indices indices current

  unfoldable pub resolve_tokens : List Text → Value N → Option (Value N)
  unfolding is_empty apply_token trim
  resolve_tokens [] value = some value
  resolve_tokens (raw ∷ tokens) value =
      let token = trim raw in
      let rest = (do v ← apply_token token value; resolve_tokens tokens v) in
      if is_empty token then none else rest

  resolve_trimmed : Text → Value N → Option (Value N)
  unfolding resolve_tokens split
  resolve_trimmed [] value = some value
  resolve_trimmed (c ∷ s) value =
      let (part, parts) = split b'.' (c ∷ s) in resolve_tokens (part ∷ parts) value

  unfoldable pub resolve : Value N → Text → Option (Value N)
  unfolding resolve_trimmed strip_dollar trim
  resolve value path = resolve_trimmed (strip_dollar (trim path)) value
