-- ===== src/Workflow/Exec/Values.antt =====
-- The engine's helpers on values: source references, JSON paths, comparison and templates.
use aiautotest.Common.{
  trim, split, find_split, parse_usize, eq_ignore_ascii_case, is_empty_text, contains_text, Bool,
  false, not, Option, none, some, List, [], ◌∷◌, ◌++◌, Text, text, text_eq, lookup, get_elem?,
  if◌then◌else◌, strip_prefix, unwrap_or, find, any,
}
use aiautotest.Workflow.Json.{
  Value, number, string, array, object, items, fields, value_eq, get_field,
}
use aiautotest.Workflow.Jsonpath.{resolve}
use aiautotest.Workflow.Exec.State.{NodeResult, Outside, WorkflowError, Result, ok, err, RunState}

infixl 5 ◌>>=◌
abbrev pub ◌>>=◌ : {A B : Type 0} → Result A → (A → Result B) → Result B
ok a >>= f = f a
err e >>= f = err e

-- `ok_or_else` with an error that names no node.
abbrev pub ok_or : {A : Type 0} → Option A → Text → Result A
ok_or none message = err (WorkflowError.node [] message)
ok_or (some a) message = ok a

module _ (out : Outside) where
  open out use {N, W, Float, as_f64, parse_f64, zero_f64, gt}

  exact_or_caseless : Option (Value N) → Option (Text × Value N) → Option (Value N)
  exact_or_caseless (some v) other = some v
  exact_or_caseless none (some (k, v)) = some v
  exact_or_caseless none none = none

  -- An exact key first, then the first key that agrees up to ASCII case; or an index of an array.
  unfoldable pub key_lookup : Value N → Text → Option (Value N)
  unfolding exact_or_caseless
  key_lookup (object fs) key =
      exact_or_caseless (get_field key fs)
        (find (λ (e : Text × Value N). eq_ignore_ascii_case e.0 key) (fields fs))
  key_lookup (array vs) key = elim (parse_usize key) [
    | none ↦ none
    | some i ↦ get_elem? (items vs) i
  ]
  key_lookup _ key = none

  -- The loop over the tokens of `head.tail`.
  unfoldable pub walk : Text → List Text → Value N → Result (Value N)
  unfolding key_lookup
  walk trimmed [] value = ok value
  walk trimmed (token ∷ tokens) value =
      let rest = (do
        v ← ok_or (key_lookup value token) (text "source path not found: " ++ trimmed)
        walk trimmed tokens v) in
      if is_empty_text token
      then err (WorkflowError.node [] (text "bad source path: " ++ trimmed))
      else rest

  unknown_source : Text → RunState N W → Result (Value N)
  unknown_source trimmed s = ok_or (lookup trimmed s.vars) (text "unknown source: " ++ trimmed)

  unfoldable pub output_path : Text → RunState N W → Text → Option (NodeResult N) → Result (Value N)
  unfolding walk unknown_source
  output_path trimmed s tail none = unknown_source trimmed s
  output_path trimmed s tail (some result) =
      let (part, parts) = split b'.' tail in walk trimmed (part ∷ parts) result.output

  unfoldable pub split_source : Text → RunState N W → Text × Option Text → Result (Value N)
  unfolding output_path unknown_source
  split_source trimmed s (head, none) = unknown_source trimmed s
  split_source trimmed s (head, some tail) = output_path trimmed s tail (lookup head s.node_results)

  unfoldable pub trimmed_source : Text → RunState N W → Option Text → Result (Value N)
  unfolding split_source
  trimmed_source trimmed s (some name) =
      ok_or (lookup name s.vars) (text "unknown variable: " ++ name)
  trimmed_source trimmed s none = split_source trimmed s (find_split b'.' trimmed)

  -- `var.name`; or `head.path` if `head` is a node with a result; or a variable of the whole name.
  unfoldable pub resolve_source : Text → RunState N W → Result (Value N)
  unfolding trimmed_source
  resolve_source source s =
      let trimmed = trim source in trimmed_source trimmed s (strip_prefix (text "var.") trimmed)

  -- A text that is JSON is read as such.
  parse_text : Value N → Value N
  parse_text (string s) = unwrap_or (out.from_str s) (string s)
  parse_text v = v

  unfoldable pub apply_path : Value N → Text → Result (Value N)
  unfolding parse_text
  apply_path value raw =
      let path = trim raw in
      if is_empty_text path
      then ok value
      else ok_or (resolve (parse_text value) path) (text "json path not found: " ++ path)

  unfoldable pub number_of : Value N → Float
  number_of (number n) = unwrap_or (as_f64 n) zero_f64
  number_of (string s) = unwrap_or (parse_f64 s) zero_f64
  number_of _ = zero_f64

  contains_value : Value N → Value N → Bool
  unfolding contains_text
  contains_value (array vs) right = any (λ v. value_eq out.number_eq v right) (items vs)
  contains_value (string haystack) (string needle) = contains_text needle haystack
  contains_value _ _ = false

  unfoldable pub compare : Text → Value N → Value N → Result Bool
  unfolding number_of contains_value value_eq
  compare operator left right =
      if text_eq operator (text "eq")
      then ok (value_eq out.number_eq left right)
      else (if text_eq operator (text "ne")
          then ok (not (value_eq out.number_eq left right))
          else (if text_eq operator (text "gt")
              then ok (gt (number_of left) (number_of right))
              else (if text_eq operator (text "lt")
                  then ok (gt (number_of right) (number_of left))
                  else (if text_eq operator (text "contains")
                      then ok (contains_value left right)
                      else err (WorkflowError.node [] (text "unknown operator: " ++ operator))))))

  value_to_string : Value N → Text
  value_to_string (string s) = s
  value_to_string v = out.to_string v

  -- A variable that is not bound renders as the empty text.
  render_name : RunState N W → Text → Text
  unfolding value_to_string
  render_name s name = elim (lookup name s.vars) [ some v ↦ value_to_string v | none ↦ [] ]

  unfoldable pub render : Text → RunState N W → Text
  unfolding render_name
  render template s = out.replace_all (render_name s) template
