-- ===== src/Query/Field.antt =====
-- crates/query/src/parser.rs: one condition `field:value` or `field:op value`, from its text. The two
-- patterns that the source writes itself are modelled by what they match.
pub mod Laws
use aiautotest.Common.{
  ℕ, zero, suc, ◌+◌, ◌-◌, ◌^◌, ◌==◌, ltb, Bool, true, false, not, ◌&&◌, ◌||◌, Option, none, some,
  List, [], ◌∷◌, ◌++◌, Text, text, text_eq, strip_prefix, starts_with, trim, split, find_split,
  parse_digits, is_all_digits, is_empty_text, any, reverse, length, if◌then◌else◌,
}
use aiautotest.Domain.Scope.{RegexEngine}
use aiautotest.Query.Condition.{
  Condition, Conditions, nil, cons, and_, or_, equals, not_equals, gt, ge, lt, le, FieldName,
  QueryValue, text_value, number, ℤ, pos, regex_condition,
}

pub data QueryError : Type 0 where
  invalid_line : Text → QueryError
  unknown_field : Text → QueryError
  unknown_operator : Text → QueryError
  unbalanced : Text → QueryError

pub data Result (A : Type 0) : Type 0 where
  ok : A → Result A
  err : QueryError → Result A

unfoldable pub field_named : Text → Option FieldName
unfolding text_eq
field_named name =
    if text_eq name (text "method")
    then some FieldName.method
    else (if text_eq name (text "path")
        then some FieldName.path
        else (if text_eq name (text "host")
            then some FieldName.host
            else (if text_eq name (text "resp.status")
                then some FieldName.response_status
                else (if text_eq name (text "req.body")
                    then some FieldName.request_body
                    else (if text_eq name (text "resp.body")
                        then some FieldName.response_body
                        else (if text_eq name (text "content-type")
                            then some FieldName.content_type
                            else none))))))

-- `wildcard_to_regex`, without the anchors.
escape_wildcards : Text → Text
escape_wildcards [] = []
escape_wildcards (c ∷ s) =
    let rest = escape_wildcards s in
    if c == b'.'
    then text "\\." ++ rest
    else (if c == b'*'
        then text ".*" ++ rest
        else (if c == b'?' then text "." ++ rest else c ∷ rest))

unfoldable pub wildcard_to_regex : Text → Text
unfolding escape_wildcards
wildcard_to_regex value = text "^" ++ (escape_wildcards value ++ text "$")

-- `[*?]`
unfoldable pub is_wildcard : Text → Bool
is_wildcard value = any (λ c. (c == b'*') || (c == b'?')) value

abbrev pub i64_max : ℕ
i64_max = 2 ^ 63 - 1

-- `^(>=|<=|!=|>|<|=)(.*)$` on a line: the operator, and the rest.
pub data Operator : Type 0 where
  op_ge op_le op_ne op_gt op_lt op_eq : Operator

first_operator : List (Operator × Text) → Text → Option (Operator × Text)
first_operator [] s = none
first_operator ((op, sign) ∷ ops) s =
    let rest = first_operator ops s in
    elim (strip_prefix sign s) [ some value ↦ some (op, value) | none ↦ rest ]

unfoldable pub read_operator : Text → Option (Operator × Text)
unfolding first_operator strip_prefix
read_operator s =
    first_operator
      ((op_ge, text ">=")
        ∷ (op_le, text "<=")
        ∷ (op_ne, text "!=")
        ∷ (op_gt, text ">")
        ∷ (op_lt, text "<")
        ∷ (op_eq, text "=")
        ∷ [])
      s

digits_of : Text → Result (Option ℕ)
unfolding is_all_digits parse_digits
digits_of value =
    if is_all_digits value
    then elim (parse_digits i64_max value) [
      | some n ↦ ok (some n)
      | none ↦ err (invalid_line value)
    ]
    else ok none

module _ (engine : RegexEngine) where
  open engine use {Regex}

  exact_value : FieldName → Text → Condition Regex
  unfolding parse_digits
  exact_value FieldName.path value = Condition.contains FieldName.path value
  exact_value field value = elim (parse_digits i64_max value) [
    | some n ↦ equals field (number (pos n))
    | none ↦ equals field (text_value value)
  ]

  unfoldable pub build_condition : FieldName → Text → Condition Regex
  unfolding exact_value is_wildcard wildcard_to_regex regex_condition
  build_condition field value =
      if is_wildcard value
      then regex_condition engine field (wildcard_to_regex value)
      else exact_value field value

  compared : (ℤ → Condition Regex) → Text → Option ℕ → Result (Condition Regex)
  compared c value none = err (invalid_line value)
  compared c value (some n) = ok (c (pos n))

  query_value : Text → Option ℕ → QueryValue
  query_value value none = text_value value
  query_value value (some n) = number (pos n)

  operate : FieldName → Operator → Text → Option ℕ → Result (Condition Regex)
  unfolding compared query_value
  operate field op_eq value n = ok (equals field (query_value value n))
  operate field op_ne value n = ok (not_equals field (query_value value n))
  operate field op_gt value n = compared (λ i. gt field (number i)) value n
  operate field op_ge value n = compared (λ i. ge field (number i)) value n
  operate field op_lt value n = compared (λ i. lt field (number i)) value n
  operate field op_le value n = compared (λ i. le field (number i)) value n

  unfoldable pub apply_operator : FieldName → Operator → Text → Result (Condition Regex)
  unfolding operate digits_of
  apply_operator field op value = elim (digits_of value) [
    | err e ↦ err e
    | ok n ↦ operate field op value n
  ]

  parse_value : FieldName → Text → Option (Operator × Text) → Result (Condition Regex)
  unfolding apply_operator build_condition
  parse_value field rest (some (op, value)) = apply_operator field op (trim value)
  parse_value field rest none = ok (build_condition field rest)

  parse_named : Text → Option FieldName → Text → Result (Condition Regex)
  unfolding parse_value read_operator
  parse_named name none rest = err (unknown_field name)
  parse_named name (some field) rest = parse_value field rest (read_operator rest)

  parse_split : Text → Text × Option Text → Result (Condition Regex)
  unfolding parse_named field_named
  parse_split line (name, none) = err (invalid_line line)
  parse_split line (name, some rest) = parse_named (trim name) (field_named (trim name)) (trim rest)

  unfoldable pub parse_field_line : Text → Result (Condition Regex)
  unfolding parse_split find_split trim
  parse_field_line line = parse_split line (find_split b':' line)
