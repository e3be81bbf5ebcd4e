-- ===== src/Query/Condition.antt =====
-- crates/query/src/condition.rs, dsl.rs and executor.rs: conditions, their builders, and their run over
-- flows. The regex crate is a parameter. An `i64` is an integer.
use aiautotest.Common.{
  ℕ, ◌==◌, ltb, Bool, true, false, not, ◌&&◌, ◌||◌, Option, none, some, List, [], Text, text_eq,
  contains_text, filter,
}
use aiautotest.Domain.Scope.{RegexEngine}
use aiautotest.Domain.Flow.{HttpFlow, as_str}

pub data FieldName : Type 0 where
  method host path full_url content_type response_status request_body response_body : FieldName

-- Integers, as numbers that are not negative and numbers below zero: `negsuc n` is `- (n + 1)`.
pub data ℤ : Type 0 where
  pos : ℕ → ℤ
  negsuc : ℕ → ℤ

unfoldable pub int_eq : ℤ → ℤ → Bool
int_eq (pos a) (pos b) = a == b
int_eq (negsuc a) (negsuc b) = a == b
int_eq _ _ = false

unfoldable pub int_lt : ℤ → ℤ → Bool
int_lt (pos a) (pos b) = ltb a b
int_lt (negsuc a) (negsuc b) = ltb b a
int_lt (negsuc a) (pos b) = true
int_lt (pos a) (negsuc b) = false

pub data QueryValue : Type 0 where
  text_value : Text → QueryValue
  number : ℤ → QueryValue
  bool : Bool → QueryValue

mutual
  pub data Condition (R : Type 0) : Type 0 where
    and_ : Conditions R → Condition R
    or_ : Conditions R → Condition R
    not_ : Condition R → Condition R
    equals : FieldName → QueryValue → Condition R
    not_equals : FieldName → QueryValue → Condition R
    contains : FieldName → Text → Condition R
    regex : FieldName → R → Condition R
    gt : FieldName → QueryValue → Condition R
    ge : FieldName → QueryValue → Condition R
    lt : FieldName → QueryValue → Condition R
    le : FieldName → QueryValue → Condition R
    no_match : Condition R

  pub data Conditions (R : Type 0) : Type 0 where
    nil : Conditions R
    cons : Condition R → Conditions R → Conditions R

pub data FieldValue : Type 0 where
  text_field : Text → FieldValue
  number_field : ℤ → FieldValue
  null : FieldValue

body_value : Option Text → FieldValue
body_value none = null
body_value (some body) = text_field body

unfoldable pub extract : FieldName → HttpFlow → FieldValue
unfolding body_value as_str
extract method f = text_field (as_str f.method)
extract host f = text_field f.host
extract path f = text_field f.path
extract full_url f = text_field f.full_url
extract content_type f = text_field f.content_type
extract response_status f = number_field (pos f.response_status)
extract request_body f = body_value f.request_body
extract response_body f = body_value f.response_body

unfoldable pub compare_eq : FieldValue → QueryValue → Bool
unfolding int_eq
compare_eq (text_field actual) (text_value expected) = text_eq actual expected
compare_eq (number_field actual) (number expected) = int_eq actual expected
compare_eq _ _ = false

-- `compare_ordered` with `Ordering::Greater` and with `Ordering::Less`.
unfoldable pub compare_greater : FieldValue → QueryValue → Bool
unfolding int_lt
compare_greater (number_field actual) (number expected) = int_lt expected actual
compare_greater _ _ = false

unfoldable pub compare_less : FieldValue → QueryValue → Bool
unfolding int_lt
compare_less (number_field actual) (number expected) = int_lt actual expected
compare_less _ _ = false

contains_field : FieldValue → Text → Bool
contains_field (text_field s) needle = contains_text needle s
contains_field _ needle = false

module _ (engine : RegexEngine) where
  open engine use {Regex, new_regex, is_match}

  unfoldable pub regex_field : FieldValue → Regex → Bool
  regex_field (text_field s) re = is_match re s
  regex_field null re = is_match re []
  regex_field (number_field n) re = false

  unfoldable mutual
    unfolding contains_field regex_field extract compare_eq compare_greater compare_less

    pub matches : Condition Regex → HttpFlow → Bool
    matches (and_ cs) f = all_match cs f
    matches (or_ cs) f = any_match cs f
    matches (not_ c) f = not (matches c f)
    matches (equals field value) f = compare_eq (extract field f) value
    matches (not_equals field value) f = not (compare_eq (extract field f) value)
    matches (contains field needle) f = contains_field (extract field f) needle
    matches (regex field re) f = regex_field (extract field f) re
    matches (gt field value) f = compare_greater (extract field f) value
    matches (ge field value) f =
        compare_greater (extract field f) value || compare_eq (extract field f) value
    matches (lt field value) f = compare_less (extract field f) value
    matches (le field value) f =
        compare_less (extract field f) value || compare_eq (extract field f) value
    matches no_match f = false

    pub all_match : Conditions Regex → HttpFlow → Bool
    all_match nil f = true
    all_match (cons c cs) f = matches c f && all_match cs f

    pub any_match : Conditions Regex → HttpFlow → Bool
    any_match nil f = false
    any_match (cons c cs) f = matches c f || any_match cs f

  -- `Field::regex`: a pattern that does not compile matches nothing.
  unfoldable pub regex_condition : FieldName → Text → Condition Regex
  regex_condition field pattern = elim (new_regex pattern) [
    | some re ↦ regex field re
    | none ↦ no_match
  ]

  unfoldable pub execute : List HttpFlow → Condition Regex → List HttpFlow
  execute flows condition = filter (matches condition) flows
