-- ===== src/Query/Field/Laws.antt =====
-- Conditions on the response status.
use aiautotest.Common.{true, false, Text, ◌≡◌, refl, Option-cases, inl, inr}
use aiautotest.Domain.Scope.{RegexEngine}
use aiautotest.Domain.Flow.{HttpFlow}
use aiautotest.Query.Condition.{FieldName, matches, extract, regex_field, regex_condition}
use aiautotest.Query.Field.{build_condition, is_wildcard, wildcard_to_regex}

module _ (engine : RegexEngine) where
  open engine use {new_regex}

  status_regex-never :
      (pattern : Text) (f : HttpFlow)
      → matches engine (regex_condition engine FieldName.response_status pattern) f ≡ false
  unfolding regex_condition matches extract regex_field
  status_regex-never pattern f = elim (Option-cases (new_regex pattern)) [
    | inl e ↦ rw (e, regex_condition) refl
    | inr (re, e) ↦ rw (e, regex_condition) refl
  ]

  -- A wildcard on `resp.status`, as in `resp.status:4*`, matches no flow.
  pub status_wildcard-never :
      (value : Text) (f : HttpFlow)
      → is_wildcard value ≡ true
      → matches engine (build_condition engine FieldName.response_status value) f ≡ false
  unfolding build_condition
  status_wildcard-never value f w = rw w (status_regex-never (wildcard_to_regex value) f)
