-- ===== src/Proxy/Rules/Tests.antt =====
-- Rules over header maps that are association lists, and patterns that are whole texts.
use aiautotest.Common.{
  none, some, List, [], ◌∷◌, Text, text, text_eq, lookup, insert, remove, ◌≡◌, refl, if◌then◌else◌,
}
use aiautotest.Domain.Rules.{
  MatchConditionType, MatchCondition, ReplaceActionType, RuleDirection, MatchRule,
}
use aiautotest.Proxy.Rules.{
  Crates, new, apply_to_request_headers, apply_to_response_headers, apply_to_url,
}
use aiautotest.Proxy.Rules.Laws.{Operation, adds, removes, run, edit_all, run-new}

abbrev texts : Crates
texts = record {
  Regex = Text;
  HeaderName = Text;
  HeaderValue = Text;
  HeaderMap = List (Text × Text);
  new_regex = λ p. some p;
  header_name = λ n. elim n [ [] ↦ none | c ∷ s ↦ some (c ∷ s) ];
  header_value = λ v. some v;
  is_match = text_eq;
  replace_all = λ re t r. if text_eq re t then r else t;
  get = lookup;
  insert = insert;
  remove = remove;
  to_str = λ v. some v;
}

abbrev always : MatchCondition
always = record { kind = MatchConditionType.always; header = none; pattern = none }

abbrev sets_header : Text → RuleDirection → Text → Text → MatchRule
sets_header name direction header value = record {
  name = name;
  direction = direction;
  condition = always;
  action = record {
    kind = ReplaceActionType.set_header;
    header = some header;
    value = some value;
    pattern = none;
    replacement = none;
  };
}

abbrev sets_url : MatchRule
sets_url = record {
  name = text "move";
  direction = RuleDirection.request;
  condition = record {
    kind = MatchConditionType.path_pattern;
    header = none;
    pattern = some (text "/a");
  };
  action = record {
    kind = ReplaceActionType.replace_url;
    header = none;
    value = none;
    pattern = some (text "http://h/a");
    replacement = some (text "http://i/b");
  };
}

abbrev rules : List MatchRule
rules =
    sets_header (text "out") RuleDirection.request (text "x-a") (text "1")
    ∷ sets_header (text "in") RuleDirection.response (text "x-b") (text "2")
    ∷ sets_url
    ∷ []

abbrev changes : List Operation
changes =
    removes (text "out")
    ∷ adds (sets_header (text "last") RuleDirection.request (text "x-c") (text "3"))
    ∷ []

rules_tests :
    (apply_to_request_headers texts (new texts rules) [] (text "/a") none
      ≡ (text "x-a", text "1") ∷ [])
    × (apply_to_response_headers texts (new texts rules) [] (text "/a")
        ≡ (text "x-b", text "2") ∷ [])
    × (apply_to_url texts (new texts rules) (text "http://h/a") [] (text "/a") none
        ≡ text "http://i/b")
    × (apply_to_url texts (new texts rules) (text "http://h/a") [] (text "/c") none
        ≡ text "http://h/a")
unfolding new apply_to_request_headers apply_to_response_headers apply_to_url insert text_eq
rules_tests = (refl, refl, refl, refl)

run-new_example : run texts changes (new texts rules) ≡ new texts (edit_all changes rules)
run-new_example = run-new texts changes rules
