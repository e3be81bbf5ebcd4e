-- ===== src/Proxy/Rules.antt =====
-- crates/proxy/src/match_replace.rs: the rules that rewrite requests and responses, compiled once.
-- The crates regex and http are parameters.
pub mod Laws
mod Tests
use aiautotest.Common.{
  Bool, true, false, not, ◌&&◌, Option, none, some, List, [], ◌∷◌, ◌++◌, Text, text_eq, map, filter,
  unwrap_or, if◌then◌else◌,
}
use aiautotest.Domain.Rules.{
  MatchConditionType, MatchCondition, ReplaceActionType, ReplaceAction, RuleDirection,
  same_direction, MatchRule,
}

pub record Crates : Type 1 where
  pub Regex : Type 0
  pub HeaderName : Type 0
  pub HeaderValue : Type 0
  pub HeaderMap : Type 0
  -- `Regex::new`, `HeaderName::try_from` and `HeaderValue::from_str`; `none` is their error.
  pub new_regex : Text → Option Regex
  pub header_name : Text → Option HeaderName
  pub header_value : Text → Option HeaderValue
  -- `is_match`, and `replace_all` with the text first.
  pub is_match : Regex → Text → Bool
  pub replace_all : Regex → Text → Text → Text
  -- `get`, `insert` and `remove` of a header map, and `to_str`.
  pub get : HeaderName → HeaderMap → Option HeaderValue
  pub insert : HeaderName → HeaderValue → HeaderMap → HeaderMap
  pub remove : HeaderName → HeaderMap → HeaderMap
  pub to_str : HeaderValue → Option Text

abbrev pub bind : {A B : Type 0} → Option A → (A → Option B) → Option B
bind none f = none
bind (some a) f = f a

-- `Option::is_some_and`
abbrev pub is_some_and : {A : Type 0} → (A → Bool) → Option A → Bool
is_some_and p none = false
is_some_and p (some a) = p a

module _ (crates : Crates) where
  open crates use {
    Regex, HeaderName, HeaderValue, HeaderMap, new_regex, header_name, header_value, is_match,
    replace_all, get, insert, remove, to_str,
  }

  pub data CompiledCondition : Type 0 where
    always : CompiledCondition
    header : (name : Option HeaderName) (pattern : Option Regex) → CompiledCondition
    path_pattern : (pattern : Option Regex) → CompiledCondition
    body_regex : (pattern : Option Regex) → CompiledCondition

  pub data CompiledAction : Type 0 where
    set_header : (name : Option HeaderName) (value : Option HeaderValue) → CompiledAction
    remove_header : (name : Option HeaderName) → CompiledAction
    replace_body : (pattern : Option Regex) (replacement : Text) → CompiledAction
    replace_url : (pattern : Option Regex) (replacement : Text) → CompiledAction

  pub record CompiledRule : Type 0 where
    pub direction : RuleDirection
    pub condition : CompiledCondition
    pub action : CompiledAction

  pub record MatchReplaceEngine : Type 0 where
    pub rules : List MatchRule
    pub compiled : List CompiledRule

  unfoldable pub matches :
      CompiledCondition → HeaderMap → (path : Text) → (body : Option Text) → Bool
  matches CompiledCondition.always headers path body = true
  matches (CompiledCondition.header (some name) (some re)) headers path body =
      is_some_and (λ value. is_match re (unwrap_or (to_str value) [])) (get name headers)
  matches (CompiledCondition.header _ _) headers path body = false
  matches (CompiledCondition.path_pattern pattern) headers path body =
      is_some_and (λ re. is_match re path) pattern
  matches (CompiledCondition.body_regex pattern) headers path body =
      is_some_and (λ re. is_some_and (λ b. is_match re b) body) pattern

  unfoldable pub apply_headers : CompiledAction → HeaderMap → HeaderMap
  apply_headers (CompiledAction.set_header (some name) (some value)) headers =
      insert name value headers
  apply_headers (CompiledAction.remove_header (some name)) headers = remove name headers
  apply_headers _ headers = headers

  unfoldable pub apply_body : CompiledAction → Text → Text
  apply_body (CompiledAction.replace_body (some re) replacement) body =
      replace_all re body replacement
  apply_body _ body = body

  unfoldable pub apply_url : CompiledAction → Text → Text
  apply_url (CompiledAction.replace_url (some re) replacement) url = replace_all re url replacement
  apply_url _ url = url

  unfoldable pub compile_optional : Option Text → Option Regex
  compile_optional pattern = bind pattern new_regex

  compile_condition : MatchConditionType → MatchCondition → CompiledCondition
  unfolding compile_optional
  compile_condition MatchConditionType.always c = CompiledCondition.always
  compile_condition MatchConditionType.header c =
      CompiledCondition.header (bind c.header header_name) (compile_optional c.pattern)
  compile_condition MatchConditionType.path_pattern c =
      CompiledCondition.path_pattern (compile_optional c.pattern)
  compile_condition MatchConditionType.body_regex c =
      CompiledCondition.body_regex (compile_optional c.pattern)

  compile_action : ReplaceActionType → ReplaceAction → CompiledAction
  unfolding compile_optional
  compile_action ReplaceActionType.set_header a =
      CompiledAction.set_header (bind a.header header_name) (bind a.value header_value)
  compile_action ReplaceActionType.remove_header a =
      CompiledAction.remove_header (bind a.header header_name)
  compile_action ReplaceActionType.replace_body a =
      CompiledAction.replace_body (compile_optional a.pattern) (unwrap_or a.replacement [])
  compile_action ReplaceActionType.replace_url a =
      CompiledAction.replace_url (compile_optional a.pattern) (unwrap_or a.replacement [])

  unfoldable pub compile_rule : MatchRule → CompiledRule
  unfolding compile_condition compile_action
  compile_rule rule = record {
    direction = rule.direction;
    condition = compile_condition rule.condition.kind rule.condition;
    action = compile_action rule.action.kind rule.action;
  }

  unfoldable pub new : List MatchRule → MatchReplaceEngine
  unfolding compile_rule
  new rules = record { rules = rules; compiled = map compile_rule rules }

  unfoldable pub add_rule : MatchRule → MatchReplaceEngine → MatchReplaceEngine
  unfolding compile_rule
  add_rule rule e = record {
    rules = e.rules ++ rule ∷ [];
    compiled = e.compiled ++ compile_rule rule ∷ [];
  }

  unfoldable pub remove_rule : Text → MatchReplaceEngine → MatchReplaceEngine
  unfolding compile_rule
  remove_rule name e =
      let kept = filter (λ rule. not (text_eq rule.name name)) e.rules in
      record { rules = kept; compiled = map compile_rule kept }

  -- The loop over the compiled rules; each sees the headers that the ones before it left.
  unfoldable pub rewrite_headers :
      RuleDirection
      → List CompiledRule
      → (path : Text) → (body : Option Text) → HeaderMap
      → HeaderMap
  unfolding matches apply_headers
  rewrite_headers direction [] path body headers = headers
  rewrite_headers direction (rule ∷ rules) path body headers =
      rewrite_headers direction rules path body (
        if same_direction rule.direction direction && matches rule.condition headers path body
        then apply_headers rule.action headers
        else headers)

  unfoldable pub apply_to_request_headers :
      MatchReplaceEngine → HeaderMap → (path : Text) → (body : Option Text) → HeaderMap
  unfolding rewrite_headers
  apply_to_request_headers e headers path body =
      rewrite_headers RuleDirection.request e.compiled path body headers

  unfoldable pub apply_to_response_headers :
      MatchReplaceEngine → HeaderMap → (path : Text) → HeaderMap
  unfolding rewrite_headers
  apply_to_response_headers e headers path =
      rewrite_headers RuleDirection.response e.compiled path none headers

  unfoldable pub rewrite_body :
      RuleDirection → List CompiledRule → HeaderMap → (path : Text) → (body : Text) → Text
  unfolding matches apply_body
  rewrite_body direction [] headers path body = body
  rewrite_body direction (rule ∷ rules) headers path body =
      rewrite_body direction rules headers path (
        if same_direction rule.direction direction
          && matches rule.condition headers path (some body)
        then apply_body rule.action body
        else body)

  unfoldable pub apply_to_body :
      MatchReplaceEngine → (body : Text) → RuleDirection → HeaderMap → (path : Text) → Text
  unfolding rewrite_body
  apply_to_body e body direction headers path = rewrite_body direction e.compiled headers path body

  unfoldable pub rewrite_url :
      List CompiledRule → HeaderMap → (path : Text) → (body : Option Text) → (url : Text) → Text
  unfolding matches apply_url
  rewrite_url [] headers path body url = url
  rewrite_url (rule ∷ rules) headers path body url = rewrite_url rules headers path body (
      if same_direction rule.direction RuleDirection.request
        && matches rule.condition headers path body
      then apply_url rule.action url
      else url)

  unfoldable pub apply_to_url :
      MatchReplaceEngine → (url : Text) → HeaderMap → (path : Text) → (body : Option Text) → Text
  unfolding rewrite_url
  apply_to_url e url headers path body = rewrite_url e.compiled headers path body url
