-- ===== src/Domain/Rules.antt =====
-- crates/domain/src/config.rs: the rules that rewrite requests and responses.
use aiautotest.Common.{Bool, true, false, Option, Text}

pub data MatchConditionType : Type 0 where
  always : MatchConditionType
  header : MatchConditionType
  path_pattern : MatchConditionType
  body_regex : MatchConditionType

pub record MatchCondition : Type 0 where
  pub kind : MatchConditionType
  pub header : Option Text
  pub pattern : Option Text

pub data ReplaceActionType : Type 0 where
  set_header : ReplaceActionType
  remove_header : ReplaceActionType
  replace_body : ReplaceActionType
  replace_url : ReplaceActionType

pub record ReplaceAction : Type 0 where
  pub kind : ReplaceActionType
  pub header : Option Text
  pub value : Option Text
  pub pattern : Option Text
  pub replacement : Option Text

pub data RuleDirection : Type 0 where
  request : RuleDirection
  response : RuleDirection

abbrev pub same_direction : RuleDirection → RuleDirection → Bool
same_direction RuleDirection.request RuleDirection.request = true
same_direction RuleDirection.response RuleDirection.response = true
same_direction _ _ = false

-- The source's `match` field is the condition.
pub record MatchRule : Type 0 where
  pub name : Text
  pub direction : RuleDirection
  pub condition : MatchCondition
  pub action : ReplaceAction
