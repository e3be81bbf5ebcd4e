-- ===== src/Workflow/Contract.antt =====
-- crates/workflow/src/contract.rs: a workflow as nodes and edges. `N` is the type of JSON numbers.
use aiautotest.Common.{ℕ, Bool, true, false, Option, List, Text, text, text_eq, find}
use aiautotest.Workflow.Json.{Value}

pub record HttpRequestConfig : Type 0 where
  pub method : Text
  pub path : Text
  pub headers : List (Text × Text)
  pub body : Option Text
  pub retries : ℕ
  pub timeout_secs : ℕ

pub record ExtractVariableConfig : Type 0 where
  pub source : Text
  pub path : Text
  pub name : Text

pub record AssertConfig (N : Type 0) : Type 0 where
  pub source : Text
  pub path : Text
  pub operator : Text
  pub expected : Value N

pub record ConditionConfig (N : Type 0) : Type 0 where
  pub source : Text
  pub path : Text
  pub operator : Text
  pub value : Value N

pub record LoopConfig : Type 0 where
  pub source : Text
  pub item : Text
  pub max_iterations : ℕ
  pub body_start : Text
  pub body_end : Text

pub data NodeKind (N : Type 0) : Type 0 where
  http_request : HttpRequestConfig → NodeKind N
  extract_variable : ExtractVariableConfig → NodeKind N
  assert : AssertConfig N → NodeKind N
  delay : (ms : ℕ) → NodeKind N
  condition : ConditionConfig N → NodeKind N
  loop : LoopConfig → NodeKind N

pub record Node (N : Type 0) : Type 0 where
  pub id : Text
  pub kind : NodeKind N

pub record Edge : Type 0 where
  pub source : Text
  pub target : Text
  pub when : Option Text

pub record Workflow (N : Type 0) : Type 0 where
  pub name : Text
  pub base_url : Text
  pub nodes : List (Node N)
  pub edges : List Edge
  pub timeout_secs : ℕ

module _ {N : Type 0} where
  unfoldable pub type_name : NodeKind N → Text
  type_name (http_request c) = text "http_request"
  type_name (extract_variable c) = text "extract_variable"
  type_name (assert c) = text "assert"
  type_name (delay ms) = text "delay"
  type_name (condition c) = text "condition"
  type_name (loop c) = text "loop"

  -- Whether the node's result is used for branching.
  unfoldable pub is_boolean : NodeKind N → Bool
  is_boolean (condition c) = true
  is_boolean (assert c) = true
  is_boolean _ = false

  unfoldable pub node : Workflow N → Text → Option (Node N)
  node w id = find (λ n. text_eq n.id id) w.nodes
