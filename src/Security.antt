-- ===== src/Security.antt =====
-- crates/security/src/types.rs and validator.rs: plans of security tests, which of their tests ask
-- for approval, and the validation of a plan.
pub mod Validator
pub mod Approval
pub mod Mutate
pub mod Judge
pub mod Executor
mod Tests
use aiautotest.Common.{
  ℕ, Bool, true, false, Option, List, [], ◌∷◌, Text, text, contains, any, contains_text, ◌&&◌, ◌||◌,
}

pub record Target : Type 0 where
  pub method : Text
  pub path : Text

pub record Oracle : Type 0 where
  pub expect_status : Option ℕ
  pub expect_contains : Option Text

pub record SecurityTest : Type 0 where
  pub id : Text
  pub flaw : Text
  pub target : Target
  pub severity : Text
  pub payload_hint : Text
  pub payload : Option Text
  pub location : Option Text
  pub oracle : Oracle
  pub requires_confirmation : Bool

pub record SecurityTestPlan : Type 0 where
  pub plan_id : Text
  pub base_url : Text
  pub tests : List SecurityTest

abbrev pub unsafe_methods : List Text
unsafe_methods = text "POST" ∷ text "PUT" ∷ text "DELETE" ∷ text "PATCH" ∷ []

abbrev pub unsafe_words : List Text
unsafe_words =
    text "password"
    ∷ text "delete"
    ∷ text "remove"
    ∷ text "destroy"
    ∷ text "purge"
    ∷ text "reset"
    ∷ text "disable"
    ∷ text "create"
    ∷ text "update"
    ∷ text "modify"
    ∷ text "submit"
    ∷ text "transfer"
    ∷ []

-- `str::to_uppercase` and `str::to_lowercase`, which go by Unicode, are parameters.
module _ (to_uppercase to_lowercase : Text → Text) where
  unfoldable pub is_destructive : SecurityTest → Bool
  unfolding contains contains_text
  is_destructive t =
      contains (to_uppercase t.target.method) unsafe_methods
      && (any (λ word. contains_text word (to_lowercase t.target.path)) unsafe_words
          || t.requires_confirmation)
