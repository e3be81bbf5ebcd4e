-- ===== src/Security/Validator.antt =====
-- crates/security/src/validator.rs: `validate_plan`. A message is a value of `PlanError` or
-- `PlanWarning` with what its format string prints; `Url::parse` is a parameter.
pub mod Laws
use aiautotest.Common.{
  ℕ, ltb, Bool, true, false, not, ◌&&◌, ◌||◌, Option, none, some, List, [], ◌∷◌, ◌++◌, Text, text,
  text_eq, contains, length, any, starts_with, trim, to_ascii_lowercase, is_empty_text, is_some,
  unwrap_or, if◌then◌else◌,
}
use aiautotest.Security.{Target, Oracle, SecurityTest, SecurityTestPlan}

pub data PlanError : Type 0 where
  empty_base_url : PlanError
  bad_base_url : (base_url : Text) → PlanError
  no_tests : PlanError
  too_many_tests : PlanError
  empty_id : PlanError
  duplicate_id : (id : Text) → PlanError
  unknown_flaw : (id flaw : Text) → PlanError
  empty_method : (id : Text) → PlanError
  empty_path : (id : Text) → PlanError
  relative_path : (id : Text) → PlanError

pub data PlanWarning : Type 0 where
  unknown_severity : (id severity : Text) → PlanWarning
  invented_path : (id path : Text) → PlanWarning
  duplicate_target : (id : Text) → PlanWarning
  empty_oracle : (id : Text) → PlanWarning
  no_payload : (id flaw : Text) → PlanWarning

pub record ValidationResult : Type 0 where
  pub errors : List PlanError
  pub warnings : List PlanWarning

abbrev pub is_empty {ℓ} : {A : Type ℓ} → List A → Bool
is_empty [] = true
is_empty (x ∷ xs) = false

unfoldable pub is_valid : ValidationResult → Bool
is_valid r = is_empty r.errors

-- `if test { push(message) }`
abbrev pub when : {A : Type 0} → Bool → A → List A
when true a = a ∷ []
when false a = []

abbrev pub allowed_flaws : List Text
allowed_flaws =
    text "jwt_exposure"
    ∷ text "idor"
    ∷ text "bola"
    ∷ text "auth_bypass"
    ∷ text "xss"
    ∷ text "sqli"
    ∷ text "nosql"
    ∷ text "csrf"
    ∷ text "open_redirect"
    ∷ text "rate_limit"
    ∷ text "excessive_data_exposure"
    ∷ text "secret_leak"
    ∷ text "cwe_debug_exposure"
    ∷ text "mass_assignment"
    ∷ text "prompt_injection"
    ∷ text "jwt_forge"
    ∷ []

abbrev allowed_severities : List Text
allowed_severities = text "Critical" ∷ text "High" ∷ text "Medium" ∷ text "Low" ∷ text "Info" ∷ []

abbrev allowed_prefixes : List Text
allowed_prefixes =
    text "/identity/"
    ∷ text "/community/"
    ∷ text "/workshop/"
    ∷ text "/codelab/"
    ∷ text "/genai/"
    ∷ text "/api/"
    ∷ text "/workshop/"
    ∷ []

abbrev generic_paths : List Text
generic_paths =
    text "/" ∷ text "/.env" ∷ text "/debug" ∷ text "/admin" ∷ text "/redirect" ∷ text "/search" ∷ []

abbrev active_flaws : List Text
active_flaws =
    text "xss"
    ∷ text "sqli"
    ∷ text "nosql"
    ∷ text "idor"
    ∷ text "bola"
    ∷ text "open_redirect"
    ∷ text "mass_assignment"
    ∷ text "prompt_injection"
    ∷ []

is_generic : Text → Bool
unfolding contains
is_generic lower =
    contains lower generic_paths
    || (starts_with (text "/.env") lower
        || (starts_with (text "/debug") lower || starts_with (text "/admin") lower))

unfoldable pub id_errors : (ids : List Text) → (id : Text) → List PlanError
id_errors ids id =
    if is_empty_text (trim id) then empty_id ∷ [] else when (contains id ids) (duplicate_id id)

unfoldable pub path_errors : (id path : Text) → List PlanError
path_errors id path =
    if is_empty_text (trim path)
    then empty_path id ∷ []
    else when (not (starts_with (text "/") path)) (relative_path id)

-- Only a path that is no error is looked at.
path_warnings : (id path : Text) → List PlanWarning
unfolding is_generic path_errors to_ascii_lowercase
path_warnings id path =
    when
      (is_empty (path_errors id path)
        && (is_generic (to_ascii_lowercase path)
            || not (any (λ p. starts_with p path) allowed_prefixes)))
      (invented_path id path)

unfoldable pub test_errors : (ids : List Text) → SecurityTest → List PlanError
unfolding id_errors path_errors
test_errors ids t =
    id_errors ids t.id
    ++ (when (not (contains t.flaw allowed_flaws)) (unknown_flaw t.id t.flaw)
        ++ (when (is_empty_text (trim t.target.method)) (empty_method t.id)
            ++ path_errors t.id t.target.path))

target_key : SecurityTest → Text
target_key t = t.flaw ++ (text ":" ++ t.target.path)

is_blank_payload : Option Text → Bool
is_blank_payload none = true
is_blank_payload (some p) = is_empty_text (trim p)

test_warnings : (seen_targets : List Text) → SecurityTest → List PlanWarning
unfolding path_warnings target_key is_blank_payload contains
test_warnings seen_targets t =
    when (not (contains t.severity allowed_severities) && not (is_empty_text t.severity))
      (unknown_severity t.id t.severity)
    ++ (path_warnings t.id t.target.path
        ++ (when (contains (target_key t) seen_targets) (duplicate_target t.id)
            ++ (when
                  (not (is_some t.oracle.expect_status) && not (is_some t.oracle.expect_contains))
                  (empty_oracle t.id)
                ++ when (contains t.flaw active_flaws && is_blank_payload t.payload)
                    (no_payload t.id t.flaw))))

-- Blank ids do not enter the set.
unfoldable pub ids_after : List Text → Text → List Text
ids_after ids id = if is_empty_text (trim id) then ids else id ∷ ids

-- The loop over the tests: its errors, and its warnings.
unfoldable pub tests_errors : (ids : List Text) → List SecurityTest → List PlanError
unfolding test_errors ids_after
tests_errors ids [] = []
tests_errors ids (t ∷ ts) = test_errors ids t ++ tests_errors (ids_after ids t.id) ts

tests_warnings : (seen_targets : List Text) → List SecurityTest → List PlanWarning
unfolding test_warnings target_key
tests_warnings seen_targets [] = []
tests_warnings seen_targets (t ∷ ts) =
    test_warnings seen_targets t ++ tests_warnings (target_key t ∷ seen_targets) ts

module _ (is_url : Text → Bool) where
  unfoldable pub base_url_errors : Text → List PlanError
  base_url_errors base_url =
      if is_empty_text (trim base_url)
      then empty_base_url ∷ []
      else when (not (is_url base_url)) (bad_base_url base_url)

  unfoldable pub validate_plan : SecurityTestPlan → ValidationResult
  unfolding base_url_errors tests_errors tests_warnings
  validate_plan plan = record {
    errors =
        base_url_errors plan.base_url
        ++ (when (is_empty plan.tests) no_tests
            ++ (when (ltb 25 (length plan.tests)) too_many_tests ++ tests_errors [] plan.tests));
    warnings = tests_warnings [] plan.tests;
  }
