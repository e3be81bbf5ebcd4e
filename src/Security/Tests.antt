-- ===== src/Security/Tests.antt =====
-- A plan of one test.
use aiautotest.Common.{
  true, false, Bool, none, some, [], ◌∷◌, Text, text, contains, text_eq, trim, ◌≡◌, ◌↔◌, refl,
  starts_with,
}
use aiautotest.Security.{SecurityTest, SecurityTestPlan, is_destructive}
use aiautotest.Security.Validator.{validate_plan, is_valid, no_payload}
use aiautotest.Security.Validator.Laws.{IsRunnable, validate_plan_iff}

abbrev is_url : Text → Bool
is_url t = starts_with (text "https://") t

abbrev test : Text → Text → SecurityTest
test method path = record {
  id = text "t1";
  flaw = text "idor";
  target = record { method = method; path = path };
  severity = text "High";
  payload_hint = [];
  payload = none;
  location = none;
  oracle = record { expect_status = some 403; expect_contains = none };
  requires_confirmation = true;
}

abbrev plan : SecurityTestPlan
plan = record {
  plan_id = text "p1";
  base_url = text "https://h";
  tests = test (text "GET") (text "/api/users/1") ∷ [];
}

validate_plan_iff_example : (is_valid (validate_plan is_url plan) ≡ true) ↔ IsRunnable is_url plan
validate_plan_iff_example = validate_plan_iff is_url plan

plan-result :
    validate_plan is_url plan
    ≡ record { errors = []; warnings = no_payload (text "t1") (text "idor") ∷ [] }
unfolding validate_plan contains text_eq trim
plan-result = refl

-- The marked test does not ask for approval on GET, and does on POST.
approval_tests :
    (is_destructive (λ s. s) (λ s. s) (test (text "GET") (text "/api/users/1")) ≡ false)
    × (is_destructive (λ s. s) (λ s. s) (test (text "POST") (text "/api/users/1")) ≡ true)
unfolding is_destructive contains text_eq
approval_tests = (refl, refl)
