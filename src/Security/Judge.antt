-- ===== src/Security/Judge.antt =====
-- crates/security/src/executor.rs: what is made of the response to a test. `to_lowercase`, which goes
-- by Unicode, is a parameter. The Vietnamese texts are values that name them. `none` is a panic: a cut
-- inside of a character.
use aiautotest.Common.{
  ℕ, ◌+◌, ◌==◌, ltb, leb, if◌then◌else◌, unwrap_or, Bool, true, false, not, ◌&&◌, ◌||◌, Option,
  none, some, List, [], ◌∷◌, length, any, find, Text, text, text_eq, starts_with, trim,
  is_empty_text, contains_text,
}
use aiautotest.Scanner.Request.{HttpRequest}
use aiautotest.Scanner.Verifier.{Severity, info, warning, high, critical}
use aiautotest.Security.{Oracle}
use aiautotest.Security.Mutate.{slice_to, rfind}

unfoldable pub severity_from_str : Text → Severity
unfolding text_eq
severity_from_str s =
    if text_eq s (text "Critical")
    then critical
    else if text_eq s (text "High")
    then high
    else if text_eq s (text "Warning")
    then warning
    else if text_eq s (text "Info")
    then info
    else warning

expects_status : Option ℕ → ℕ → Bool
expects_status none status = true
expects_status (some expected) status = status == expected

expects_text : Option Text → Text → Bool
unfolding contains_text
expects_text none body = true
expects_text (some needle) body = contains_text needle body

unfoldable pub check_oracle : Oracle → (status : ℕ) → (body : Text) → Bool
unfolding expects_status expects_text
check_oracle oracle status body =
    expects_status oracle.expect_status status && expects_text oracle.expect_contains body

-- The name that a verdict gives to a flaw.
pub data FlawName : Type 0 where
  leak_jwt_token idor auth_bypass sql_injection xss csrf open_redirect no_rate_limiting unknown :
      FlawName

unfoldable pub flaw_name : Text → FlawName
unfolding text_eq
flaw_name flaw =
    if text_eq flaw (text "jwt_exposure")
    then leak_jwt_token
    else if text_eq flaw (text "idor")
    then idor
    else if text_eq flaw (text "auth_bypass")
    then auth_bypass
    else if text_eq flaw (text "sqli")
    then sql_injection
    else if text_eq flaw (text "xss")
    then xss
    else if text_eq flaw (text "csrf")
    then csrf
    else if text_eq flaw (text "open_redirect")
    then open_redirect
    else if text_eq flaw (text "rate_limit")
    then no_rate_limiting
    else unknown

pub data Verdict : Type 0 where
  accepts_without_csrf_token verify_by_hand : Verdict
  possible_flaw : FlawName → Verdict
  safe_passed safe_nothing_found : Verdict

unfoldable pub verdict_str : (flaw : Text) → (passed potential : Bool) → (status : ℕ) → Verdict
unfolding text_eq flaw_name
verdict_str flaw passed potential status =
    if text_eq flaw (text "csrf") && (status == 200 || status == 201)
    then accepts_without_csrf_token
    else if potential
    then if text_eq flaw (text "idor") then verify_by_hand else possible_flaw (flaw_name flaw)
    else if passed
    then safe_passed
    else safe_nothing_found

contains_any : List Text → Text → Bool
unfolding contains_text
contains_any needles body = any (λ n. contains_text n body) needles

sqli_false_positive : (to_lowercase : Text → Text) → ℕ → Text → Bool
unfolding contains_any
sqli_false_positive to_lowercase status body =
    status == 422
    || (contains_any (text "\"data\":[" ∷ text "\"data\": [" ∷ []) body
        && not (contains_any (text "error" ∷ text "syntax" ∷ text "sql" ∷ []) (to_lowercase body)))

xss_false_positive : Text → Bool
unfolding contains_any trim
xss_false_positive body =
    (starts_with (text "{") (trim body) || starts_with (text "[") (trim body))
    && not
        (contains_any (text "<script" ∷ text "<svg" ∷ text "onload" ∷ text "javascript:" ∷ []) body)

rate_limit_false_positive : ℕ → Text → Bool
unfolding contains_any
rate_limit_false_positive status test_path =
    (contains_any (text "csrf" ∷ []) test_path && status == 400)
    || not (contains_any (text "callback" ∷ text "login" ∷ text "signin" ∷ []) test_path)

unfoldable pub is_likely_false_positive :
    (to_lowercase : Text → Text) → (flaw : Text) → (status : ℕ) → (body test_path : Text) → Bool
unfolding sqli_false_positive xss_false_positive rate_limit_false_positive text_eq trim
is_likely_false_positive to_lowercase flaw status body test_path =
    if text_eq flaw (text "jwt_exposure")
    then leb 400 status && ltb status 500
    else if text_eq flaw (text "sqli")
    then sqli_false_positive to_lowercase status body
    else if text_eq flaw (text "xss")
    then xss_false_positive body
    else if text_eq flaw (text "open_redirect")
    then status == 500
    else if text_eq flaw (text "auth_bypass")
    then status == 200 && (text_eq (trim body) (text "{}") || is_empty_text (trim body))
    else if text_eq flaw (text "rate_limit")
    then rate_limit_false_positive status test_path
    else false

-- The flaw's own test of the response.
unfoldable pub oracle_should_report :
    (flaw : Text) → (passed potential : Bool) → (status : ℕ) → (body : Text) → Bool
unfolding contains_any text_eq
oracle_should_report flaw passed potential status body =
    if text_eq flaw (text "jwt_exposure")
    then contains_any (text "accessToken" ∷ text "eyJ" ∷ []) body
    else if text_eq flaw (text "idor") || text_eq flaw (text "auth_bypass")
    then passed || potential
    else if text_eq flaw (text "csrf")
    then status == 200 || status == 201
    else if text_eq flaw (text "open_redirect")
    then contains_any (text "evil.com" ∷ text "callbackUrl" ∷ text "redirect" ∷ []) body
    else passed

unfoldable pub skill_name :
    (flaw : Text) → (scan_suspicious is_rsc_endpoint by_oracle : Bool) → Text
skill_name flaw scan_suspicious is_rsc_endpoint by_oracle =
    if scan_suspicious && is_rsc_endpoint
    then text "rsc_data_leakage"
    else if scan_suspicious && not by_oracle
    then text "secret_leak"
    else flaw

-- Where the snippet of the first 200 bytes ends.
cut_of : (raw : Text) → ℕ
unfolding rfind
cut_of raw = elim (rfind b'>' raw) [ some i ↦ i | none ↦ unwrap_or (rfind b' ' raw) 150 ]

cut_snippet : Option Text → (body : Text) → Option Text
unfolding cut_of slice_to
cut_snippet none body = none
cut_snippet (some raw) body = slice_to (cut_of raw + 1) body

-- The part of the body that stands in the evidence, before the ellipsis if it is cut.
unfoldable pub snippet : (body : Text) → Option Text
unfolding cut_snippet slice_to
snippet body = if ltb 200 (length body) then cut_snippet (slice_to 200 body) body else some body

clipped : Text → Option Text
unfolding slice_to
clipped value = if ltb 100 (length value) then slice_to 100 value else some value

-- The cookies in the evidence, the first 100 bytes when they are longer. Outside, `none` is the panic;
-- inside, the text that says there are no cookies.
module _ (to_lowercase : Text → Text) where
  cookie_of : Option (Text × Text) → Option (Option Text)
  unfolding clipped
  cookie_of none = some none
  cookie_of (some (name, value)) = elim (clipped value) [
    | none ↦ none
    | some shown ↦ some (some shown)
  ]

  unfoldable pub format_cookies : HttpRequest → Option (Option Text)
  unfolding cookie_of text_eq
  format_cookies r = cookie_of (find (λ h. text_eq (to_lowercase h.0) (text "cookie")) r.headers)
