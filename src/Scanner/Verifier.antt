-- ===== src/Scanner/Verifier.antt =====
-- crates/scanner/src/response_verifier.rs: the finding that an answer to a mutation gives. Whether the
-- analysis crate finds an answer suspicious is a parameter, as are the id of a finding and
-- `from_utf8_lossy`.
use aiautotest.Common.{
  ◌-◌, ℕ, ◌==◌, leb, ltb, Bool, true, false, not, ◌&&◌, ◌||◌, Option, none, some, List, [], ◌∷◌,
  ◌++◌, Text, text, text_eq, any, map, contains_text, to_ascii_lowercase, is_empty_text,
  if◌then◌else◌,
}
use aiautotest.Scanner.Mutation.{Mutation}

pub data Severity : Type 0 where
  info warning high critical : Severity

-- The fields that the verifier fills; the others stay empty.
pub record Finding : Type 0 where
  pub id : Text
  pub title : Text
  pub description : Text
  pub severity : Severity
  pub skill_name : Text
  pub payload_value : Option Text
  pub payload_description : Option Text
  pub evidence : Option Text

abbrev sql_error_patterns : List Text
sql_error_patterns =
    text "sql syntax"
    ∷ text "sqlstate"
    ∷ text "syntax error"
    ∷ text "unclosed quotation mark"
    ∷ text "mysql_fetch"
    ∷ text "you have an error in your sql"
    ∷ []

-- The first characters of a text: bytes from 128 to 191 belong to the character before them.
unfoldable pub take_chars : ℕ → Text → Text
take_chars n [] = []
take_chars n (c ∷ s) =
    let inside = leb 128 c && ltb c 192 in
    let rest = take_chars (if inside then n else n - 1) s in
    if inside || ltb 0 n then c ∷ rest else []

pub record Analyzers : Type 0 where
  -- `OverfetchingAnalyzer` and `SecretScanner`.
  pub is_overfetching : Text → Bool
  pub has_secrets : Text → Bool

abbrev if_suspicious : Bool → Option Severity → Option Severity
if_suspicious true other = some high
if_suspicious false other = other

-- What is left when the answer does not reflect the payload.
by_status : (skill : Text) → (status : ℕ) → (body : Text) → Option Severity
unfolding to_ascii_lowercase contains_text
by_status skill status body =
    if text_eq skill (text "sqli")
      && (any (λ p. contains_text p (to_ascii_lowercase body)) sql_error_patterns || leb 500 status)
    then some warning
    else none

module _ {N : Type 0} where
  by_reflection : Mutation N → (status : ℕ) → (body : Text) → Option Severity
  unfolding by_status contains_text
  by_reflection m status body =
      let skill = m.payload.skill_name in
      if not (is_empty_text m.payload.value) && contains_text m.payload.value body
      then some
          (if text_eq skill (text "sqli") || text_eq skill (text "xss") then high else warning)
      else by_status skill status body

  unfoldable pub classify : Analyzers → Mutation N → (status : ℕ) → (body : Text) → Option Severity
  unfolding by_reflection
  classify analyzers m status body =
      let skill = m.payload.skill_name in
      if_suspicious
        ((text_eq skill (text "excessive_data_exposure")
              || text_eq skill (text "rsc_hydration_leak"))
            && analyzers.is_overfetching body
          || (text_eq skill (text "secret_leak") || text_eq skill (text "cwe_debug_exposure"))
            && analyzers.has_secrets body)
        (by_reflection m status body)

  -- `none` stands for no signal. `number` prints the status.
  unfoldable pub verify :
      Analyzers
      → (from_utf8_lossy : Text → Text) → (number : ℕ → Text) → (new_id : Text) → Mutation N
      → (status : ℕ) → (body : Text) → Option Finding
  unfolding classify take_chars
  verify analyzers from_utf8_lossy number new_id m status body =
      let text_body = from_utf8_lossy body in
      elim (classify analyzers m status text_body) [
        | none ↦ none
        | some severity ↦ some (record {
          id = new_id;
          title =
              m.payload.skill_name
              ++ (text " signal for parameter `" ++ (m.param.name ++ text "`"));
          description =
              text "Payload `"
              ++ (m.payload.value
                  ++ (text "` injected into "
                      ++ (m.param.name
                          ++ (text " produced status "
                              ++ (number status ++ text " and a response signal.")))));
          severity = severity;
          skill_name = m.payload.skill_name;
          payload_value = some m.payload.value;
          payload_description = some m.payload.description;
          evidence = some (map (λ c. if c == b'\n' then b' ' else c) (take_chars 300 text_body));
        })
      ]
