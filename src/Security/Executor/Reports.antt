-- ===== src/Security/Executor/Reports.antt =====
-- Tests whose findings are held back, and tests whose requests cannot be built.
use aiautotest.Common.{
  ℕ, unwrap_or, ◌≡◌, Bool, true, false, not, ◌&&◌, Option, none, some, [], ◌∷◌, arith, any, Text,
  text, text_eq, trim, find_split, is_empty_text, contains_text,
}
use aiautotest.Security.{SecurityTest}
use aiautotest.Security.Mutate.{
  path_with, given_payload, payload_parts, Crates, mutate_target, replace_segment, rfind, slice_to,
}
use aiautotest.Security.Judge.{is_likely_false_positive}
use aiautotest.Security.Executor.{status_of, body_of, Scan, Response, reports}
use aiautotest.Domain.Scope.{RegexEngine}
use aiautotest.Workflow.Graph.{trim_end_char}

and-not : (x y : Bool) → y ≡ true → (x && not y) ≡ false
and-not x y h = ground arith

is_likely_false_positive-rate_limit :
    (to_lowercase : Text → Text) (flaw : Text) (status : ℕ) (body path : Text)
    → flaw ≡ text "rate_limit"
    → any (λ word. contains_text word path) (text "callback" ∷ text "login" ∷ text "signin" ∷ [])
      ≡ false
    → is_likely_false_positive to_lowercase flaw status body path ≡ true
unfolding is_likely_false_positive text_eq
is_likely_false_positive-rate_limit to_lowercase flaw status body path h k =
    rw h (ground (arith, k))

-- A rate-limit test of a path that is no login reports no finding, whatever the response and the scans
-- of it say.
pub reports-rate_limit :
    (crates : Crates) (to_lowercase : Text → Text) (parse_url : Text → Option (Text × Text))
    (engine : RegexEngine) (scan : Text → Scan) (t : SecurityTest) (response : Response)
    → t.flaw ≡ text "rate_limit"
    → any
        (λ word. contains_text word t.target.path)
        (text "callback" ∷ text "login" ∷ text "signin" ∷ [])
      ≡ false
    → reports crates to_lowercase parse_url engine scan t response ≡ false
unfolding reports
reports-rate_limit crates to_lowercase parse_url engine scan t response h k = and-not _ _ (
    is_likely_false_positive-rate_limit to_lowercase t.flaw
      (status_of crates to_lowercase parse_url engine scan response)
      (body_of crates to_lowercase parse_url engine scan response) t.target.path h k)

replace_segment-bare :
    (segment path : Text)
    → trim_end_char b'/' (find_split b'?' path).0 ≡ []
    → replace_segment segment path ≡ none
unfolding replace_segment rfind slice_to
replace_segment-bare segment path h = rw (h, path_with)

given_payload-real :
    (o : Option Text) (payload : Text)
    → o ≡ some payload
    → is_empty_text (trim payload) ≡ false
    → given_payload o ≡ some payload
unfolding given_payload
given_payload-real o payload h k = rw h (rw k)

payload_parts-path :
    (crates : Crates) (location payload path : Text)
    → location ≡ text "path"
    → trim_end_char b'/' (find_split b'?' path).0 ≡ []
    → payload_parts crates location payload path ≡ none
unfolding payload_parts text_eq
payload_parts-path crates location payload path h k = rw h (replace_segment-bare _ path k)

-- A payload for the path panics where the path has nothing but slashes before its query.
pub mutate_target-panics :
    (crates : Crates) (t : SecurityTest) (base_url payload : Text)
    → t.payload ≡ some payload
    → is_empty_text (trim payload) ≡ false
    → trim (unwrap_or t.location []) ≡ text "path"
    → trim_end_char b'/' (find_split b'?' t.target.path).0 ≡ []
    → mutate_target crates t base_url ≡ none
unfolding mutate_target
mutate_target-panics crates t base_url payload given real at_path bare = rw (
  given_payload-real t.payload payload given real,
  payload_parts-path crates _ payload t.target.path at_path bare,
)
