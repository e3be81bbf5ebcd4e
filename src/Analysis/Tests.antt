-- ===== src/Analysis/Tests.antt =====
-- Runs of the analysis crate's code, most of them tests of the source, and its theorems at concrete
-- inputs.
use aiautotest.Common.{
  ℕ, ◌≡◌, refl, Option, none, some, List, [], ◌∷◌, Text, text, text_eq, starts_with,
}
use aiautotest.Domain.Flow.{HttpFlow, HttpMethod}
use aiautotest.Domain.Scope.{RegexEngine}
use aiautotest.Workflow.Json.{Value, string, array, nil, cons, number}
use aiautotest.Analysis.Chunks.{extract_rsc_chunks, unescape_json_string, found}
use aiautotest.Analysis.Chunks.Laws.{IsFound, extract_rsc_chunks-IsFound}
use aiautotest.Analysis.Noise.{filter_for_analysis_with_counts}

-- Reads each argument as an array of a number and the argument's own text.
abbrev read_array : Text → Option (Value ℕ)
read_array s = some (array (cons (number 1) (cons (string s) nil)))

abbrev page : Text
page = text "<script>self.__next_f.push([1])</script><script>self.__next_f.push([2,[3]])</script>"

extract_rsc_chunks-IsFound_example : IsFound read_array page (extract_rsc_chunks read_array page)
extract_rsc_chunks-IsFound_example = extract_rsc_chunks-IsFound read_array page

two_chunks : extract_rsc_chunks read_array page ≡ found (text "[1]" ∷ text "[2,[3]]" ∷ [])
unfolding extract_rsc_chunks
two_chunks = refl

-- A payload that is read already keeps no backslash of its own.
unescaped_twice : unescape_json_string (text "a\\nb") ≡ text "a\nb"
unfolding unescape_json_string
unescaped_twice = refl

abbrev prefixes : RegexEngine
prefixes = record { Regex = Text; new_regex = λ p. some p; is_match = starts_with }

abbrev flow : (host path : Text) → HttpFlow
flow host path = record {
  id = [];
  session_id = [];
  timestamp = 0;
  method = HttpMethod.get;
  host = host;
  ip = [];
  path = path;
  full_url = [];
  request_headers = [];
  request_body = none;
  request_cookies = [];
  request_cookie_values = [];
  response_status = 200;
  response_headers = [];
  response_body = none;
  response_body_len = 0;
  response_cookies = [];
  response_cookie_values = [];
  content_type = [];
  duration_ms = 0;
}

abbrev flows : List HttpFlow
flows =
    flow (text "api") (text "/a?x=1")
    ∷ flow (text "ads") (text "/b")
    ∷ flow (text "api") (text "/a?x=2")
    ∷ []

kept_once :
    filter_for_analysis_with_counts prefixes (text "ads" ∷ []) [] flows
    ≡ some ((flow (text "api") (text "/a?x=1"), 2) ∷ [])
unfolding filter_for_analysis_with_counts text_eq
kept_once = refl
