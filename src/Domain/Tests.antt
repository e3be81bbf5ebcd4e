-- ===== src/Domain/Tests.antt =====
-- Runs of the domain crate's code, and its theorems at concrete inputs.
use aiautotest.Common.{◌≡◌, refl, true, false, none, some, [], ◌∷◌, ◌++◌, Text, text, starts_with}
use aiautotest.Domain.Flow.{HttpFlow, HttpMethod, size_bytes, fingerprint}
use aiautotest.Domain.Scope.{
  RegexEngine, ScopeFilter, ScopeConfig, should_capture, host_matches, path_matches, strip_query,
}
use aiautotest.Domain.Scope.Laws.{should_capture-query}

-- An engine whose patterns are prefixes; the empty pattern does not compile.
abbrev prefixes : RegexEngine
prefixes = record {
  Regex = Text;
  new_regex = λ p. elim p [ [] ↦ none | c ∷ q ↦ some (c ∷ q) ];
  is_match = starts_with;
}

abbrev login : HttpFlow
login = record {
  id = text "1";
  session_id = text "s";
  timestamp = 0;
  method = HttpMethod.post;
  host = text "api";
  ip = [];
  path = text "/login";
  full_url = text "/login";
  request_headers = (text "accept", text "*") ∷ [];
  request_body = some (text "a=b");
  request_cookies = [];
  request_cookie_values = [];
  response_status = 200;
  response_headers = [];
  response_body = none;
  response_body_len = 0;
  response_cookies = [];
  response_cookie_values = [];
  content_type = [];
  duration_ms = 5;
}

login_size : size_bytes login ≡ 282
unfolding size_bytes
login_size = refl

login_print : fingerprint (λ t. t) login ≡ text "HttpMethod.POST:/login:a=b"
unfolding fingerprint
login_print = refl

abbrev scope : ScopeFilter prefixes
scope = record {
  include_hosts = text "api" ∷ [];
  exclude_hosts = text "ads" ∷ [];
  include_paths = [];
  exclude_paths = text "/static" ∷ [];
}

scope_tests :
    (should_capture prefixes scope (text "api") (text "/v1?x=/static") ≡ true)
    × (should_capture prefixes scope (text "ads") (text "/v1") ≡ false)
    × (should_capture prefixes scope (text "api") (text "/static/a?b") ≡ false)
    × (should_capture prefixes scope (text "other") (text "/v1") ≡ false)
unfolding should_capture host_matches path_matches strip_query
scope_tests = (refl, refl, refl, refl)

query-ignored :
    should_capture prefixes scope (text "api") (text "/v1" ++ b'?' ∷ text "q=/static")
    ≡ should_capture prefixes scope (text "api") (text "/v1")
query-ignored = should_capture-query prefixes scope (text "api") (text "/v1") (text "q=/static")

abbrev config : ScopeConfig
config = record {
  include_hosts = text "api" ∷ [];
  exclude_hosts = [];
  include_paths = [];
  exclude_paths = [] ∷ [];
}
