-- ===== src/Query/Tests.antt =====
-- Queries over one flow.
use aiautotest.Common.{
  true, false, none, some, [], Text, text, contains_text, text_eq, ◌≡◌, refl, is_some,
}
use aiautotest.Domain.Scope.{RegexEngine}
use aiautotest.Domain.Flow.{HttpFlow, HttpMethod}
use aiautotest.Query.Condition.{
  Condition, nil, cons, and_, or_, ge, equals, FieldName, text_value, number, pos, matches,
}
use aiautotest.Query.Field.{ok, err, build_condition, is_wildcard, unbalanced}
use aiautotest.Query.Field.Laws.{status_wildcard-never}
use aiautotest.Query.Parser.{parse, split_top_level}
use aiautotest.Query.Parser.Split.{join, join-split_top_level}
use aiautotest.Query.Parser.Fuel.{parse-ends}

-- Patterns without meta characters.
abbrev literal : RegexEngine
literal = record { Regex = Text; new_regex = λ p. some p; is_match = λ re s. contains_text re s }

abbrev flow : HttpFlow
flow = record {
  id = [];
  session_id = [];
  timestamp = 0;
  method = HttpMethod.get;
  host = text "h";
  ip = [];
  path = text "/api/x";
  full_url = [];
  request_headers = [];
  request_body = none;
  request_cookies = [];
  request_cookie_values = [];
  response_status = 404;
  response_headers = [];
  response_body = none;
  response_body_len = 0;
  response_cookies = [];
  response_cookie_values = [];
  content_type = [];
  duration_ms = 0;
}

abbrev is_get : Condition Text
is_get = equals FieldName.method (text_value (text "GET"))

abbrev failed : Condition Text
failed = ge FieldName.response_status (number (pos 400))

get_line : parse literal (text "method:GET") ≡ some (ok (and_ (cons is_get nil)))
unfolding parse
get_line = refl

failed_line : parse literal (text "# errors") ≡ some (ok (and_ nil))
unfolding parse
failed_line = refl

grouped :
    parse literal (text "(method:GET | host:b) & resp.status:>=400")
    ≡ some (
        ok (
          and_ (
            cons
              (and_ (
                cons
                  (or_ (cons is_get (cons (equals FieldName.host (text_value (text "b"))) nil)))
                  (cons failed nil)))
              nil)))
unfolding parse
grouped = refl

not_closed : parse literal (text "(method:GET") ≡ some (err (unbalanced (text "(method:GET")))
unfolding parse
not_closed = refl

grouped-matches : matches literal (and_ (cons is_get (cons failed nil))) flow ≡ true
unfolding matches text_eq
grouped-matches = refl

join-split_top_level_example :
    let (part, parts) = split_top_level (text "(a|b)|c") b'|' in
    join b'|' part parts ≡ text "(a|b)|c"
join-split_top_level_example = join-split_top_level (text "(a|b)|c") b'|'

parse-ends_example : is_some (parse literal (text "((a:b")) ≡ true
parse-ends_example = parse-ends literal (text "((a:b")

status_wildcard-never_example :
    matches literal (build_condition literal FieldName.response_status (text "4*")) flow ≡ false
unfolding is_wildcard
status_wildcard-never_example = status_wildcard-never literal (text "4*") flow refl
