-- ===== src/Security/Executor/Tests.antt =====
-- Runs of a plan, and the theorems at concrete inputs.
use aiautotest.Common.{
  ℕ, zero, suc, ◌+◌, ◌≤◌, ◌==◌, if◌then◌else◌, ◌≡◌, refl, ◌⊎◌, true, false, Option, none, some,
  List, [], ◌∷◌, map, arith, length, drop, All, Text, text, text_eq, starts_with, contains_text,
}
use aiautotest.Domain.Scope.{host_matches, path_matches, RegexEngine}
use aiautotest.Scanner.Budget
use aiautotest.Scanner.Executor as Scanner
use aiautotest.Scanner.Executor.{answered, elapsed}
use aiautotest.Security.{SecurityTest}
use aiautotest.Security.Mutate.{Crates, mutate_target}
use aiautotest.Security.Judge.{snippet}
use aiautotest.Security.Executor.{
  Scan, received, Reply, replied, timed_out, Answers, Run, Outcome, stopped, panicked, completed,
  SecurityExecutor, execute, reports, Sent,
}
use aiautotest.Security.Executor.Laws.{IsAllowed, log, missing, execute-sends}
use aiautotest.Security.Executor.Counts.{execute-completes}
use aiautotest.Security.Executor.Reports.{reports-rate_limit}

abbrev sample_crates : Crates
sample_crates = record {
  N = ℕ;
  byte_serialize = λ s. s;
  from_str = λ s. none;
  to_string = λ v. [];
  to_uppercase = λ s. s;
}

-- URLs of one site have their host and path; an engine whose patterns are prefixes.
abbrev parse_site : Text → Option (Text × Text)
parse_site url =
    if starts_with (text "https://site/") url then some (text "site", drop 12 url) else none

abbrev prefixes : RegexEngine
prefixes = record { Regex = Text; new_regex = λ p. some p; is_match = starts_with }

abbrev leaks : Text → Scan
leaks body = record {
  is_suspicious = starts_with (text "key") body;
  signals = [];
  exposed_values = none;
}

abbrev executor : SecurityExecutor sample_crates (λ s. s) parse_site prefixes leaks
executor = record {
  config = record {
    max_requests = 3;
    duration_budget = some 10;
    retry_limit = 1;
    scope = record {
      include_hosts = text "site" ∷ [];
      exclude_hosts = [];
      include_paths = [];
      exclude_paths = [];
    };
    auth_cookies = (text "sid", text "1") ∷ [];
    auth_headers = [];
  };
  filter = record {
    include_hosts = text "site" ∷ [];
    exclude_hosts = [];
    include_paths = [];
    exclude_paths = [];
  };
  has_gate = true;
  budget = Budget.new 3 (some 10) 0;
}

abbrev test : (flaw method path : Text) → SecurityTest
test flaw method path = record {
  id = flaw;
  flaw = flaw;
  target = record { method = method; path = path };
  severity = text "High";
  payload_hint = [];
  payload = some (text "1");
  location = some (text "query:q");
  oracle = record { expect_status = some 403; expect_contains = none };
  requires_confirmation = true;
}

-- The first try of each request takes too long.
abbrev answers : Reply → Answers
answers reply = record {
  is_cancelled = false;
  reply = reply;
  now = 1000;
  client = λ n. if n == 0 then elapsed else answered (200, text "ok");
}

-- A test that is approved, one that is not answered in time, and one that asks for nothing.
abbrev tests : List (SecurityTest × Answers)
tests =
    (test (text "idor") (text "POST") (text "/a"), answers (replied true))
    ∷ (test (text "xss") (text "POST") (text "/b"), answers timed_out)
    ∷ (test (text "sqli") (text "GET") (text "/c"), answers timed_out)
    ∷ []

abbrev site : Text
site = text "https://site"

abbrev sample_outcome : Outcome
sample_outcome = execute sample_crates (λ s. s) parse_site prefixes leaks executor site tests

-- Two requests have a slot and a result each; the client was asked four times to send, which is more
-- than the three requests of the cap.
two_requests :
    ((log sample_outcome).requests_sent ≡ 2)
    × ((log sample_outcome).skipped ≡ 1)
    × (map Sent.tries (log sample_outcome).sent ≡ 2 ∷ 2 ∷ [])
    × ((log sample_outcome).budget.remaining ≡ 1)
unfolding execute host_matches path_matches Budget.new Scanner.execute
two_requests = (refl, refl, refl, refl)

execute-sends_example :
    All
      (IsAllowed sample_crates (λ s. s) parse_site prefixes leaks executor)
      (log sample_outcome).sent
    × ((log sample_outcome).requests_sent ≡ length (log sample_outcome).sent)
    × ((log sample_outcome).requests_sent + (log sample_outcome).budget.remaining
        ≡ executor.budget.remaining)
    × (length (log sample_outcome).findings ≤ (log sample_outcome).requests_sent)
    × ((log sample_outcome).requests_sent
        ≤ length (log sample_outcome).findings + missing sample_outcome)
execute-sends_example =
    execute-sends sample_crates (λ s. s) parse_site prefixes leaks executor site tests

execute-completes_example :
    ((s : Run) × (execute sample_crates (λ s. s) parse_site prefixes leaks executor site tests
        ≡ panicked s))
    ⊎ ((s : Run) × (execute sample_crates (λ s. s) parse_site prefixes leaks executor site tests
          ≡ stopped completed s)
        × (s.requests_sent + s.skipped ≡ length tests))
unfolding Budget.new
execute-completes_example =
    execute-completes sample_crates (λ s. s) parse_site prefixes leaks executor site tests
      (refl, (refl, (refl, tt))) (omega arith)

-- A leaked key in the response to a rate-limit test is not reported.
leak_not_reported :
    reports sample_crates
      (λ s. s)
      parse_site
      prefixes
      leaks
      (test (text "rate_limit") (text "GET") (text "/a"))
      (received 200 (text "key"))
    ≡ false
unfolding contains_text
leak_not_reported =
    reports-rate_limit sample_crates (λ s. s) parse_site prefixes leaks
      (test (text "rate_limit") (text "GET") (text "/a")) (received 200 (text "key")) refl refl

abbrev root_test : SecurityTest
root_test = record (test (text "idor") (text "GET") (text "/")) { location = some (text "path") }

root_panics : mutate_target sample_crates root_test (text "https://site") ≡ none
unfolding mutate_target text_eq
root_panics = refl

-- A body of 199 bytes and a character of two bytes is cut inside of the character.
abbrev long_body : ℕ → Text
long_body zero = 195 ∷ 169 ∷ []
long_body (suc n) = b'a' ∷ long_body n

cut_character : snippet (long_body 199) ≡ none
unfolding snippet
cut_character = refl
