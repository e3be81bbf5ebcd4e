-- ===== src/Scanner/Mutation.antt =====
-- crates/scanner/src/mutation_engine.rs: requests with payloads in their parameters. The url and
-- serde_json crates are parameters, and so is the source of payloads.
pub mod Path
pub mod Laws
mod Tests
use aiautotest.Common.{
  ℕ, zero, suc, ◌+◌, ◌-◌, ◌*◌, ◌%◌, ◌^◌, max, ◌==◌, leb, Bool, true, false, not, ◌||◌, Option, none,
  some, List, [], ◌∷◌, ◌++◌, Text, text, text_eq, length, filter, any, is_empty_text, starts_with,
  eq_ignore_ascii_case, unwrap_or, if◌then◌else◌,
}
use aiautotest.Domain.Flow.{HttpFlow, as_str}
use aiautotest.Workflow.Json.{Value, null, bool, number, string, array, object}
use aiautotest.Scanner.Request.{HttpRequest}
use aiautotest.Scanner.Payloads.{PayloadTemplate}
use aiautotest.Scanner.Mutation.Path.{set_json_path}

pub data InjectionLocation : Type 0 where
  query body_json body_form header path cookie : InjectionLocation

-- The fields of an analysed parameter that mutations read; `N` is the type of JSON numbers.
pub record AnalyzedParam (N : Type 0) : Type 0 where
  pub name : Text
  pub location : InjectionLocation
  pub sample_value : Option (Value N)

pub record Payload : Type 0 where
  pub value : Text
  pub location : InjectionLocation
  pub param_name : Text
  pub skill_name : Text
  pub description : Text

pub record Mutation (N : Type 0) : Type 0 where
  pub request : HttpRequest
  pub param : AnalyzedParam N
  pub payload : Payload

pub record Outside : Type 1 where
  pub N : Type 0
  pub Url : Type 0
  -- `Url::parse`, and parsing against a base.
  pub url_parse : Text → Option Url
  pub parse_with_base : Url → Text → Option Url
  pub query_pairs : Url → List (Text × Text)
  pub set_query : Text → Url → Url
  pub url_path : Url → Text
  pub set_path : Text → Url → Url
  pub url_to_string : Url → Text
  -- `form_urlencoded::Serializer` over pairs.
  pub serialize_pairs : List (Text × Text) → Text
  -- `serde_json::from_slice` and `to_vec`.
  pub from_slice : Text → Option (Value N)
  pub to_vec : Value N → Option Text
  -- The source of payloads.
  pub payloads_for : Text → List PayloadTemplate

-- `str::replace` for a needle that is not empty: `skip` characters of an occurrence are left out.
unfoldable pub replace_from : (needle value : Text) → (skip : ℕ) → Text → Text
replace_from needle value skip [] = []
replace_from needle value (suc skip) (c ∷ s) = replace_from needle value skip s
replace_from needle value zero (c ∷ s) =
    let found = starts_with needle (c ∷ s) in
    (if found then value else c ∷ [])
    ++ replace_from needle value (if found then length needle - 1 else 0) s

-- The first pair of the name gets the value, or else a pair is pushed.
unfoldable pub set_pair : (name value : Text) → List (Text × Text) → List (Text × Text)
set_pair name value [] = (name, value) ∷ []
set_pair name value ((key, val) ∷ pairs) =
    let rest = set_pair name value pairs in
    if text_eq key name then (key, value) ∷ pairs else (key, val) ∷ rest

abbrev pub has_header : Text → List (Text × Text) → Bool
has_header name headers = any (λ (h : Text × Text). eq_ignore_ascii_case h.0 name) headers

unfoldable pub base_request : HttpFlow → HttpRequest
base_request flow = record {
  method = as_str flow.method;
  url = flow.full_url;
  headers = flow.request_headers;
  body = flow.request_body;
}

unfoldable pub mutate_header : HttpFlow → (name value : Text) → HttpRequest
unfolding base_request
mutate_header flow name value =
    let r = base_request flow in
    record r {
      headers =
          filter (λ (h : Text × Text). not (eq_ignore_ascii_case h.0 name)) r.headers
          ++ (name, value) ∷ [];
    }

-- `MutationEngine::new`: what is kept of the limit.
unfoldable pub new_limit : ℕ → ℕ
new_limit limit_per_param = max limit_per_param 1

module _ (out : Outside) where
  open out use {
    N, Url, url_parse, parse_with_base, query_pairs, set_query, url_path, set_path, url_to_string,
    serialize_pairs, from_slice, to_vec, payloads_for,
  }

  based : Option Url → Text → Option Url
  based none full_url = none
  based (some base) full_url = parse_with_base base full_url

  or_else : Option Url → Option Url → Option Url
  or_else none other = other
  or_else (some url) other = some url

  unfoldable pub parse_url : Text → Option Url
  unfolding based or_else
  parse_url full_url =
      or_else (url_parse full_url) (based (url_parse (text "http://invalid.local")) full_url)

  query_url : (name value : Text) → HttpRequest → Option Url → HttpRequest
  unfolding set_pair
  query_url name value r none = r
  query_url name value r (some url) = record r {
    url = url_to_string (set_query (serialize_pairs (set_pair name value (query_pairs url))) url);
  }

  unfoldable pub mutate_query : HttpFlow → (name value : Text) → HttpRequest
  unfolding base_request parse_url query_url
  mutate_query flow name value = query_url name value (base_request flow) (parse_url flow.full_url)

  json_body : (name value body : Text) → Option (Value N) → Text
  unfolding set_json_path
  json_body name value body none = body
  json_body name value body (some json) =
      unwrap_or (to_vec (set_json_path json name (string value))) body

  unfoldable pub mutate_json_body : HttpFlow → (name value : Text) → HttpRequest
  unfolding base_request json_body
  mutate_json_body flow name value =
      let r = base_request flow in
      record r {
        body = elim (flow.request_body) [
          | none ↦ none
          | some body ↦ some (json_body name value body (from_slice body))
        ];
        headers =
            if has_header (text "content-type") r.headers
            then r.headers
            else r.headers ++ (text "Content-Type", text "application/json") ∷ [];
      }

  path_url : (sample value : Text) → HttpRequest → Option Url → HttpRequest
  unfolding replace_from
  path_url sample value r none = r
  path_url sample value r (some url) = record r {
    url = url_to_string (set_path (replace_from sample value 0 (url_path url)) url);
  }

  unfoldable pub mutate_path :
      HttpFlow → (sample_value : Option (Value N)) → (value : Text) → HttpRequest
  unfolding base_request path_url parse_url
  mutate_path flow (some (string (c ∷ sample))) value =
      path_url (c ∷ sample) value (base_request flow) (parse_url flow.full_url)
  mutate_path flow _ value = base_request flow

  mutated_request : HttpFlow → AnalyzedParam N → InjectionLocation → (value : Text) → HttpRequest
  unfolding mutate_query mutate_json_body mutate_header mutate_path
  mutated_request flow param query value = mutate_query flow param.name value
  mutated_request flow param body_json value = mutate_json_body flow param.name value
  mutated_request flow param header value = mutate_header flow param.name value
  mutated_request flow param path value = mutate_path flow param.sample_value value
  mutated_request flow param body_form value = mutate_header flow param.name value
  mutated_request flow param cookie value = mutate_header flow param.name value

  unfoldable pub mutate : HttpFlow → AnalyzedParam N → (skill : Text) → PayloadTemplate → Mutation N
  unfolding mutated_request
  mutate flow param skill template = record {
    request = mutated_request flow param param.location template.value;
    param = param;
    payload = record {
      value = template.value;
      location = param.location;
      param_name = param.name;
      skill_name = skill;
      description = template.description;
    };
  }

  -- The innermost loop, with what was pushed so far; `true` is the early return.
  unfoldable pub push_templates :
      (cap : ℕ)
      → HttpFlow
      → AnalyzedParam N
      → (skill : Text) → List PayloadTemplate
      → List (Mutation N)
      → Bool × List (Mutation N)
  unfolding mutate
  push_templates cap flow param skill [] pushed = (false, pushed)
  push_templates cap flow param skill (t ∷ ts) pushed =
      let rest =
        push_templates cap flow param skill ts (pushed ++ mutate flow param skill t ∷ []) in
      if leb cap (length pushed) then (true, pushed) else rest

  -- A loop goes on unless the loop inside it returned.
  abbrev pub unless_returned :
      Bool × List (Mutation N)
      → (List (Mutation N) → Bool × List (Mutation N))
      → Bool × List (Mutation N)
  unless_returned (true, pushed) next = (true, pushed)
  unless_returned (false, pushed) next = next pushed

  unfoldable pub push_skills :
      (cap : ℕ)
      → HttpFlow
      → AnalyzedParam N
      → List Text
      → List (Mutation N)
      → Bool × List (Mutation N)
  unfolding push_templates
  push_skills cap flow param [] pushed = (false, pushed)
  push_skills cap flow param (skill ∷ skills) pushed =
      unless_returned (push_templates cap flow param skill (payloads_for skill) pushed)
        (push_skills cap flow param skills)

  unfoldable pub push_params :
      (cap : ℕ)
      → HttpFlow
      → List (AnalyzedParam N)
      → List Text
      → List (Mutation N)
      → Bool × List (Mutation N)
  unfolding push_skills
  push_params cap flow [] skills pushed = (false, pushed)
  push_params cap flow (param ∷ params) skills pushed =
      unless_returned (push_skills cap flow param skills pushed)
        (push_params cap flow params skills)

  -- The product is one of `usize`.
  unfoldable pub mutations_for :
      (limit_per_param : ℕ)
      → HttpFlow
      → List (AnalyzedParam N)
      → (skills : List Text) → List (Mutation N)
  unfolding push_params
  mutations_for limit_per_param flow params skills =
      (push_params ((limit_per_param * length params) % 2 ^ 64) flow params skills []).1
