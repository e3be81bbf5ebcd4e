-- ===== src/Auth.antt =====
-- crates/auth/src: the manager that runs a login flow and keeps its tokens. Its calls come one after
-- the other. The HTTP client and serde_json are parameters; `W` is the client's world.
pub mod Laws
mod Tests
use aiautotest.Common.{
  ℕ, suc, ◌==◌, Bool, true, false, ◌||◌, Option, none, some, List, [], ◌∷◌, ◌++◌, Text, text, any,
  contains_text, to_ascii_lowercase, lookup, insert, if◌then◌else◌,
}
use aiautotest.Workflow.Json.{
  Value, Fields, null, bool, number, string, array, object, end, field, get_key,
}
use aiautotest.Workflow.Graph.{trim_end_char}
use aiautotest.Scanner.Request.{HttpRequest}

pub record HttpResponse : Type 0 where
  pub status : ℕ
  pub headers : List (Text × Text)
  pub body : Text

pub data Result (E A : Type 0) : Type 0 where
  ok : A → Result E A
  err : E → Result E A

pub record Outside : Type 1 where
  pub N : Type 0
  pub W : Type 0
  pub PortError : Type 0
  pub send : HttpRequest → W → Result PortError HttpResponse × W
  -- `serde_json::to_vec`, whose error is its text, and `from_slice`.
  pub to_vec : Value N → Result Text Text
  pub from_slice : Text → Option (Value N)

pub record LoginStep (N : Type 0) : Type 0 where
  pub method : Text
  pub path : Text
  pub body : Value N
  pub headers : List (Text × Text)
  pub extract_token : Option Text

pub record LoginFlow (N : Type 0) : Type 0 where
  pub base_url : Text
  pub steps : List (LoginStep N)

pub data AuthError (PortError : Type 0) : Type 0 where
  no_login_flow : AuthError PortError
  step_failed : (index : ℕ) (message : Text) → AuthError PortError
  transport : PortError → AuthError PortError

abbrev pub Tokens : Type 0
Tokens = List (Text × Text)

pub record AuthManager (N : Type 0) : Type 0 where
  pub login_flow : Option (LoginFlow N)
  pub current_tokens : Tokens

abbrev pub is_empty {ℓ} : {A : Type ℓ} → List A → Bool
is_empty [] = true
is_empty (x ∷ xs) = false

abbrev expired_patterns : List Text
expired_patterns =
    text "token expired" ∷ text "unauthorized" ∷ text "login required" ∷ text "invalid token" ∷ []

unfoldable pub is_session_expired : (status : ℕ) → (body : Text) → Bool
unfolding to_ascii_lowercase contains_text
is_session_expired status body =
    status == 401
    || (status == 403 || any (λ p. contains_text p (to_ascii_lowercase body)) expired_patterns)

module _ {N : Type 0} where
  unfoldable pub new : AuthManager N
  new = record { login_flow = none; current_tokens = [] }

  unfoldable pub set_login_flow : LoginFlow N → AuthManager N → AuthManager N
  set_login_flow flow m = record { login_flow = some flow; current_tokens = [] }

  unfoldable pub has_login_flow : AuthManager N → Bool
  has_login_flow m = elim (m.login_flow) [ some flow ↦ true | none ↦ false ]

  unfoldable pub get_token : Text → AuthManager N → Option Text
  unfolding lookup
  get_token name m = lookup name m.current_tokens

  -- A null and an empty object stand for no body.
  unfoldable pub is_empty_body : Value N → Bool
  is_empty_body null = true
  is_empty_body (object end) = true
  is_empty_body _ = false

module _ (out : Outside) where
  open out use {N, W, PortError, send, to_vec, from_slice}

  sent_body : ℕ → Result Text Text → Result (AuthError PortError) (Option Text)
  sent_body index (ok body) = ok (some body)
  sent_body index (err message) = err (step_failed index message)

  unfoldable pub step_body : ℕ → LoginStep N → Result (AuthError PortError) (Option Text)
  unfolding is_empty_body sent_body
  step_body index step =
      if is_empty_body step.body then ok none else sent_body index (to_vec step.body)

  token_text : Option (Value N) → Option Text
  token_text (some (string s)) = some s
  token_text _ = none

  -- The value at the key, if it is a text.
  token_in : Text → Option (Value N) → Option Text
  unfolding get_key token_text
  token_in key none = none
  token_in key (some json) = token_text (get_key key json)

  insert_token : Text → Option Text → Tokens → Tokens
  unfolding insert
  insert_token key none tokens = tokens
  insert_token key (some value) tokens = insert key value tokens

  unfoldable pub extracted : Option Text → HttpResponse → Tokens → Tokens
  unfolding token_in insert_token
  extracted none response tokens = tokens
  extracted (some key) response tokens =
      insert_token key (token_in key (from_slice response.body)) tokens

  -- What follows an answer; the steps after it are `next`.
  abbrev pub after_send :
      LoginStep N
      → Tokens
      → Result PortError HttpResponse × W
      → (Tokens → W → Result (AuthError PortError) Tokens × W)
      → Result (AuthError PortError) Tokens × W
  after_send step tokens (err e, w) next = (err (transport e), w)
  after_send step tokens (ok response, w) next =
      next (extracted step.extract_token response tokens) w

  abbrev pub with_body :
      Result (AuthError PortError) (Option Text)
      → W
      → (Option Text → Result (AuthError PortError) Tokens × W)
      → Result (AuthError PortError) Tokens × W
  with_body (err e) w next = (err e, w)
  with_body (ok body) w next = next body

  unfoldable pub step_request : (base_url : Text) → LoginStep N → (body : Option Text) → HttpRequest
  unfolding trim_end_char
  step_request base_url step body = record {
    method = step.method;
    url = trim_end_char b'/' base_url ++ step.path;
    headers = step.headers;
    body = body;
  }

  -- The loop over the steps, from an index on.
  unfoldable pub login_steps :
      (base_url : Text)
      → (index : ℕ) → List (LoginStep N)
      → Tokens
      → W
      → Result (AuthError PortError) Tokens × W
  unfolding step_body extracted step_request
  login_steps base_url index [] tokens w = (ok tokens, w)
  login_steps base_url index (step ∷ steps) tokens w = with_body (step_body index step) w (λ body.
      after_send step tokens (send (step_request base_url step body) w)
        (login_steps base_url (suc index) steps))

  abbrev pub Called : Type 0
  Called = Result (AuthError PortError) Tokens × (AuthManager N × W)

  -- Only a flow that went through is stored.
  abbrev pub stored : AuthManager N → Result (AuthError PortError) Tokens × W → Called
  stored m (err e, w) = (err e, (m, w))
  stored m (ok tokens, w) = (ok tokens, (record m { current_tokens = tokens }, w))

  refresh_flow : AuthManager N → Option (LoginFlow N) → W → Called
  unfolding login_steps
  refresh_flow m none w = (err no_login_flow, (m, w))
  refresh_flow m (some flow) w = stored m (login_steps flow.base_url 0 flow.steps [] w)

  unfoldable pub refresh_auth : AuthManager N → W → Called
  unfolding refresh_flow
  refresh_auth m w = refresh_flow m m.login_flow w

  unfoldable pub ensure_auth : AuthManager N → W → Called
  unfolding refresh_auth
  ensure_auth m w =
      if is_empty m.current_tokens then refresh_auth m w else (ok m.current_tokens, (m, w))
