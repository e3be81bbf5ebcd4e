-- ===== src/Auth/Tests.antt =====
-- A manager with a login of two steps, over a client that counts its requests.
use aiautotest.Common.{
  ℕ, ◌+◌, ◌==◌, true, false, some, [], ◌∷◌, Text, text, ◌≡◌, refl, text_eq, insert, if◌then◌else◌,
}
use aiautotest.Workflow.Json.{object, string, end, field, get_key}
use aiautotest.Auth.{
  Outside, ok, err, LoginStep, AuthManager, ensure_auth, is_session_expired, transport,
}

-- The client refuses the request after `limit` others; every body is {"token": "t"}.
abbrev outside : ℕ → Outside
outside limit = record {
  N = ℕ;
  W = ℕ;
  PortError = Text;
  send = λ r n. (
    if n == limit
        then err (text "refused")
        else ok (record { status = 200; headers = []; body = text "{}" }),
    n + 1,
  );
  to_vec = λ v. ok (text "x");
  from_slice = λ s. some (object (field (text "token") (string (text "t")) end));
}

abbrev step : Text → LoginStep ℕ
step path = record {
  method = text "POST";
  path = path;
  body = string (text "b");
  headers = [];
  extract_token = some (text "token");
}

abbrev manager : AuthManager ℕ
manager = record {
  login_flow =
      some
        (record { base_url = text "http://h/"; steps = step (text "/a") ∷ step (text "/b") ∷ [] });
  current_tokens = [];
}

ensure_tests :
    ((ensure_auth (outside 9) manager 0).0 ≡ ok ((text "token", text "t") ∷ []))
    × ((ensure_auth (outside 9) manager 0).1.1 ≡ 2)
    × ((ensure_auth (outside 1) manager 0).0 ≡ err (transport (text "refused")))
unfolding ensure_auth insert text_eq get_key
ensure_tests = (refl, refl, refl)

expired_tests :
    (is_session_expired 200 (text "Login Required") ≡ true)
    × (is_session_expired 200 (text "ok") ≡ false)
unfolding is_session_expired
expired_tests = (refl, refl)
