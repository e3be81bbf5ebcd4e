-- ===== src/Proxy/Tests.antt =====
-- An item that is held, listed and decided.
use aiautotest.Common.{
  ◌<◌, is_some, ◌≡◌, refl, true, false, none, some, List, [], ◌∷◌, arith, Text, text, text_eq,
  text_le, lookup, map_insert,
}
use aiautotest.Proxy.Connect.{parse_connect_target}
use aiautotest.Proxy.Http.{Header, parse_u16}
use aiautotest.Proxy.Flow.Headers.{headers_to_map}
use aiautotest.Proxy.Intercept.{
  InterceptController, register, show, InterceptEntry, init, get, forward, clear_all, enqueue,
}
use aiautotest.Proxy.Intercept.Laws.{
  Operation, step, enqueues, run, IsValid, is_answered, run-held, init-IsValid, clear_all-answers,
}

abbrev item : Text → InterceptEntry
item id = record {
  id = id;
  kind = text "request";
  method = text "GET";
  url = text "http://h/";
  status = none;
  reason = none;
  headers = [];
  body = text "x";
  body_len = 1;
  timestamp = 0;
}

-- The second item has the id of the first.
abbrev held : List Operation
held = enqueues (item (text "a")) ∷ enqueues (item (text "a")) ∷ enqueues (item (text "b")) ∷ []

run-held_example : IsValid (run held init)
run-held_example = run-held held init init-IsValid

three_channels : 0 < (run held init).channels
unfolding run step enqueue register show
three_channels = omega arith

clear_all-answers_example : is_answered 0 (clear_all (run held init)).answers ≡ true
clear_all-answers_example = clear_all-answers held 0 three_channels

-- When `clear_all` comes between the two locks of `enqueue`, the item stays on the list although no
-- task is held, and `forward` cannot take it off.
abbrev raced : InterceptController
raced = show (item (text "a")) (clear_all (register (item (text "a")) init))

raced-listed : is_some (get (text "a") raced) ≡ true
unfolding get show text_eq clear_all
raced-listed = refl

raced-forward : (forward (text "a") none raced).1 ≡ false
unfolding forward clear_all show
raced-forward = refl

port_8443 : parse_u16 (text "8443") ≡ some 8443
unfolding parse_u16
port_8443 = refl

connect_defaults_to_443 :
    parse_connect_target (text "api.example.com") ≡ (text "api.example.com", 443)
unfolding parse_connect_target
connect_defaults_to_443 = refl

abbrev set_cookies : List Header
set_cookies =
    record { name = text "set-cookie"; value = text "a=1" }
    ∷ record { name = text "x-trace"; value = text "t" }
    ∷ record { name = text "set-cookie"; value = text "b=2" }
    ∷ []

duplicate_header_values_are_joined :
    lookup (text "set-cookie") (headers_to_map set_cookies) ≡ some (text "a=1, b=2")
unfolding headers_to_map lookup text_eq map_insert text_le
duplicate_header_values_are_joined = refl
