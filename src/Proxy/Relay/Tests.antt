-- ===== src/Proxy/Relay/Tests.antt =====
-- Runs of the relay and its theorems at concrete inputs.
use aiautotest.Common.{
  ℕ, ◌≤◌, leb, ◌≡◌, refl, true, none, some, List, [], ◌∷◌, ◌++◌, arith, length, take, All, Text,
  text,
}
use aiautotest.Auth.{ok}
use aiautotest.Proxy.Relay.{new, run, Poll, frame, failed, finished, pending}
use aiautotest.Proxy.Relay.Laws.{frames, joined, run-captures, run-failed}
use aiautotest.Proxy.Relay.Bounds.{run-bounds}
use aiautotest.Proxy.Relay.Errors.{
  should_report, should_report-repeat, report_all, max_tunnel_error_keys,
}
use aiautotest.Proxy.Relay.Collect.{Item, bytes, trailers, collect_body, collect_body-joined}

-- The context of the flow.
abbrev ctx : ℕ
ctx = 7

abbrev hello_world : List Text
hello_world = text "hello" ∷ [] ∷ text " world" ∷ []

run-captures_example :
    (run (frames hello_world ++ finished ∷ []) (new 8 (some 11) (some ctx))).0.spawned
    ≡ (ctx, take 8 (joined hello_world)) ∷ []
run-captures_example = run-captures hello_world 8 (some 11) ctx refl

abbrev any_polls : List Poll
any_polls = pending ∷ frame (some (text "hello")) ∷ finished ∷ failed ∷ finished ∷ []

run-bounds_example :
    (length (run any_polls (new 3 none (some ctx))).0.spawned ≤ 1)
    × All (λ s. length s.1 ≤ 3) (run any_polls (new 3 none (some ctx))).0.spawned
run-bounds_example = run-bounds any_polls 3 none ctx

failed_body : (run (frames hello_world ++ failed ∷ []) (new 100 none (some ctx))).0.spawned ≡ []
failed_body = run-failed hello_world 100 ctx (omega arith)

-- A body that declares no bytes and sends no frame is not captured before its end is polled.
empty_body : (run (pending ∷ []) (new 100 (some 0) (some ctx))).0.spawned ≡ []
unfolding run new
empty_body = refl

first_report : (should_report 1000 (text "refused") []).1 ≡ true
unfolding should_report
first_report = refl

-- Another message comes in between.
should_report-repeat_example :
    (should_report 2000
      (text "refused")
      (report_all ((1500, text "reset") ∷ []) (should_report 1000 (text "refused") []).0)).1
    ≡ leb max_tunnel_error_keys
        (length (report_all ((1500, text "reset") ∷ []) (should_report 1000 (text "refused") []).0))
unfolding should_report
should_report-repeat_example =
    should_report-repeat 1000 2000 (text "refused") [] ((1500, text "reset") ∷ []) first_report
      (omega arith, omega arith, tt) (omega arith)

abbrev upload : List (Item Text)
upload = bytes (text "hello") ∷ trailers ∷ bytes (text " world") ∷ []

collected_upload : collect_body 8 upload ≡ ok (text "hello wo", true)
collected_upload = collect_body-joined 8 upload refl (omega arith)
