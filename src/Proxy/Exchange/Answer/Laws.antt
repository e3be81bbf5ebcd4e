-- ===== src/Proxy/Exchange/Answer/Laws.antt =====
-- What the client gets for a response of the upstream, and what is captured of it.
use aiautotest.Common.{
  ℕ, ◌*◌, ◌≤◌, max, if◌then◌else◌, is_some, usize_max, ◌≡◌, refl, true, none, [], length, take, All,
  Text,
}
use aiautotest.Proxy.Intercept.{forwarded, should_intercept_response}
use aiautotest.Proxy.Relay
use aiautotest.Proxy.Relay.Collect.{joined, is_whole, collect_body-joined}
use aiautotest.Proxy.Rules.{Crates, apply_to_response_headers}
use aiautotest.Proxy.Exchange.{Wire, Server, Draft}
use aiautotest.Proxy.Exchange.Laws.{IsEndToEnd}
use aiautotest.Proxy.Exchange.Answer.{
  FlowCaptureCtx, Setting, Response, Answer, failed, dropped_answer, whole, relayed,
  without_framing, edited_response, answer_whole, answer_held, held_cap, answer,
}

module _ {crates : Crates} (wire : Wire crates) where
  -- A capture of this answer: it has the status and the body that the client gets, and no more of the
  -- request than the cap.
  abbrev pub IsOf :
      (setting : Setting crates wire) (status : ℕ) (body : Text)
      → FlowCaptureCtx crates wire × Text
      → Type 0
  IsOf setting status body s =
      (s.1 ≡ body) × (s.0.status ≡ status) × (length s.0.request_body ≤ setting.max_body_bytes)

  abbrev pub IsConsistent : Setting crates wire → Answer crates wire → Type 0
  IsConsistent setting (failed e) = Unit
  IsConsistent setting dropped_answer = Unit
  IsConsistent setting (whole status headers body spawned) =
      IsEndToEnd wire headers
      × (length spawned ≡ (if setting.capture then 1 else 0))
      × All (IsOf setting status body) spawned
  IsConsistent setting (relayed status headers body) =
      IsEndToEnd wire headers
      × (is_some body.ctx ≡ setting.capture)
      × (body.spawned ≡ [])
      × (body.max_capture ≡ setting.max_body_bytes)

  -- Where responses are intercepted, a response that the user forwards without an edit, whose body
  -- arrives without an error and is no longer than `usize` can count, is answered with its status, and
  -- with its body cut to the larger of the cap on captures and 64 KiB, however long the upstream's body is.
  pub answer-joined :
      (setting : Setting crates wire) (server : Server crates wire) (d : Draft crates wire)
      (r : Response crates wire)
      → should_intercept_response server.intercept ≡ true
      → is_whole r.items ≡ true
      → length (joined r.items) ≤ usize_max
      → answer crates wire setting server d (forwarded none) r
        ≡ answer_whole crates wire setting d (
            without_framing crates wire (record {
              status = r.status;
              headers = apply_to_response_headers crates server.rules r.headers d.path;
              body = take (max setting.max_body_bytes (64 * 1024)) (joined r.items);
            }))
  unfolding answer answer_held edited_response held_cap
  answer-joined setting server d r on whole_ fits =
      rw (on, collect_body-joined (max setting.max_body_bytes (64 * 1024)) r.items whole_ fits) refl
