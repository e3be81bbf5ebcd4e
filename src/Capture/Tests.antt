-- ===== src/Capture/Tests.antt =====
-- Runs of the capture crate's code, most of them tests of the source, and its theorems at concrete
-- inputs. A flow here is a GET of one path, and the digest is the identity.
use aiautotest.Common.{
  ℕ, zero, suc, ◌≡◌, refl, inl, inr, true, false, none, List, [], ◌∷◌, ◌++◌, map, arith, All, Text,
  text, contains,
}
use aiautotest.Capture.Writer.Bounds.{IsSized, run-IsSized}
use aiautotest.Domain.Flow.{HttpFlow, HttpMethod, size_bytes, fingerprint}
use aiautotest.Capture.Ring
use aiautotest.Capture.Ring.{RingBuffer}
use aiautotest.Capture.Buffer.{
  FlowBuffer, OverflowPolicy, PushOutcome, Attempt, attempt, enqueue, admit, BufferConfig,
}
use aiautotest.Capture.Buffer.Steps.{
  Operation, enqueues, receives, closes, run, arrivals, departures, flow_of,
}
use aiautotest.Capture.Buffer.Bytes.{total_bytes}
use aiautotest.Capture.Buffer.Invariant.{IsValid, run-IsValid}
use aiautotest.Capture.Buffer.Order.{run-order}
use aiautotest.Capture.Buffer.Dedup.{retry_is_duplicate, oversized_waits}
use aiautotest.Capture.Writer.{SaveOutcome, Call, Ports, Settings}
use aiautotest.Capture.Writer
use aiautotest.Capture.Writer.Laws.{Saves, run-Saves}

ring_test :
    Ring.snapshot (Ring.push_all {T = ℕ} (1 ∷ 2 ∷ 3 ∷ 4 ∷ []) (record { items = []; capacity = 3 }))
    ≡ 2 ∷ 3 ∷ 4 ∷ []
unfolding Ring.snapshot Ring.push_all Ring.push
ring_test = refl

abbrev md5_hex : Text → Text
md5_hex t = t

abbrev get : Text → HttpFlow
get path = record {
  id = [];
  session_id = [];
  timestamp = 0;
  method = HttpMethod.get;
  host = [];
  ip = [];
  path = path;
  full_url = path;
  request_headers = [];
  request_body = none;
  request_cookies = [];
  request_cookie_values = [];
  response_status = 0;
  response_headers = [];
  response_body = none;
  response_body_len = 0;
  response_cookies = [];
  response_cookie_values = [];
  content_type = [];
  duration_ms = 0;
}

-- The capture buffer of the configuration: it blocks, and it deduplicates.
abbrev small : BufferConfig
small = record { max_size = 1; dedup_enabled = true; max_bytes = 1000; dedup_limit = 10 }

abbrev full : FlowBuffer
full = record {
  queue = get (text "/1") ∷ [];
  capacity = 1;
  queued_bytes = 260;
  max_bytes = 1000;
  dedup = [];
  dedup_enabled = true;
  dedup_limit = 10;
  policy = OverflowPolicy.block;
  closed = false;
  accepted = 1;
  duplicates = 0;
  dropped = 0;
}

full-IsValid : IsValid full
unfolding total_bytes size_bytes
full-IsValid = record {
  cap_in_range = omega arith;
  bytes = refl;
  bounded = inl (omega arith);
  capped = inr (inl (omega arith));
  remembered = λ h. omega arith;
}

abbrev evicting : FlowBuffer
evicting = record full { policy = OverflowPolicy.drop_oldest }

evicting-IsValid : IsValid evicting
evicting-IsValid = record {
  cap_in_range = full-IsValid.cap_in_range;
  bytes = full-IsValid.bytes;
  bounded = inl (omega arith);
  capped = inr (inl (unfold total_bytes size_bytes in omega arith));
  remembered = λ h. omega arith;
}

outcomes :
    ((attempt md5_hex (get (text "/2")) full).1 ≡ Attempt.wait)
    × ((attempt md5_hex (get (text "/2")) evicting).1 ≡ Attempt.done PushOutcome.accepted)
    × ((attempt md5_hex (get (text "/2")) evicting).0.queue ≡ get (text "/2") ∷ [])
unfolding attempt admit fingerprint enqueue contains size_bytes
outcomes = (refl, refl, refl)

abbrev traffic : List Operation
traffic = enqueues (get (text "/2")) ∷ receives ∷ enqueues (get (text "/3")) ∷ closes ∷ []

run-IsValid_example : IsValid (run md5_hex traffic evicting)
run-IsValid_example = run-IsValid md5_hex traffic evicting evicting-IsValid

run-order_example :
    get (text "/1") ∷ arrivals md5_hex traffic evicting
    ≡ map flow_of (departures md5_hex traffic evicting) ++ (run md5_hex traffic evicting).queue
run-order_example = run-order md5_hex traffic evicting evicting-IsValid

retry_is_duplicate_example :
    let tried = (attempt md5_hex (get (text "/2")) full).0 in
    let later = run md5_hex (receives ∷ []) tried in
    (tried.queue ≡ full.queue)
    × (((attempt md5_hex (get (text "/2")) later).1 ≡ Attempt.done PushOutcome.duplicate)
        × ((attempt md5_hex (get (text "/2")) later).0.queue ≡ later.queue))
unfolding attempt admit fingerprint enqueue contains size_bytes
retry_is_duplicate_example =
    retry_is_duplicate md5_hex (get (text "/2")) full (receives ∷ []) refl refl (inr (omega arith))
      refl (λ e. cc) (tt, tt)

abbrev tight : FlowBuffer
tight = record full { queue = []; queued_bytes = 0; max_bytes = 100 }

oversized_waits_example : enqueue (get (text "/2")) tight ≡ (tight, Attempt.wait)
oversized_waits_example =
    oversized_waits (get (text "/2")) tight refl (omega arith) (omega arith)
      (unfold size_bytes in omega arith)

abbrev drained : FlowBuffer
drained = record full { queue = []; queued_bytes = 0 }

drained-IsValid : IsValid drained
unfolding total_bytes
drained-IsValid = record {
  cap_in_range = omega arith;
  bytes = refl;
  bounded = inl (omega arith);
  capped = inr (inl (omega arith));
  remembered = λ h. omega arith;
}

-- A repository that fails once and then saves, and a publisher that always succeeds.
abbrev flaky : Ports ℕ
flaky = record {
  save_batch =
      λ flows n. elim n [ zero ↦ (SaveOutcome.transient, 1) | suc m ↦ (SaveOutcome.saved, suc m) ];
  publish_event = λ f n. (true, n);
}

abbrev three : List HttpFlow
three = get (text "/1") ∷ get (text "/2") ∷ get (text "/3") ∷ []

abbrev by_two : Settings
by_two = record { batch_size = 2; max_retries = 3 }

writer_test : (Writer.run flaky by_two [] three 0).0 ≡ Writer.Result.ok
unfolding Writer.run Writer.flush Writer.save_batch_with_retry Writer.◌>>◌ Writer.publish_all
    Writer.publish_one
writer_test = refl

run-Saves_example :
    Saves three (Writer.run flaky by_two [] three 0).0 (Writer.run flaky by_two [] three 0).1
run-Saves_example = run-Saves flaky by_two [] three 0

run-IsSized_example : All (IsSized 2) (Writer.run flaky by_two [] three 0).1
run-IsSized_example = run-IsSized flaky by_two [] three (omega arith) 0
