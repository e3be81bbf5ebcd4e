-- ===== src/Capture/Buffer/Dedup.antt =====
-- What `push` does with the outcome: progress of each policy, and what becomes of a flow that has to
-- wait or is turned away after its fingerprint was remembered.
use aiautotest.Common.{
  ◌≤◌, ◌<◌, ◌≡◌, refl, ap, ◌∙◌, ◌≢◌, ◌⊎◌, inl, inr, List, [], ◌∷◌, true, false, length, arith, All,
  none, Bool-cases, Text, contains, usize_max, text_eq_refl,
}
use aiautotest.Domain.Flow.{HttpFlow, size_bytes, fingerprint}
use aiautotest.Capture.Buffer.{
  FlowBuffer, OverflowPolicy, PushOutcome, Attempt, fits, accept, no_room, enqueue, after_admit,
  admit, remember, recv, take_front, attempt,
}
use aiautotest.Capture.Buffer.Bytes.{total_bytes, size_bytes-le}
use aiautotest.Capture.Buffer.Invariant.{IsValid}
use aiautotest.Capture.Buffer.Steps.{
  Operation, admits, enqueues, receives, closes, resets, step, run,
}

-- A section under the queue lock alone.
abbrev pub IsQueueing : Operation → Type 0
IsQueueing (enqueues f) = Unit
IsQueueing receives = Unit
IsQueueing _ = ⊥

-- The parts of the buffer that deduplication reads.
abbrev pub Remembers : FlowBuffer → FlowBuffer → Type 0
Remembers b c = (c.dedup ≡ b.dedup) × (c.dedup_enabled ≡ b.dedup_enabled) × (c.closed ≡ b.closed)

no_room-Remembers :
    (p : OverflowPolicy) (f : HttpFlow) (b : FlowBuffer) → Remembers b (no_room p f b).0
unfolding no_room
no_room-Remembers OverflowPolicy.drop_oldest f b = (refl, refl, refl)
no_room-Remembers OverflowPolicy.fail_fast f b = (refl, refl, refl)
no_room-Remembers OverflowPolicy.block f b = (refl, refl, refl)

enqueue-Remembers : (f : HttpFlow) (b : FlowBuffer) → Remembers b (enqueue f b).0
unfolding enqueue
enqueue-Remembers f b = elim (Bool-cases (fits b (length b.queue) b.queued_bytes (size_bytes f))) [
  | inl room ↦ rw (room, accept) (refl, refl, refl)
  | inr full ↦ rw full (no_room-Remembers b.policy f b)
]

recv-Remembers : (queue : List HttpFlow) (b : FlowBuffer) → Remembers b (take_front queue b).0
unfolding take_front
recv-Remembers [] b = (refl, refl, refl)
recv-Remembers (f ∷ queue) b = (refl, refl, refl)

recv_lem : (b : FlowBuffer) → Remembers b (recv b).0
unfolding recv
recv_lem b = recv-Remembers b.queue b

run-Remembers :
    (md5_hex : Text → Text) (ops : List Operation) (b : FlowBuffer)
    → All IsQueueing ops
    → Remembers b (run md5_hex ops b)
unfolding run step
run-Remembers md5_hex [] b h = (refl, refl, refl)
run-Remembers md5_hex (enqueues f ∷ ops) b h =
    let (d, e, c) = enqueue-Remembers f b in
    let (d', e', c') = run-Remembers md5_hex ops (enqueue f b).0 h.1 in (d' ∙ d, e' ∙ e, c' ∙ c)
run-Remembers md5_hex (receives ∷ ops) b h =
    let (d, e, c) = recv_lem b in
    let (d', e', c') = run-Remembers md5_hex ops (recv b).0 h.1 in (d' ∙ d, e' ∙ e, c' ∙ c)
run-Remembers md5_hex (admits f ∷ ops) b h = absurd h.0
run-Remembers md5_hex (closes ∷ ops) b h = absurd h.0
run-Remembers md5_hex (resets ∷ ops) b h = absurd h.0

-- The set has room for one more fingerprint, or no limit.
abbrev pub HasDedupRoom : FlowBuffer → Type 0
HasDedupRoom b = (b.dedup_limit ≡ 0) ⊎ (length b.dedup < b.dedup_limit)

remember-contains :
    (print : Text) (b : FlowBuffer)
    → HasDedupRoom b
    → contains print (remember print b).dedup ≡ true
unfolding remember contains
remember-contains print b (inl h) = ground (arith, text_eq_refl print)
remember-contains print b (inr h) = ground (arith, text_eq_refl print)

admit-passes :
    (md5_hex : Text → Text) (f : HttpFlow) (b : FlowBuffer)
    → (admit md5_hex f b).1 ≡ none
    → b.dedup_enabled ≡ true
    → (admit md5_hex f b).0 ≡ remember (fingerprint md5_hex f) b
unfolding admit
admit-passes md5_hex f b h e = ground arith

admit-again :
    (md5_hex : Text → Text) (f : HttpFlow) (b : FlowBuffer)
    → b.closed ≡ false
    → b.dedup_enabled ≡ true
    → contains (fingerprint md5_hex f) b.dedup ≡ true
    → ((attempt md5_hex f b).1 ≡ Attempt.done PushOutcome.duplicate)
      × ((attempt md5_hex f b).0.queue ≡ b.queue)
unfolding attempt admit
admit-again md5_hex f b c e h = ground arith

attempt-enqueue :
    (md5_hex : Text → Text) (f : HttpFlow) (b : FlowBuffer)
    → (admit md5_hex f b).1 ≡ none
    → attempt md5_hex f b ≡ enqueue f (admit md5_hex f b).0
unfolding attempt
attempt-enqueue md5_hex f b h = rw (h, after_admit)

refused-queue :
    (f : HttpFlow) (b : FlowBuffer)
    → (enqueue f b).1 ≢ Attempt.done PushOutcome.accepted
    → (enqueue f b).0.queue ≡ b.queue
unfolding enqueue
refused-queue f b refused =
    elim (Bool-cases (fits b (length b.queue) b.queued_bytes (size_bytes f))) [
      | inl room ↦ absurd (refused (rw room))
      | inr full ↦ rw full (no_room-queue b.policy (λ e. refused (rw full e)))
    ]
  where
    no_room-queue :
        (p : OverflowPolicy)
        → (no_room p f b).1 ≢ Attempt.done PushOutcome.accepted
        → (no_room p f b).0.queue ≡ b.queue
    no_room-queue OverflowPolicy.drop_oldest h = absurd (h refl)
    no_room-queue OverflowPolicy.fail_fast h = refl
    no_room-queue OverflowPolicy.block h = refl

-- A buffer is open, deduplicates, and its set has no limit or room for one more fingerprint. A flow that
-- passes the deduplication there but is not accepted, because it has to wait (policy `block`) or is
-- turned away (policy `fail_fast`), leaves the queue as it was. When its push is tried again after any
-- steps on the queue alone (flows that are queued or received), it is taken for a duplicate of itself,
-- and leaves the queue as it then is.
pub retry_is_duplicate :
    (md5_hex : Text → Text) (f : HttpFlow) (b : FlowBuffer) (ops : List Operation)
    → b.closed ≡ false
    → b.dedup_enabled ≡ true
    → HasDedupRoom b
    → (admit md5_hex f b).1 ≡ none
    → (attempt md5_hex f b).1 ≢ Attempt.done PushOutcome.accepted
    → All IsQueueing ops
    → let tried = (attempt md5_hex f b).0 in
      let later = run md5_hex ops tried in
      (tried.queue ≡ b.queue)
      × (((attempt md5_hex f later).1 ≡ Attempt.done PushOutcome.duplicate)
          × ((attempt md5_hex f later).0.queue ≡ later.queue))
unfolding remember
retry_is_duplicate md5_hex f b ops c e room passed refused queueing =
    let print = fingerprint md5_hex f in
    let same =
      attempt-enqueue md5_hex f b passed ∙ ap (enqueue f) (admit-passes md5_hex f b passed e) in
    let unqueued = refused-queue f (remember print b) (λ q. refused (ap (λ r. r.1) same ∙ q)) in
    let (d, e', c') = enqueue-Remembers f (remember print b) in
    let (d2, e2, c2) = run-Remembers md5_hex ops (enqueue f (remember print b)).0 queueing in
    let known = remember-contains print b room in
    rw same (
      unqueued,
      admit-again md5_hex f (run md5_hex ops (enqueue f (remember print b)).0) (c2 ∙ c' ∙ c)
          (e2 ∙ e' ∙ e) (ap (contains print) (d2 ∙ d) ∙ known),
    )

-- Under the policy `block` a flow that is larger than the byte cap waits whatever the queue holds,
-- the empty queue included.
pub oversized_waits :
    (f : HttpFlow) (b : FlowBuffer)
    → b.policy ≡ OverflowPolicy.block
    → 0 < b.max_bytes
    → b.max_bytes < usize_max
    → b.max_bytes < size_bytes f
    → enqueue f b ≡ (b, Attempt.wait)
unfolding enqueue
oversized_waits f b p h k l = rw (too_large, p, no_room)
  where
    too_large : fits b (length b.queue) b.queued_bytes (size_bytes f) ≡ false
    too_large = unfold fits in ground arith

-- A buffer that evicts never makes a producer wait, and accepts every flow.
pub drop_oldest_accepts :
    (f : HttpFlow) (b : FlowBuffer)
    → b.policy ≡ OverflowPolicy.drop_oldest
    → (enqueue f b).1 ≡ Attempt.done PushOutcome.accepted
unfolding enqueue
drop_oldest_accepts f b p =
    elim (Bool-cases (fits b (length b.queue) b.queued_bytes (size_bytes f))) [
      | inl room ↦ rw room
      | inr full ↦ rw (full, p, no_room)
    ]

-- Once the consumers have drained the queue, a flow within the byte cap is accepted under any policy.
pub drained_accepts :
    (f : HttpFlow) (b : FlowBuffer)
    → IsValid b
    → b.queue ≡ []
    → 0 < b.capacity
    → (b.max_bytes ≡ 0) ⊎ (size_bytes f ≤ b.max_bytes)
    → (enqueue f b).1 ≡ Attempt.done PushOutcome.accepted
unfolding enqueue
drained_accepts f b v e h k = rw room
  where
    no_bytes : b.queued_bytes ≡ 0
    no_bytes = unfold total_bytes in (v.bytes ∙ rw e)

    room : fits b (length b.queue) b.queued_bytes (size_bytes f) ≡ true
    room = rw e (unfold fits in ground (arith, no_bytes, size_bytes-le f))
