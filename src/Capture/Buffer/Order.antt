-- ===== src/Capture/Buffer/Order.antt =====
-- The order of the flows: nothing is lost from the queue, duplicated in it or overtaken.
use aiautotest.Common.{
  ℕ, ◌≤◌, ◌≡◌, refl, ap, sym, ◌∙◌, ◌≢◌, ◌⊎◌, inl, inr, List, [], ◌∷◌, ◌++◌, length, length-append,
  length-drop, drop, take, arith, All, All-append, map, Bool-cases, Text, append_assoc, append-nil,
  take-append-drop,
}
use mathlib.Core.List.{map-append}
use aiautotest.Domain.Flow.{HttpFlow, size_bytes}
use aiautotest.Capture.Buffer.{
  FlowBuffer, OverflowPolicy, fits, accept, no_room, enqueue, admit, recv, take_front, close,
  reset_dedup,
}
use aiautotest.Capture.Buffer.Bytes.{evict-suffix}
use aiautotest.Capture.Buffer.Invariant.{IsValid, step-IsValid}
use aiautotest.Capture.Buffer.Steps.{
  Operation, admits, enqueues, receives, closes, resets, evicted, flow_of, IsReceived, arrived,
  taken, evictions, step, run, arrivals_of, departures_of, arrivals, departures,
}

map-flow_of-evicted : (xs : List HttpFlow) → map flow_of (map evicted xs) ≡ xs
map-flow_of-evicted [] = refl
map-flow_of-evicted (f ∷ xs) = rw (map-flow_of-evicted xs)

-- What `enqueue` leaves: the queue without its first `k` flows, and the new one if it is accepted.
-- Only a buffer that evicts has `k > 0`.
pub enqueue-suffix :
    (f : HttpFlow) (b : FlowBuffer)
    → IsValid b
    → (k : ℕ) × ((enqueue f b).0.queue ≡ drop k b.queue ++ arrived f (enqueue f b).1)
      × (k ≤ length b.queue)
      × ((b.policy ≡ OverflowPolicy.drop_oldest) ⊎ (k ≡ 0))
unfolding enqueue
enqueue-suffix f b v = elim (Bool-cases (fits b (length b.queue) b.queued_bytes (size_bytes f))) [
  | inl room ↦ (0, rw (room, accept), omega arith, inr refl)
  | inr full ↦ rw full (no_room-suffix b.policy refl)
]
  where
    no_room-suffix :
        (p : OverflowPolicy)
        → b.policy ≡ p
        → (k : ℕ) × ((no_room p f b).0.queue ≡ drop k b.queue ++ arrived f (no_room p f b).1)
          × (k ≤ length b.queue)
          × ((b.policy ≡ OverflowPolicy.drop_oldest) ⊎ (k ≡ 0))
    no_room-suffix OverflowPolicy.drop_oldest e =
        let (k, kept, count, bound, left, end) =
          evict-suffix b (size_bytes f) b.queue b.queued_bytes 0 v.bytes in
        (k, rw kept, bound, inl e)
    no_room-suffix OverflowPolicy.fail_fast e = (0, sym (append-nil _), omega arith, inr refl)
    no_room-suffix OverflowPolicy.block e = (0, sym (append-nil _), omega arith, inr refl)

evictions-eq :
    (f : HttpFlow) (b : FlowBuffer) (k : ℕ)
    → (enqueue f b).0.queue ≡ drop k b.queue ++ arrived f (enqueue f b).1
    → k ≤ length b.queue
    → evictions f b ≡ k
unfolding evictions
evictions-eq f b k e h = omega (
  arith,
  ap length e,
  length-append (drop k b.queue) (arrived f (enqueue f b).1),
  length-drop k b.queue,
)

recv-order :
    (queue : List HttpFlow) (b : FlowBuffer)
    → b.queue ≡ queue
    → b.queue ≡ map flow_of (taken (take_front queue b).1) ++ (take_front queue b).0.queue
unfolding take_front
recv-order [] b e = ground arith
recv-order (f ∷ queue) b e = e

pub admit-queue :
    (md5_hex : Text → Text) (f : HttpFlow) (b : FlowBuffer) → (admit md5_hex f b).0.queue ≡ b.queue
unfolding admit
admit-queue md5_hex f b = ground arith

reset_dedup-queue : (b : FlowBuffer) → (reset_dedup b).queue ≡ b.queue
unfolding reset_dedup
reset_dedup-queue b = ground arith

step-order :
    (md5_hex : Text → Text) (o : Operation) (b : FlowBuffer)
    → IsValid b
    → b.queue ++ arrivals_of o b ≡ map flow_of (departures_of o b) ++ (step md5_hex o b).queue
unfolding arrivals_of departures_of step
step-order md5_hex (enqueues f) b v =
    let (k, e, bound, _) = enqueue-suffix f b v in
    rw (e, evictions-eq f b k e bound, map-flow_of-evicted (take k b.queue))
      (ap (λ q. q ++ arrived f (enqueue f b).1) (sym (take-append-drop k b.queue))
        ∙ append_assoc (take k b.queue) (drop k b.queue) _)
step-order md5_hex receives b v = unfold recv in (append-nil _ ∙ recv-order b.queue b refl)
step-order md5_hex (admits f) b v = append-nil _ ∙ sym (admit-queue md5_hex f b)
step-order md5_hex closes b v = unfold close in append-nil _
step-order md5_hex resets b v = append-nil _ ∙ sym (reset_dedup-queue b)

-- First in, first out: over any interleaving, the old queue followed by the accepted flows is what has
-- left (received or evicted, in this order) followed by what the queue still holds.
pub run-order :
    (md5_hex : Text → Text) (ops : List Operation) (b : FlowBuffer)
    → IsValid b
    → b.queue ++ arrivals md5_hex ops b
      ≡ map flow_of (departures md5_hex ops b) ++ (run md5_hex ops b).queue
unfolding arrivals departures run
run-order md5_hex [] b v = append-nil _
run-order md5_hex (o ∷ ops) b v =
    let b' = step md5_hex o b in
    let later = run-order md5_hex ops b' (step-IsValid md5_hex o b v) in
    let now = step-order md5_hex o b v in
    sym (append_assoc b.queue (arrivals_of o b) (arrivals md5_hex ops b'))
    ∙ ap (λ q. q ++ arrivals md5_hex ops b') now
    ∙ append_assoc _ b'.queue _
    ∙ ap (λ q. map flow_of (departures_of o b) ++ q) later
    ∙ sym (
        append_assoc (map flow_of (departures_of o b)) (map flow_of (departures md5_hex ops b'))
          (run md5_hex ops b').queue)
    ∙ ap (λ q. q ++ (run md5_hex ops b').queue)
        (sym (map-append flow_of (departures_of o b) (departures md5_hex ops b')))

enqueue-policy : (f : HttpFlow) (b : FlowBuffer) → (enqueue f b).0.policy ≡ b.policy
unfolding enqueue
enqueue-policy f b = elim (Bool-cases (fits b (length b.queue) b.queued_bytes (size_bytes f))) [
  | inl room ↦ rw (room, accept)
  | inr full ↦ rw full (no_room-policy b.policy)
]
  where
    no_room-policy : (p : OverflowPolicy) → (no_room p f b).0.policy ≡ b.policy
    no_room-policy OverflowPolicy.drop_oldest = refl
    no_room-policy OverflowPolicy.fail_fast = refl
    no_room-policy OverflowPolicy.block = refl

recv-policy : (queue : List HttpFlow) (b : FlowBuffer) → (take_front queue b).0.policy ≡ b.policy
unfolding take_front
recv-policy [] b = refl
recv-policy (f ∷ queue) b = refl

step-policy :
    (md5_hex : Text → Text) (o : Operation) (b : FlowBuffer) → (step md5_hex o b).policy ≡ b.policy
unfolding step
step-policy md5_hex (admits f) b = unfold admit in ground arith
step-policy md5_hex (enqueues f) b = enqueue-policy f b
step-policy md5_hex receives b = unfold recv in recv-policy b.queue b
step-policy md5_hex closes b = unfold close in refl
step-policy md5_hex resets b = unfold reset_dedup in ground arith

taken-IsReceived :
    (queue : List HttpFlow) (b : FlowBuffer) → All IsReceived (taken (take_front queue b).1)
unfolding take_front
taken-IsReceived [] b = elim (Bool-cases b.closed) [ inl e ↦ rw e tt | inr e ↦ rw e tt ]
taken-IsReceived (f ∷ queue) b = (tt, tt)

step-IsReceived :
    (o : Operation) (b : FlowBuffer)
    → IsValid b
    → b.policy ≢ OverflowPolicy.drop_oldest
    → All IsReceived (departures_of o b)
unfolding departures_of
step-IsReceived (enqueues f) b v p =
    let (k, e, bound, why) = enqueue-suffix f b v in
    let none_left : k ≡ 0 = elim why [ inl q ↦ absurd (p q) | inr z ↦ z ] in
    rw (evictions-eq f b k e bound, none_left) tt
step-IsReceived receives b v p = unfold recv in taken-IsReceived b.queue b
step-IsReceived (admits f) b v p = tt
step-IsReceived closes b v p = tt
step-IsReceived resets b v p = tt

-- Under the other two policies a flow that was accepted only leaves to a consumer: none is evicted.
pub run-IsReceived :
    (md5_hex : Text → Text) (ops : List Operation) (b : FlowBuffer)
    → IsValid b
    → b.policy ≢ OverflowPolicy.drop_oldest
    → All IsReceived (departures md5_hex ops b)
unfolding departures
run-IsReceived md5_hex [] b v p = tt
run-IsReceived md5_hex (o ∷ ops) b v p = All-append IsReceived _ _ (step-IsReceived o b v p) (
    run-IsReceived md5_hex ops (step md5_hex o b) (step-IsValid md5_hex o b v)
      (λ e. p (sym (step-policy md5_hex o b) ∙ e)))
