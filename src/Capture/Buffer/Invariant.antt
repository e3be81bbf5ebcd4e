-- ===== src/Capture/Buffer/Invariant.antt =====
-- What holds of the buffer after any sequence of critical sections.
use aiautotest.Common.{
  ℕ, ◌%◌, ◌^◌, ◌≤◌, ◌<◌, ◌≡◌, refl, ap, ◌⊎◌, inl, inr, List, [], ◌∷◌, ◌++◌, true, length,
  length-append, length-drop, arith, saturating_add, usize_max, Bool-cases, Text,
}
use aiautotest.Domain.Flow.{HttpFlow, size_bytes, fingerprint}
use aiautotest.Capture.Buffer.{
  FlowBuffer, OverflowPolicy, BufferConfig, fits, fetch_add, accept, make_room, no_room, enqueue,
  admit, remember, recv, take_front, close, reset_dedup, from_config,
}
use aiautotest.Capture.Buffer.Bytes.{
  total_bytes, total_bytes-append, total_bytes-drop-le, size_bytes-le, evict-suffix,
}
use aiautotest.Capture.Buffer.Steps.{
  Operation, admits, enqueues, receives, closes, resets, step, run,
}

-- One flow that is larger than the limits, alone in the queue of a buffer that evicts.
abbrev pub IsOversized : FlowBuffer → Type 0
IsOversized b = (b.policy ≡ OverflowPolicy.drop_oldest) × (length b.queue ≤ 1)

pub record IsValid (b : FlowBuffer) : Type 0 where
  pub cap_in_range : b.max_bytes < usize_max
  pub bytes : b.queued_bytes ≡ total_bytes b.queue % 2 ^ 64
  pub bounded : (length b.queue ≤ b.capacity) ⊎ IsOversized b
  pub capped : (b.max_bytes ≡ 0) ⊎ ((total_bytes b.queue ≤ b.max_bytes) ⊎ IsOversized b)
  pub remembered : 0 < b.dedup_limit → length b.dedup ≤ b.dedup_limit

pub fits-room :
    (b : FlowBuffer) (len bytes incoming : ℕ)
    → fits b len bytes incoming ≡ true
    → (len < b.capacity) × ((b.max_bytes ≡ 0) ⊎ (saturating_add bytes incoming ≤ b.max_bytes))
unfolding fits
fits-room b len bytes incoming h = ground arith

-- A queue within its limits counts its bytes without wrapping.
queued_bytes-exact :
    (b : FlowBuffer) (queue : List HttpFlow)
    → b.max_bytes < usize_max
    → (total_bytes queue ≤ b.max_bytes) ⊎ (length queue ≤ 1)
    → total_bytes queue % 2 ^ 64 ≡ total_bytes queue
unfolding total_bytes
queued_bytes-exact b [] h k = omega arith
queued_bytes-exact b (f ∷ []) h k = omega (arith, size_bytes-le f)
queued_bytes-exact b (f ∷ g ∷ queue) h (inl k) = omega arith
queued_bytes-exact b (f ∷ g ∷ queue) h (inr k) = absurd (omega arith)

accept-capped :
    (f : HttpFlow) (b : FlowBuffer)
    → IsValid b
    → (b.max_bytes ≡ 0) ⊎ (saturating_add b.queued_bytes (size_bytes f) ≤ b.max_bytes)
    → (b.max_bytes ≡ 0) ⊎ (total_bytes (b.queue ++ f ∷ []) ≤ b.max_bytes)
unfolding total_bytes
accept-capped f b v (inl h) = inl h
accept-capped f b v (inr h) = elim v.capped [
  | inl z ↦ inl z
  | inr k ↦
      let k' : (total_bytes b.queue ≤ b.max_bytes) ⊎ (length b.queue ≤ 1) = elim k [
        | inl k ↦ inl k
        | inr k ↦ inr k.1
      ] in
      inr (
        omega (
          arith,
          total_bytes-append b.queue (f ∷ []),
          queued_bytes-exact b b.queue v.cap_in_range k',
        ))
]

accept-bytes :
    (f : HttpFlow) (b : FlowBuffer)
    → b.queued_bytes ≡ total_bytes b.queue % 2 ^ 64
    → fetch_add b.queued_bytes (size_bytes f) ≡ total_bytes (b.queue ++ f ∷ []) % 2 ^ 64
unfolding total_bytes
accept-bytes f b h = omega (arith, total_bytes-append b.queue (f ∷ []))

accept-IsValid :
    (f : HttpFlow) (b : FlowBuffer)
    → IsValid b
    → fits b (length b.queue) b.queued_bytes (size_bytes f) ≡ true
    → IsValid (accept f b)
unfolding accept
accept-IsValid f b v h =
    let (room, bytes) = fits-room b (length b.queue) b.queued_bytes (size_bytes f) h in
    record {
      cap_in_range = v.cap_in_range;
      bytes = accept-bytes f b v.bytes;
      bounded = inl (omega (arith, length-append b.queue (f ∷ [])));
      capped = elim (accept-capped f b v bytes) [ inl z ↦ inl z | inr k ↦ inr (inl k) ];
      remembered = v.remembered;
    }

-- A buffer that evicts takes any flow when it has become empty.
accept-IsValid_empty :
    (f : HttpFlow) (b : FlowBuffer)
    → IsValid b
    → b.policy ≡ OverflowPolicy.drop_oldest
    → b.queue ≡ []
    → IsValid (accept f b)
unfolding accept
accept-IsValid_empty f b v p e =
    let one : length (b.queue ++ f ∷ []) ≤ 1 = rw e (omega arith) in
    record {
      cap_in_range = v.cap_in_range;
      bytes = accept-bytes f b v.bytes;
      bounded = inr (p, one);
      capped = inr (inr (p, one));
      remembered = v.remembered;
    }

make_room-IsValid :
    (f : HttpFlow) (b : FlowBuffer)
    → IsValid b
    → IsValid (make_room f b)
      × (((make_room f b).queue ≡ [])
          ⊎ (fits
                (make_room f b)
                (length (make_room f b).queue)
                (make_room f b).queued_bytes
                (size_bytes f)
              ≡ true))
unfolding make_room fits
make_room-IsValid f b v =
    let (k, kept, count, bound, left, end) =
      evict-suffix b (size_bytes f) b.queue b.queued_bytes 0 v.bytes in
    let short = length-drop k b.queue in
    let fewer = total_bytes-drop-le k b.queue in
    let same = ap length kept in
    let sum = ap total_bytes kept in
    (
      record {
        cap_in_range = v.cap_in_range;
        bytes = rw kept left;
        bounded = elim v.bounded [ inl h ↦ inl (omega arith) | inr h ↦ inr (h.0, omega arith) ];
        capped = elim v.capped [
          | inl z ↦ inl z
          | inr (inl h) ↦ inr (inl (omega arith))
          | inr (inr h) ↦ inr (inr (h.0, omega arith))
        ];
        remembered = v.remembered;
      },
      end,
    )

no_room-IsValid :
    (p : OverflowPolicy) (f : HttpFlow) (b : FlowBuffer)
    → b.policy ≡ p
    → IsValid b
    → IsValid (no_room p f b).0
unfolding no_room
no_room-IsValid OverflowPolicy.drop_oldest f b e v = elim (make_room-IsValid f b v).1 [
  | inl empty ↦ accept-IsValid_empty f (make_room f b) (make_room-IsValid f b v).0 e empty
  | inr room ↦ accept-IsValid f (make_room f b) (make_room-IsValid f b v).0 room
]
no_room-IsValid OverflowPolicy.fail_fast f b e v = record {
  cap_in_range = v.cap_in_range;
  bytes = v.bytes;
  bounded = v.bounded;
  capped = v.capped;
  remembered = v.remembered;
}
no_room-IsValid OverflowPolicy.block f b e v = v

enqueue-IsValid : (f : HttpFlow) (b : FlowBuffer) → IsValid b → IsValid (enqueue f b).0
unfolding enqueue
enqueue-IsValid f b v = elim (Bool-cases (fits b (length b.queue) b.queued_bytes (size_bytes f))) [
  | inl room ↦ rw room (accept-IsValid f b v room)
  | inr full ↦ rw full (no_room-IsValid b.policy f b refl v)
]

recv-IsValid :
    (queue : List HttpFlow) (b : FlowBuffer)
    → b.queue ≡ queue
    → IsValid b
    → IsValid (take_front queue b).0
unfolding take_front total_bytes
recv-IsValid [] b e v = v
recv-IsValid (f ∷ queue) b e v =
    let same = ap length e in
    let sum = ap total_bytes e in
    record {
      cap_in_range = v.cap_in_range;
      bytes = omega (arith, v.bytes);
      bounded = elim v.bounded [ inl h ↦ inl (omega arith) | inr h ↦ inr (h.0, omega arith) ];
      capped = elim v.capped [
        | inl z ↦ inl z
        | inr (inl h) ↦ inr (inl (omega arith))
        | inr (inr h) ↦ inr (inr (h.0, omega arith))
      ];
      remembered = v.remembered;
    }

remember-bound :
    (print : Text) (b : FlowBuffer)
    → 0 < b.dedup_limit
    → length (remember print b).dedup ≤ b.dedup_limit
unfolding remember
remember-bound print b h = ground arith

remember-IsValid : (print : Text) (b : FlowBuffer) → IsValid b → IsValid (remember print b)
unfolding remember
remember-IsValid print b v = record {
  cap_in_range = v.cap_in_range;
  bytes = v.bytes;
  bounded = v.bounded;
  capped = v.capped;
  remembered = λ h. remember-bound print b h;
}

module _ (md5_hex : Text → Text) where
  admit-IsValid : (f : HttpFlow) (b : FlowBuffer) → IsValid b → IsValid (admit md5_hex f b).0
  unfolding admit
  admit-IsValid f b v = ground (arith, remember-bound (fingerprint md5_hex f) b)

  pub step-IsValid : (o : Operation) (b : FlowBuffer) → IsValid b → IsValid (step md5_hex o b)
  unfolding step close reset_dedup
  step-IsValid (admits f) b v = admit-IsValid f b v
  step-IsValid (enqueues f) b v = enqueue-IsValid f b v
  step-IsValid receives b v = unfold recv in recv-IsValid b.queue b refl v
  step-IsValid closes b v = ground arith
  step-IsValid resets b v = ground arith

  -- From a valid buffer, after any interleaving of producers and consumers, the counter of bytes is the size of the queue
  -- (modulo 2^64), the queue keeps within its capacity and its byte cap, unless the buffer evicts
  -- and holds one flow that is too large, and the remembered fingerprints within their limit.
  pub run-IsValid :
      (ops : List Operation) (b : FlowBuffer) → IsValid b → IsValid (run md5_hex ops b)
  unfolding run
  run-IsValid [] b v = v
  run-IsValid (o ∷ ops) b v = run-IsValid ops (step md5_hex o b) (step-IsValid o b v)

pub from_config-IsValid :
    (config : BufferConfig) → config.max_bytes < usize_max → IsValid (from_config config)
unfolding from_config total_bytes
from_config-IsValid config h = record {
  cap_in_range = h;
  bytes = refl;
  bounded = inl (omega arith);
  capped = inr (inl (omega arith));
  remembered = λ h. omega arith;
}
