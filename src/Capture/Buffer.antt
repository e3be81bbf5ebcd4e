-- ===== src/Capture/Buffer.antt =====
-- crates/capture/src/buffer.rs: the bounded queue of captured flows. `push` is made of two critical
-- sections, under the deduplication lock and under the queue lock; each is one step here, since
-- other tasks may run between them. `stats` and `snapshot` read. Waiting is `Attempt.wait`: the task
-- sleeps on the `Notify`, whose wake-ups are not modelled, and then makes another attempt. The
-- counters and `queued_bytes` wrap around at 64 bits.
pub mod Steps
pub mod Bytes
pub mod Invariant
pub mod Order
pub mod Dedup
use aiautotest.Common.{
  ℕ, suc, ◌+◌, ◌-◌, ◌%◌, ◌^◌, Bool, true, false, ◌&&◌, ◌||◌, Option, none, some, List, [], ◌∷◌,
  ◌++◌, Text, length, leb, ltb, ◌==◌, if◌then◌else◌, saturating_add, contains,
}
use aiautotest.Domain.Flow.{HttpFlow, size_bytes, fingerprint}

pub data OverflowPolicy : Type 0 where
  block drop_oldest fail_fast : OverflowPolicy

pub data PushOutcome : Type 0 where
  accepted duplicate overflow : PushOutcome

pub record FlowBuffer : Type 0 where
  pub queue : List HttpFlow
  pub capacity : ℕ
  pub queued_bytes : ℕ
  pub max_bytes : ℕ
  pub dedup : List Text
  pub dedup_enabled : Bool
  pub dedup_limit : ℕ
  pub policy : OverflowPolicy
  pub closed : Bool
  pub accepted : ℕ
  pub duplicates : ℕ
  pub dropped : ℕ

pub record BufferStats : Type 0 where
  pub capacity : ℕ
  pub len : ℕ
  pub queued_bytes : ℕ
  pub max_bytes : ℕ
  pub accepted : ℕ
  pub duplicates : ℕ
  pub dropped : ℕ
  pub dedup_len : ℕ

-- `crates/domain/src/config.rs`, BufferConfig.
pub record BufferConfig : Type 0 where
  pub max_size : ℕ
  pub dedup_enabled : Bool
  pub max_bytes : ℕ
  pub dedup_limit : ℕ

-- `fetch_add` and `fetch_sub` on a 64-bit atomic.
abbrev pub fetch_add : ℕ → ℕ → ℕ
fetch_add a b = (a + b) % 2 ^ 64

abbrev pub fetch_sub : ℕ → ℕ → ℕ
fetch_sub a b = (a + 2 ^ 64 - b % 2 ^ 64) % 2 ^ 64

unfoldable pub new : ℕ → Bool → OverflowPolicy → FlowBuffer
new capacity dedup_enabled policy = record {
  queue = [];
  capacity = capacity;
  queued_bytes = 0;
  max_bytes = 0;
  dedup = [];
  dedup_enabled = dedup_enabled;
  dedup_limit = 100000;
  policy = policy;
  closed = false;
  accepted = 0;
  duplicates = 0;
  dropped = 0;
}

unfoldable pub with_max_bytes : ℕ → FlowBuffer → FlowBuffer
with_max_bytes max_bytes b = record b { max_bytes = max_bytes }

unfoldable pub with_dedup_limit : ℕ → FlowBuffer → FlowBuffer
with_dedup_limit dedup_limit b = record b { dedup_limit = dedup_limit }

unfoldable pub from_config : BufferConfig → FlowBuffer
unfolding new with_max_bytes with_dedup_limit
from_config config = with_dedup_limit config.dedup_limit (
    with_max_bytes config.max_bytes (new config.max_size config.dedup_enabled OverflowPolicy.block))

unfoldable pub reset_dedup : FlowBuffer → FlowBuffer
reset_dedup b = if b.dedup_enabled then record b { dedup = [] } else b

unfoldable pub fits : FlowBuffer → (queue_len queued_bytes incoming_bytes : ℕ) → Bool
fits b queue_len queued_bytes incoming_bytes =
    if leb b.capacity queue_len
    then false
    else b.max_bytes == 0 || leb (saturating_add queued_bytes incoming_bytes) b.max_bytes

-- `while !queue.is_empty() && !fits { pop_front … }`: what is left of the queue, of the bytes, and
-- how many flows were evicted.
unfoldable pub evict : FlowBuffer → ℕ → List HttpFlow → ℕ → ℕ → List HttpFlow × ℕ × ℕ
evict b incoming [] bytes evicted = ([], bytes, evicted)
evict b incoming (f ∷ queue) bytes evicted =
    let rest = evict b incoming queue (fetch_sub bytes (size_bytes f)) (evicted + 1) in
    if fits b (suc (length queue)) bytes incoming then (f ∷ queue, bytes, evicted) else rest

pub data Attempt : Type 0 where
  done : PushOutcome → Attempt
  wait : Attempt

unfoldable pub accept : HttpFlow → FlowBuffer → FlowBuffer
accept f b = record b {
  queue = b.queue ++ f ∷ [];
  queued_bytes = fetch_add b.queued_bytes (size_bytes f);
  accepted = fetch_add b.accepted 1;
}

unfoldable pub make_room : HttpFlow → FlowBuffer → FlowBuffer
unfolding evict
make_room f b =
    let (queue, bytes, evicted) = evict b (size_bytes f) b.queue b.queued_bytes 0 in
    record b { queue = queue; queued_bytes = bytes; dropped = fetch_add b.dropped evicted }

no_room : OverflowPolicy → HttpFlow → FlowBuffer → FlowBuffer × Attempt
unfolding make_room accept
no_room drop_oldest f b = (accept f (make_room f b), done PushOutcome.accepted)
no_room fail_fast f b = (record b { dropped = fetch_add b.dropped 1 }, done overflow)
no_room block f b = (b, wait)

-- The critical section under the queue lock.
unfoldable pub enqueue : HttpFlow → FlowBuffer → FlowBuffer × Attempt
unfolding no_room accept fits
enqueue f b =
    if fits b (length b.queue) b.queued_bytes (size_bytes f)
    then (accept f b, done PushOutcome.accepted)
    else no_room b.policy f b

unfoldable pub remember : Text → FlowBuffer → FlowBuffer
remember print b =
    let seen = print ∷ b.dedup in
    record b { dedup = if ltb 0 b.dedup_limit && ltb b.dedup_limit (length seen) then [] else seen }

after_admit : HttpFlow → FlowBuffer → Option PushOutcome → FlowBuffer × Attempt
after_admit f b (some outcome) = (b, done outcome)
after_admit f b none = enqueue f b

module _ (md5_hex : Text → Text) where
  -- The test of `closed` and the critical section under the deduplication lock; `none` goes on to
  -- `enqueue`.
  unfoldable pub admit : HttpFlow → FlowBuffer → FlowBuffer × Option PushOutcome
  unfolding remember
  admit f b =
      if b.closed
      then (b, some overflow)
      else (if b.dedup_enabled
          then (if contains (fingerprint md5_hex f) b.dedup
              then (record b { duplicates = fetch_add b.duplicates 1 }, some duplicate)
              else (remember (fingerprint md5_hex f) b, none))
          else (b, none))

  -- One turn of the loop in `push`, with no other task between its two sections.
  unfoldable pub attempt : HttpFlow → FlowBuffer → FlowBuffer × Attempt
  unfolding after_admit
  attempt f b = let (b', refused) = admit f b in after_admit f b' refused

pub data Received : Type 0 where
  flow : HttpFlow → Received
  end : Received
  pending : Received

take_front : List HttpFlow → FlowBuffer → FlowBuffer × Received
take_front [] b = (b, if b.closed then end else pending)
take_front (f ∷ queue) b =
    (record b { queue = queue; queued_bytes = fetch_sub b.queued_bytes (size_bytes f) }, flow f)

-- One turn of the loop in `recv`: a flow, the end of a closed queue, or a wait.
unfoldable pub recv : FlowBuffer → FlowBuffer × Received
unfolding take_front
recv b = take_front b.queue b

unfoldable pub close : FlowBuffer → FlowBuffer
close b = record b { closed = true }

unfoldable pub stats : FlowBuffer → BufferStats
stats b = record {
  capacity = b.capacity;
  len = length b.queue;
  queued_bytes = b.queued_bytes;
  max_bytes = b.max_bytes;
  accepted = b.accepted;
  duplicates = b.duplicates;
  dropped = b.dropped;
  dedup_len = length b.dedup;
}

unfoldable pub snapshot : FlowBuffer → List HttpFlow
snapshot b = b.queue
