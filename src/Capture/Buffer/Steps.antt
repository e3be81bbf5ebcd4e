-- ===== src/Capture/Buffer/Steps.antt =====
-- The tasks that share a buffer, as a sequence of critical sections: any interleaving of any number
-- of producers and consumers is such a sequence, with resets and the closing among them.
use aiautotest.Common.{ℕ, ◌+◌, ◌-◌, List, [], ◌∷◌, ◌++◌, Text, map, take, length}
use aiautotest.Domain.Flow.{HttpFlow}
use aiautotest.Capture.Buffer.{
  FlowBuffer, PushOutcome, Attempt, Received, admit, enqueue, recv, close, reset_dedup,
}

pub data Operation : Type 0 where
  admits enqueues : HttpFlow → Operation
  receives closes resets : Operation

pub data Departure : Type 0 where
  received evicted : HttpFlow → Departure

abbrev pub flow_of : Departure → HttpFlow
flow_of (received f) = f
flow_of (evicted f) = f

abbrev pub IsReceived : Departure → Type 0
IsReceived (received f) = Unit
IsReceived (evicted f) = ⊥

abbrev pub arrived : HttpFlow → Attempt → List HttpFlow
arrived f (Attempt.done PushOutcome.accepted) = f ∷ []
arrived f _ = []

abbrev pub taken : Received → List Departure
taken (Received.flow f) = received f ∷ []
taken _ = []

-- How many flows `enqueue` evicts to make room.
unfoldable pub evictions : HttpFlow → FlowBuffer → ℕ
unfolding enqueue
evictions f b = length b.queue + length (arrived f (enqueue f b).1) - length (enqueue f b).0.queue

module _ (md5_hex : Text → Text) where
  unfoldable pub step : Operation → FlowBuffer → FlowBuffer
  step (admits f) b = (admit md5_hex f b).0
  step (enqueues f) b = (enqueue f b).0
  step receives b = (recv b).0
  step closes b = close b
  step resets b = reset_dedup b

  unfoldable pub run : List Operation → FlowBuffer → FlowBuffer
  run [] b = b
  run (o ∷ ops) b = run ops (step o b)

-- The flows that a section puts into the queue, and those that it takes out, in order.
unfoldable pub arrivals_of : Operation → FlowBuffer → List HttpFlow
arrivals_of (enqueues f) b = arrived f (enqueue f b).1
arrivals_of _ b = []

unfoldable pub departures_of : Operation → FlowBuffer → List Departure
departures_of (enqueues f) b = map evicted (take (evictions f b) b.queue)
departures_of receives b = taken (recv b).1
departures_of _ b = []

module _ (md5_hex : Text → Text) where
  unfoldable pub arrivals : List Operation → FlowBuffer → List HttpFlow
  arrivals [] b = []
  arrivals (o ∷ ops) b = arrivals_of o b ++ arrivals ops (step md5_hex o b)

  unfoldable pub departures : List Operation → FlowBuffer → List Departure
  departures [] b = []
  departures (o ∷ ops) b = departures_of o b ++ departures ops (step md5_hex o b)
