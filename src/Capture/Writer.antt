-- ===== src/Capture/Writer.antt =====
-- crates/capture/src/writer.rs: drains the buffer into the repository in batches. The repository and
-- the event publisher are parameters, over a world that they change; every call of them is logged
-- with its answer. The waits between retries are left out.
pub mod Laws
pub mod Bounds
use aiautotest.Common.{
  ℕ, zero, suc, ◌+◌, ◌≤◌, ◌≡◌, Bool, true, false, List, [], ◌∷◌, ◌++◌, length, leb, if◌then◌else◌,
  max,
}
use aiautotest.Domain.Flow.{HttpFlow}

pub data SaveOutcome : Type 0 where
  saved transient permanent : SaveOutcome

pub data Call : Type 0 where
  save : List HttpFlow → SaveOutcome → Call
  publish : HttpFlow → Bool → Call

pub data CaptureError : Type 0 where
  repository publisher : CaptureError

pub data Result : Type 0 where
  ok : Result
  err : CaptureError → Result

pub record Ports (W : Type 0) : Type 0 where
  pub save_batch : List HttpFlow → W → SaveOutcome × W
  -- Whether the event was published.
  pub publish_event : HttpFlow → W → Bool × W

abbrev pub default_max_retries : ℕ
default_max_retries = 3

pub record Settings : Type 0 where
  pub batch_size : ℕ
  pub max_retries : ℕ

unfoldable pub new : Settings
new = record { batch_size = 100; max_retries = default_max_retries }

unfoldable pub with_batch_size : ℕ → Settings → Settings
with_batch_size n s = record s { batch_size = max n 1 }

unfoldable pub with_max_retries : ℕ → Settings → Settings
with_max_retries n s = record s { max_retries = n }

module _ {W : Type 0} (ports : Ports W) where
  open ports use {save_batch, publish_event}

  abbrev pub Run : Type 0
  Run = W → Result × List Call × W

  -- A step that succeeds goes on to the next; the logs are joined.
  infixl 5 ◌>>◌
  unfoldable pub ◌>>◌ : Run → Run → Run
  ◌>>◌ m k w =
      let (r, log, w') = m w in
      elim r [
        | ok ↦ let (r', log', w'') = k w' in (r', log ++ log', w'')
        | err e ↦ (err e, log, w')
      ]

  abbrev pub done : Run
  done w = (ok, [], w)

  -- `left` is `max_retries - attempt`.
  unfoldable pub save_batch_with_retry : (left : ℕ) → List HttpFlow → Run
  save_batch_with_retry zero flows w =
      let (o, w') = save_batch flows w in
      elim o [
        | saved ↦ (ok, save flows saved ∷ [], w')
        | transient ↦ (err repository, save flows transient ∷ [], w')
        | permanent ↦ (err repository, save flows permanent ∷ [], w')
      ]
  save_batch_with_retry (suc left) flows w =
      let (o, w') = save_batch flows w in
      elim o [
        | saved ↦ (ok, save flows saved ∷ [], w')
        | transient ↦
            let (r, log, w'') = save_batch_with_retry left flows w' in
            (r, save flows transient ∷ log, w'')
        | permanent ↦ (err repository, save flows permanent ∷ [], w')
      ]

  unfoldable pub publish_one : HttpFlow → Run
  publish_one f w =
      let (sent, w') = publish_event f w in
      (if sent then ok else err publisher, publish f sent ∷ [], w')

  unfoldable pub publish_all : List HttpFlow → Run
  publish_all [] = done
  publish_all (f ∷ flows) = publish_one f >> publish_all flows

  -- `flush` takes the batch away also when it fails.
  unfoldable pub flush : Settings → List HttpFlow → Run
  flush s [] = done
  flush s (f ∷ batch) = save_batch_with_retry s.max_retries (f ∷ batch) >> publish_all (f ∷ batch)

  -- The loop of `run`, from the current batch, over the flows that `recv` will return before the
  -- closed buffer is empty.
  unfoldable pub run : Settings → (batch flows : List HttpFlow) → Run
  run s batch [] = flush s batch
  run s batch (f ∷ flows) =
      let grown = batch ++ f ∷ [] in
      let flushed = flush s grown >> run s [] flows in
      let kept = run s grown flows in if leb s.batch_size (length grown) then flushed else kept
