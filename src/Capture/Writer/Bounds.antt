-- ===== src/Capture/Writer/Bounds.antt =====
-- How large the batches are and how often a save is tried.
use aiautotest.Common.{
  ℕ, zero, suc, ◌+◌, ◌≤◌, ◌<◌, inl, inr, List, [], ◌∷◌, ◌++◌, length, leb, All, All-append,
  Bool-cases, length-append, arith,
}
use aiautotest.Domain.Flow.{HttpFlow}
use aiautotest.Capture.Writer.{
  Call, save, publish, Ports, Settings, Run, ◌>>◌, save_batch_with_retry, publish_one, publish_all,
  flush, run,
}
use aiautotest.Capture.Writer.Laws.{Result-cases, SaveOutcome-cases}

-- A save of at most `n` flows and at least one.
abbrev pub IsSized : ℕ → Call → Type 0
IsSized n (save flows o) = (0 < length flows) × (length flows ≤ n)
IsSized n (publish f b) = Unit

-- How many saves a log has.
unfoldable pub saves : List Call → ℕ
saves [] = 0
saves (save flows o ∷ log) = suc (saves log)
saves (publish f b ∷ log) = saves log

module _ {W : Type 0} (ports : Ports W) where
  open ports use {save_batch, publish_event}

  abbrev RunIsSized : ℕ → Run ports → Type 0
  RunIsSized n m = (w : W) → All (IsSized n) (m w).1

  seq-IsSized :
      (n : ℕ) (m k : Run ports) → RunIsSized n m → RunIsSized n k → RunIsSized n (◌>>◌ ports m k)
  unfolding ◌>>◌
  seq-IsSized n m k hm hk w = elim (Result-cases (m w).0) [
    | inl e ↦ rw (e, ◌>>◌) (All-append (IsSized n) (m w).1 (k (m w).2).1 (hm w) (hk (m w).2))
    | inr (e, q) ↦ rw (q, ◌>>◌) (hm w)
  ]

  retry-IsSized :
      (n left : ℕ) (flows : List HttpFlow)
      → 0 < length flows
      → length flows ≤ n
      → RunIsSized n (save_batch_with_retry ports left flows)
  unfolding save_batch_with_retry
  retry-IsSized n zero flows h k w = elim (SaveOutcome-cases (save_batch flows w).0) [
    | inl e ↦ rw (e, save_batch_with_retry) ((h, k), tt)
    | inr (inl e) ↦ rw (e, save_batch_with_retry) ((h, k), tt)
    | inr (inr e) ↦ rw (e, save_batch_with_retry) ((h, k), tt)
  ]
  retry-IsSized n (suc left) flows h k w = elim (SaveOutcome-cases (save_batch flows w).0) [
    | inl e ↦ rw (e, save_batch_with_retry) ((h, k), tt)
    | inr (inl e) ↦
        rw (e, save_batch_with_retry)
          ((h, k), retry-IsSized n left flows h k (save_batch flows w).1)
    | inr (inr e) ↦ rw (e, save_batch_with_retry) ((h, k), tt)
  ]

  -- A batch is tried at most `left + 1` times, and at least once.
  retry-saves :
      (left : ℕ) (flows : List HttpFlow) (w : W)
      → (0 < saves (save_batch_with_retry ports left flows w).1)
        × (saves (save_batch_with_retry ports left flows w).1 ≤ left + 1)
  unfolding save_batch_with_retry saves
  retry-saves zero flows w = elim (SaveOutcome-cases (save_batch flows w).0) [
    | inl e ↦ rw (e, save_batch_with_retry) (omega arith)
    | inr (inl e) ↦ rw (e, save_batch_with_retry) (omega arith)
    | inr (inr e) ↦ rw (e, save_batch_with_retry) (omega arith)
  ]
  retry-saves (suc left) flows w = elim (SaveOutcome-cases (save_batch flows w).0) [
    | inl e ↦ rw (e, save_batch_with_retry) (omega arith)
    | inr (inl e) ↦
        let h = retry-saves left flows (save_batch flows w).1 in
        rw (e, save_batch_with_retry) (omega arith)
    | inr (inr e) ↦ rw (e, save_batch_with_retry) (omega arith)
  ]

  publish_all-IsSized : (n : ℕ) (flows : List HttpFlow) → RunIsSized n (publish_all ports flows)
  unfolding publish_all publish_one
  publish_all-IsSized n [] w = tt
  publish_all-IsSized n (f ∷ flows) w =
      seq-IsSized n (publish_one ports f) (publish_all ports flows) (λ w. (tt, tt))
        (publish_all-IsSized n flows) w

  flush-IsSized :
      (n : ℕ) (s : Settings) (batch : List HttpFlow)
      → length batch ≤ n
      → RunIsSized n (flush ports s batch)
  unfolding flush
  flush-IsSized n s [] h w = tt
  flush-IsSized n s (f ∷ batch) h w =
      seq-IsSized n (save_batch_with_retry ports s.max_retries (f ∷ batch))
        (publish_all ports (f ∷ batch)) (retry-IsSized n s.max_retries (f ∷ batch) (omega arith) h)
        (publish_all-IsSized n (f ∷ batch)) w

  -- From a batch that is not full, every save of a run has between one flow and `batch_size` flows.
  pub run-IsSized :
      (s : Settings) (batch flows : List HttpFlow)
      → length batch < s.batch_size
      → (w : W) → All (IsSized s.batch_size) (run ports s batch flows w).1
  unfolding run
  run-IsSized s batch [] h w = flush-IsSized s.batch_size s batch (omega arith) w
  run-IsSized s batch (f ∷ flows) h w =
      let grown = batch ++ f ∷ [] in
      let count = length-append batch (f ∷ []) in
      elim (Bool-cases (leb s.batch_size (length grown))) [
        | inl e ↦ rw e (
            seq-IsSized s.batch_size (flush ports s grown) (run ports s [] flows)
              (flush-IsSized s.batch_size s grown (omega arith))
              (run-IsSized s [] flows (omega arith)) w)
        | inr e ↦ rw e (run-IsSized s grown flows (ground arith) w)
      ]
