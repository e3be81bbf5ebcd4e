-- ===== src/Capture/Writer/Laws.antt =====
-- What reaches the repository: every flow once, in order, in bounded batches.
use aiautotest.Common.{
  ℕ, zero, suc, ◌≡◌, refl, sym, ap, subst, ◌≢◌, ◌∙◌, ◌⊎◌, inl, inr, List, [], ◌∷◌, ◌++◌, length,
  leb, append-nil, append_assoc, Bool-cases,
}
use aiautotest.Domain.Flow.{HttpFlow}
use aiautotest.Capture.Writer.{
  SaveOutcome, CaptureError, saved, transient, permanent, Call, save, publish, Result, ok, err,
  Ports, Settings, Run, ◌>>◌, save_batch_with_retry, publish_one, publish_all, flush, run,
}

-- What the successful saves of a log hold. A save that fails stores nothing.
unfoldable pub saved_flows : List Call → List HttpFlow
saved_flows [] = []
saved_flows (save flows saved ∷ log) = flows ++ saved_flows log
saved_flows (_ ∷ log) = saved_flows log

saved_flows-append : (xs ys : List Call) → saved_flows (xs ++ ys) ≡ saved_flows xs ++ saved_flows ys
unfolding saved_flows
saved_flows-append [] ys = refl
saved_flows-append (save flows saved ∷ xs) ys =
    ap (◌++◌ flows) (saved_flows-append xs ys) ∙ sym (append_assoc flows _ _)
saved_flows-append (save flows transient ∷ xs) ys = saved_flows-append xs ys
saved_flows-append (save flows permanent ∷ xs) ys = saved_flows-append xs ys
saved_flows-append (publish f b ∷ xs) ys = saved_flows-append xs ys

pub Result-cases : (r : Result) → (r ≡ ok) ⊎ ((e : CaptureError) × (r ≡ err e))
Result-cases ok = inl refl
Result-cases (err e) = inr (e, refl)

pub SaveOutcome-cases : (o : SaveOutcome) → (o ≡ saved) ⊎ ((o ≡ transient) ⊎ (o ≡ permanent))
SaveOutcome-cases saved = inl refl
SaveOutcome-cases transient = inr (inl refl)
SaveOutcome-cases permanent = inr (inr refl)

-- `flows` is saved up to a rest, which is empty if the run succeeded.
pub record Saves (flows : List HttpFlow) (r : Result) (log : List Call) : Type 0 where
  pub rest : List HttpFlow
  pub prefix : saved_flows log ++ rest ≡ flows
  pub complete : r ≡ ok → rest ≡ []

module _ {W : Type 0} (ports : Ports W) where
  open ports use {save_batch, publish_event}

  abbrev pub RunSaves : List HttpFlow → Run ports → Type 0
  RunSaves flows m = (w : W) → Saves flows (m w).0 (m w).1

  seq-Saves :
      (xs ys : List HttpFlow) (m k : Run ports)
      → RunSaves xs m
      → RunSaves ys k
      → RunSaves (xs ++ ys) (◌>>◌ ports m k)
  unfolding ◌>>◌
  seq-Saves xs ys m k hm hk w = elim (Result-cases (m w).0) [
    | inl e ↦
        let h = hm w in
        let h' = hk (m w).2 in
        let whole : saved_flows (m w).1 ≡ xs =
          sym (append-nil _) ∙ ap (◌++◌ (saved_flows (m w).1)) (sym (h.complete e)) ∙ h.prefix in
        rw (e, ◌>>◌)
          (record {
            rest = h'.rest;
            prefix =
                ap (λ q. q ++ h'.rest) (saved_flows-append (m w).1 (k (m w).2).1)
                ∙ append_assoc (saved_flows (m w).1) (saved_flows (k (m w).2).1) h'.rest
                ∙ ap (λ q. q ++ (saved_flows (k (m w).2).1 ++ h'.rest)) whole
                ∙ ap (◌++◌ xs) h'.prefix;
            complete = h'.complete;
          })
    | inr (e, q) ↦
        let h = hm w in
        rw (q, ◌>>◌)
          (record {
            rest = h.rest ++ ys;
            prefix =
                sym (append_assoc (saved_flows (m w).1) h.rest ys) ∙ ap (λ z. z ++ ys) h.prefix;
            complete = λ z. cc;
          })
  ]

  all_saved : (flows : List HttpFlow) → Saves flows ok (save flows saved ∷ [])
  unfolding saved_flows
  all_saved flows = record {
    rest = [];
    prefix = append-nil _ ∙ append-nil flows;
    complete = λ h. refl;
  }

  failed :
      (flows : List HttpFlow) (e : CaptureError) (o : SaveOutcome)
      → o ≢ saved
      → Saves flows (err e) (save flows o ∷ [])
  unfolding saved_flows
  failed flows e saved h = absurd (h refl)
  failed flows e transient h = record { rest = flows; prefix = refl; complete = λ z. cc }
  failed flows e permanent h = record { rest = flows; prefix = refl; complete = λ z. cc }

  retry-Saves :
      (left : ℕ) (flows : List HttpFlow) → RunSaves flows (save_batch_with_retry ports left flows)
  unfolding save_batch_with_retry saved_flows
  retry-Saves zero flows w = elim (SaveOutcome-cases (save_batch flows w).0) [
    | inl e ↦ rw (e, save_batch_with_retry) (all_saved flows)
    | inr (inl e) ↦ rw (e, save_batch_with_retry) (failed flows _ transient (λ z. cc))
    | inr (inr e) ↦ rw (e, save_batch_with_retry) (failed flows _ permanent (λ z. cc))
  ]
  retry-Saves (suc left) flows w = elim (SaveOutcome-cases (save_batch flows w).0) [
    | inl e ↦ rw (e, save_batch_with_retry) (all_saved flows)
    | inr (inl e) ↦
        let h = retry-Saves left flows (save_batch flows w).1 in
        rw (e, save_batch_with_retry)
          (record { rest = h.rest; prefix = h.prefix; complete = h.complete })
    | inr (inr e) ↦ rw (e, save_batch_with_retry) (failed flows _ permanent (λ z. cc))
  ]

  nothing : (r : Result) → Saves [] r []
  unfolding saved_flows
  nothing r = record { rest = []; prefix = refl; complete = λ h. refl }

  publish_all-Saves : (flows : List HttpFlow) → RunSaves [] (publish_all ports flows)
  unfolding publish_all publish_one saved_flows
  publish_all-Saves [] w = nothing ok
  publish_all-Saves (f ∷ flows) w =
      seq-Saves [] [] (publish_one ports f) (publish_all ports flows)
        (λ w. record { rest = []; prefix = refl; complete = λ h. refl }) (publish_all-Saves flows) w

  resaves : {xs ys : List HttpFlow} → xs ≡ ys → (m : Run ports) → RunSaves xs m → RunSaves ys m
  resaves e m h w = subst (λ q. Saves q (m w).0 (m w).1) e (h w)

  flush-Saves : (s : Settings) (batch : List HttpFlow) → RunSaves batch (flush ports s batch)
  unfolding flush
  flush-Saves s [] w = nothing ok
  flush-Saves s (f ∷ batch) w =
      resaves (append-nil (f ∷ batch))
        (◌>>◌ ports (save_batch_with_retry ports s.max_retries (f ∷ batch))
          (publish_all ports (f ∷ batch)))
        (seq-Saves (f ∷ batch) [] (save_batch_with_retry ports s.max_retries (f ∷ batch))
          (publish_all ports (f ∷ batch)) (retry-Saves s.max_retries (f ∷ batch))
          (publish_all-Saves (f ∷ batch)))
        w

  -- Whatever the repository and the publisher answer, the flows that get stored are a prefix of the
  -- current batch and the flows that come in, each once and in order; if the run succeeds it is all of them.
  pub run-Saves :
      (s : Settings) (batch flows : List HttpFlow)
      → RunSaves (batch ++ flows) (run ports s batch flows)
  unfolding run
  run-Saves s batch [] w = rw append-nil (flush-Saves s batch w)
  run-Saves s batch (f ∷ flows) w =
      let grown = batch ++ f ∷ [] in
      let split = append_assoc batch (f ∷ []) flows in
      elim (Bool-cases (leb s.batch_size (length grown))) [
        | inl e ↦
            rw (e, ← split)
              (seq-Saves grown flows (flush ports s grown) (run ports s [] flows)
                (flush-Saves s grown) (run-Saves s [] flows) w)
        | inr e ↦ rw (e, ← split) (run-Saves s grown flows w)
      ]
