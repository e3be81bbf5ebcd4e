-- ===== src/Proxy/Relay/Laws.antt =====
-- What is captured of a relayed body, and what the client gets of it.
use aiautotest.Common.{
  ℕ, ◌+◌, ◌-◌, ◌≤◌, max, ltb, Bool-cases, ◌≡◌, refl, ap, ◌∙◌, inl, inr, Bool, true, false, Option,
  none, some, List, [], ◌∷◌, ◌++◌, map, append_assoc, append-nil, arith, length, take,
  length-append, Text, take-all, take-append_first, take-append_second,
}
use native.Mathlib.Nat.{zero-add}
use aiautotest.Proxy.Relay.{
  TeeBody, new, finalize, capture_frame, poll_frame, run, reaches, Poll, frame, failed, finished,
  pending, spawn_capture, taken_body,
}

abbrev pub frames : List Text → List Poll
frames [] = []
frames (d ∷ ds) = frame (some d) ∷ frames ds

-- What the client gets for a poll: the frame as it is, and an end for an error.
abbrev pub relayed : Poll → Poll
relayed (frame d) = frame d
relayed failed = finished
relayed finished = finished
relayed pending = pending

abbrev pub joined : List Text → Text
joined [] = []
joined (d ∷ ds) = d ++ joined ds

-- The declared length, if there is one, is that of the whole body.
abbrev pub Declares : Option ℕ → ℕ → Type 0
Declares none len = Unit
Declares (some expected) len = expected ≡ len

reaches-Declares :
    (expected : Option ℕ) (len total : ℕ)
    → Declares expected total
    → reaches len expected ≡ true
    → total ≤ len
unfolding reaches
reaches-Declares none len total d h = cc h
reaches-Declares (some n) len total d h = ground arith

empty-length {ℓ} : {A : Type ℓ} (xs : List A) → length xs ≤ 0 → xs ≡ []
empty-length [] h = refl
empty-length (x ∷ xs) h = absurd (omega arith)

module _ {Ctx : Type 0} where
  -- A body whose capture is open, with what it holds so far.
  abbrev opened : (max : ℕ) → Option ℕ → Ctx → Text → TeeBody Ctx
  opened max expected ctx captured = record {
    captured = captured;
    truncated = false;
    max_capture = max;
    expected = expected;
    done = false;
    ctx = some ctx;
    spawned = [];
  }

  abbrev closed : (truncated : Bool) → (max : ℕ) → Option ℕ → Ctx → Text → TeeBody Ctx
  closed truncated max expected ctx body = record {
    captured = [];
    truncated = truncated;
    max_capture = max;
    expected = expected;
    done = true;
    ctx = none;
    spawned = (ctx, body) ∷ [];
  }

  capture_frame-done : (d : Text) (b : TeeBody Ctx) → b.done ≡ true → capture_frame d b ≡ b
  unfolding capture_frame
  capture_frame-done d b h = rw h

  finalize-done : (b : TeeBody Ctx) → b.done ≡ true → finalize b ≡ b
  unfolding finalize
  finalize-done b h = rw h

  module _ (max : ℕ) (expected : Option ℕ) (ctx : Ctx) (captured d : Text) where
    capture_frame-over :
        ltb (max - length captured) (length d) ≡ true
        → capture_frame d (opened max expected ctx captured)
          ≡ closed true max expected ctx (captured ++ take (max - length captured) d)
    unfolding capture_frame finalize spawn_capture taken_body
    capture_frame-over h = rw h

    capture_frame-reaches :
        ltb (max - length captured) (length d) ≡ false
        → reaches (length (captured ++ d)) expected ≡ true
        → capture_frame d (opened max expected ctx captured)
          ≡ closed false max expected ctx (captured ++ d)
    unfolding capture_frame finalize spawn_capture taken_body
    capture_frame-reaches h k = rw (h, k)

    capture_frame-grows :
        ltb (max - length captured) (length d) ≡ false
        → reaches (length (captured ++ d)) expected ≡ false
        → capture_frame d (opened max expected ctx captured)
          ≡ opened max expected ctx (captured ++ d)
    unfolding capture_frame
    capture_frame-grows h k = rw (h, k)

  run-done : (ps : List Poll) (b : TeeBody Ctx) → b.done ≡ true → (run ps b).0 ≡ b
  unfolding run poll_frame capture_frame finalize
  run-done [] b h = refl
  run-done (frame (some d) ∷ ps) b h = rw (capture_frame-done d b h) (run-done ps b h)
  run-done (frame none ∷ ps) b h = run-done ps b h
  run-done (failed ∷ ps) b h = run-done ps b h
  run-done (finished ∷ ps) b h = rw (finalize-done b h) (run-done ps b h)
  run-done (pending ∷ ps) b h = run-done ps b h

  run-next :
      (d : Text) (ps : List Poll) (b b' : TeeBody Ctx)
      → capture_frame d b ≡ b'
      → (run (frame (some d) ∷ ps) b).0.spawned ≡ (run ps b').0.spawned
  unfolding run poll_frame
  run-next d ps b b' e = ap (λ t. (run ps t).0.spawned) e

  run-opened :
      (ds : List Text) (max : ℕ) (expected : Option ℕ) (ctx : Ctx) (captured : Text)
      → Declares expected (length captured + length (joined ds))
      → length captured ≤ max
      → (run (frames ds ++ finished ∷ []) (opened max expected ctx captured)).0.spawned
        ≡ (ctx, take max (captured ++ joined ds)) ∷ []
  unfolding run poll_frame
  run-opened [] max expected ctx captured declared room =
      rw (append-nil captured) (rw (take-all max captured room))
  run-opened (d ∷ ds) max expected ctx captured declared room =
      let long = length-append captured d in
      let inner = length-append d (joined ds) in
      let rest = frames ds ++ finished ∷ [] in
      let second = take-append_second max captured (d ++ joined ds) room in
      elim (Bool-cases (ltb (max - length captured) (length d))) [
        | inl over ↦
            let cut = take-append_first (max - length captured) d (joined ds) (ground arith) in
            let stays = run-done rest (closed true max expected ctx _) refl in
            run-next d rest (opened max expected ctx captured) _
              (capture_frame-over max expected ctx captured d over)
            ∙ ap TeeBody.spawned stays
            ∙ rw (second, cut)
        | inr fits ↦ elim (Bool-cases (reaches (length (captured ++ d)) expected)) [
          | inl reached ↦
              let total = reaches-Declares expected (length (captured ++ d)) _ declared reached in
              let no_more = empty-length (joined ds) (omega (arith, total, long, inner)) in
              let stays = run-done rest (closed false max expected ctx (captured ++ d)) refl in
              let within : length (captured ++ d) ≤ max = ground (arith, long) in
              run-next d rest (opened max expected ctx captured) _
                (capture_frame-reaches max expected ctx captured d fits reached)
              ∙ ap TeeBody.spawned stays
              ∙ rw (no_more, append-nil d, take-all max (captured ++ d) within)
          | inr open_still ↦
              let total : length captured + length (d ++ joined ds)
                  ≡ length (captured ++ d) + length (joined ds) =
                omega (arith, long, inner) in
              let shape = append_assoc captured d (joined ds) in
              let later =
                run-opened ds max expected ctx (captured ++ d) (rw total at declared)
                  (ground (arith, long)) in
              run-next d rest (opened max expected ctx captured) _
                (capture_frame-grows max expected ctx captured d fits open_still)
              ∙ later
              ∙ rw shape
        ]
      ]

  -- A body that the upstream ends, and whose declared length is its own, is captured exactly once: its
  -- first `max_capture` bytes, at whatever places it was cut into frames.
  pub run-captures :
      (ds : List Text) (max_capture : ℕ) (expected : Option ℕ) (ctx : Ctx)
      → Declares expected (length (joined ds))
      → (run (frames ds ++ finished ∷ []) (new max_capture expected (some ctx))).0.spawned
        ≡ (ctx, take max_capture (joined ds)) ∷ []
  unfolding new
  run-captures ds max_capture expected ctx declared =
      run-opened ds max_capture expected ctx [] (rw (zero-add (length (joined ds))) declared)
        (omega arith)

  pub run-relays : (ps : List Poll) (b : TeeBody Ctx) → (run ps b).1 ≡ map relayed ps
  unfolding run poll_frame
  run-relays [] b = refl
  run-relays (frame (some d) ∷ ps) b = rw (run-relays ps (capture_frame d b))
  run-relays (frame none ∷ ps) b = rw (run-relays ps b)
  run-relays (failed ∷ ps) b = rw (run-relays ps b)
  run-relays (finished ∷ ps) b = rw (run-relays ps (finalize b))
  run-relays (pending ∷ ps) b = rw (run-relays ps b)

  run-failed_from :
      (ds : List Text) (max : ℕ) (ctx : Ctx) (captured : Text)
      → length captured + length (joined ds) ≤ max
      → (run (frames ds ++ failed ∷ []) (opened max none ctx captured)).0.spawned ≡ []
  unfolding run poll_frame
  run-failed_from [] max ctx captured fits = refl
  run-failed_from (d ∷ ds) max ctx captured fits =
      let long = length-append captured d in
      let inner = length-append d (joined ds) in
      run-next d (frames ds ++ failed ∷ []) (opened max none ctx captured) _
        (capture_frame-grows max none ctx captured d (ground (arith, inner)) refl)
      ∙ run-failed_from ds max ctx (captured ++ d) (omega (arith, long, inner, fits))

  -- A body that fails before its end leaves no capture behind, however much of it arrived.
  pub run-failed :
      (ds : List Text) (max_capture : ℕ) (ctx : Ctx)
      → length (joined ds) ≤ max_capture
      → (run (frames ds ++ failed ∷ []) (new max_capture none (some ctx))).0.spawned ≡ []
  unfolding new
  run-failed ds max_capture ctx fits = run-failed_from ds max_capture ctx [] (omega (arith, fits))
