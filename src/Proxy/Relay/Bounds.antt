-- ===== src/Proxy/Relay/Bounds.antt =====
-- How often a relayed body is captured, and how much of it.
use aiautotest.Common.{
  ℕ, ◌+◌, ◌-◌, ◌≤◌, max, ltb, ◌≡◌, refl, subst, ◌∙◌, Bool, true, Option, none, some, List, [], ◌∷◌,
  ◌++◌, arith, length, take, length-append, All, All-append, length-take, Text, if-intro,
}
use aiautotest.Proxy.Relay.{
  TeeBody, new, finalize, capture_frame, poll_frame, run, reaches, Poll, frame, failed, finished,
  pending, spawn_capture, taken_body,
}

module _ {Ctx : Type 0} where
  has_ctx : Option Ctx → ℕ
  has_ctx none = 0
  has_ctx (some ctx) = 1

  -- At most one capture, and no capture above the cap.
  record IsValid (b : TeeBody Ctx) : Type 0 where
    pub once : length b.spawned + has_ctx b.ctx ≤ 1
    pub held : length b.captured ≤ b.max_capture
    pub capped : All (λ s. length s.1 ≤ b.max_capture) b.spawned

  spawn_capture-length :
      (o : Option Ctx) (body : Text) (spawned : List (Ctx × Text))
      → length (spawn_capture o body spawned) ≡ length spawned + has_ctx o
  unfolding spawn_capture has_ctx
  spawn_capture-length none body spawned = omega arith
  spawn_capture-length (some ctx) body spawned = length-append spawned ((ctx, body) ∷ [])

  spawn_capture-All :
      (max : ℕ) (o : Option Ctx) (body : Text) (spawned : List (Ctx × Text))
      → length body ≤ max
      → All (λ s. length s.1 ≤ max) spawned
      → All (λ s. length s.1 ≤ max) (spawn_capture o body spawned)
  unfolding spawn_capture
  spawn_capture-All max none body spawned h hs = hs
  spawn_capture-All max (some ctx) body spawned h hs = All-append _ spawned _ hs (h, tt)

  taken_body-length : (o : Option Ctx) (body : Text) → length (taken_body o body) ≤ length body
  unfolding taken_body
  taken_body-length none body = omega arith
  taken_body-length (some ctx) body = omega arith

  finalize-IsValid : (b : TeeBody Ctx) → IsValid b → IsValid (finalize b)
  unfolding finalize has_ctx
  finalize-IsValid b v =
      if-intro IsValid b.done b _ (λ e. v)
        (λ e.
          let count = spawn_capture-length b.ctx b.captured b.spawned in
          let kept = taken_body-length b.ctx b.captured in
          let old = v.held in
          let once = v.once in
          record {
            once = omega (arith, count, once);
            held = omega (arith, kept, old);
            capped = spawn_capture-All b.max_capture b.ctx b.captured b.spawned v.held v.capped;
          })

  -- A valid body that takes up more bytes, within the cap.
  grow-IsValid :
      (b : TeeBody Ctx) (bytes : Text) (truncated : Bool)
      → IsValid b
      → length bytes ≤ b.max_capture - length b.captured
      → IsValid (record b { captured = b.captured ++ bytes; truncated = truncated })
  grow-IsValid b bytes truncated v h =
      let long = length-append b.captured bytes in
      let old = v.held in
      record { once = v.once; held = omega (arith, long, old, h); capped = v.capped }

  capture_frame-IsValid : (d : Text) (b : TeeBody Ctx) → IsValid b → IsValid (capture_frame d b)
  unfolding capture_frame
  capture_frame-IsValid d b v =
      let short = length-take (b.max_capture - length b.captured) d in
      let cut =
        grow-IsValid b (take (b.max_capture - length b.captured) d) true v (omega (arith, short)) in
      if-intro IsValid b.done b _ (λ e. v)
        (λ e.
          if-intro IsValid (ltb (b.max_capture - length b.captured) (length d)) _ _
            (λ over. finalize-IsValid _ cut)
            (λ fits.
              let grown = grow-IsValid b d b.truncated v (ground arith) in
              if-intro IsValid (reaches (length (b.captured ++ d)) b.expected) _ _
                (λ reached. finalize-IsValid _ grown) (λ open_still. grown)))

  poll_frame-IsValid : (p : Poll) (b : TeeBody Ctx) → IsValid b → IsValid (poll_frame p b).0
  unfolding poll_frame
  poll_frame-IsValid (frame (some d)) b v = capture_frame-IsValid d b v
  poll_frame-IsValid (frame none) b v = v
  poll_frame-IsValid failed b v = v
  poll_frame-IsValid finished b v = finalize-IsValid b v
  poll_frame-IsValid pending b v = v

  run-IsValid : (ps : List Poll) (b : TeeBody Ctx) → IsValid b → IsValid (run ps b).0
  unfolding run
  run-IsValid [] b v = v
  run-IsValid (p ∷ ps) b v = run-IsValid ps (poll_frame p b).0 (poll_frame-IsValid p b v)

  run-max_capture : (ps : List Poll) (b : TeeBody Ctx) → (run ps b).0.max_capture ≡ b.max_capture
  unfolding run poll_frame capture_frame finalize
  run-max_capture [] b = refl
  run-max_capture (frame (some d) ∷ ps) b = run-max_capture ps _ ∙ ground arith
  run-max_capture (frame none ∷ ps) b = run-max_capture ps b
  run-max_capture (failed ∷ ps) b = run-max_capture ps b
  run-max_capture (finished ∷ ps) b = run-max_capture ps _ ∙ ground arith
  run-max_capture (pending ∷ ps) b = run-max_capture ps b

  new-IsValid :
      (max_capture : ℕ) (expected : Option ℕ) (ctx : Ctx)
      → IsValid (new max_capture expected (some ctx))
  unfolding new has_ctx
  new-IsValid max_capture expected ctx = record {
    once = omega arith;
    held = omega arith;
    capped = tt;
  }

  -- Whatever the upstream body does, at most one capture is spawned, and no captured body is longer
  -- than the cap.
  pub run-bounds :
      (ps : List Poll) (max_capture : ℕ) (expected : Option ℕ) (ctx : Ctx)
      → (length (run ps (new max_capture expected (some ctx))).0.spawned ≤ 1)
        × All
            (λ s. length s.1 ≤ max_capture)
            (run ps (new max_capture expected (some ctx))).0.spawned
  unfolding new
  run-bounds ps max_capture expected ctx =
      let start = new max_capture expected (some ctx) in
      let v = run-IsValid ps start (new-IsValid max_capture expected ctx) in
      let once = v.once in
      (
        omega (arith, once),
        subst (λ m. All (λ s. length s.1 ≤ m) (run ps start).0.spawned) (run-max_capture ps start)
            v.capped,
      )
