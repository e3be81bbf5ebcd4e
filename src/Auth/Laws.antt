-- ===== src/Auth/Laws.antt =====
-- What a call of the manager keeps, and how many requests it sends. `calls` counts the client's.
use aiautotest.Common.{ℕ, suc, ◌+◌, ◌≤◌, Option, none, some, [], length, if◌then◌else◌, arith, ◌≡◌}
use aiautotest.Auth.{
  Outside, Result, ok, err, LoginFlow, AuthError, Tokens, AuthManager, is_empty, Called,
}

module _ (out : Outside) (calls : out.W → ℕ) where
  open out use {N, W, PortError, send}

  -- `n` requests, or fewer if it failed.
  abbrev pub Sends : ℕ → W → Result (AuthError PortError) Tokens × W → Type 0
  Sends n w (ok tokens, w') = calls w' ≡ calls w + n
  Sends n w (err e, w') = (calls w ≤ calls w') × (calls w' ≤ calls w + n)

  abbrev pub steps_of : Option (LoginFlow N) → ℕ
  steps_of none = 0
  steps_of (some flow) = length flow.steps

  -- A success answers the tokens that are stored from then on, a failure changes nothing; both leave
  -- the login flow. Tokens that are there already are answered without a request.
  abbrev pub Ensures : AuthManager N → W → Called out → Type 0
  Ensures m w (ok tokens, (m', w')) =
      (m'.login_flow ≡ m.login_flow)
      × ((m'.current_tokens ≡ tokens)
          × (calls w' ≡ calls w + (if is_empty m.current_tokens then steps_of m.login_flow else 0)))
  Ensures m w (err e, (m', w')) =
      (m' ≡ m)
      × ((m.current_tokens ≡ [])
          × ((calls w ≤ calls w') × (calls w' ≤ calls w + steps_of m.login_flow)))

  one_more :
      (n : ℕ) (w w' : W) (r : Result (AuthError PortError) Tokens × W)
      → calls w' ≡ calls w + 1
      → Sends n w' r
      → Sends (suc n) w r
  one_more n w w' (ok tokens, v) e s = omega (arith, e, s)
  one_more n w w' (err x, v) e s = omega (arith, e, s.0, s.1)
