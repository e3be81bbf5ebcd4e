-- ===== src/Proxy/Relay/Collect.antt =====
-- `collect_body` of crates/proxy/src/server.rs.
use aiautotest.Common.{
  ℕ, ◌-◌, ◌≤◌, max, ltb, if◌then◌else◌, Bool-cases, usize_max, saturating_add, ◌≡◌, ap, ◌∙◌, inl,
  inr, Bool, true, false, List, [], ◌∷◌, ◌++◌, append_assoc, append-nil, arith, length, take,
  length-append, Text, take-all, take-append_first, take-append_second,
}
use aiautotest.Auth.{Result, ok, err}

-- A frame of the body: data, trailers, or the error that ends it.
pub data Item (Error : Type 0) : Type 0 where
  bytes : Text → Item Error
  trailers : Item Error
  broken : Error → Item Error

module _ {Error : Type 0} where
  -- The bytes so far stand in `collected`.
  unfoldable pub collect_from :
      (max : ℕ) → (collected : Text) → List (Item Error) → Result Error (Text × Bool)
  collect_from max collected [] = ok (collected, false)
  collect_from max collected (trailers ∷ items) = collect_from max collected items
  collect_from max collected (broken e ∷ items) = err e
  collect_from max collected (bytes data_ ∷ items) =
      let rest = collect_from max (collected ++ data_) items in
      if ltb max (saturating_add (length collected) (length data_))
      then ok (collected ++ take (max - length collected) data_, true)
      else rest

  unfoldable pub collect_body : (max : ℕ) → List (Item Error) → Result Error (Text × Bool)
  unfolding collect_from
  collect_body max items = collect_from max [] items

  -- The data of all frames.
  abbrev pub joined : List (Item Error) → Text
  joined [] = []
  joined (bytes b ∷ items) = b ++ joined items
  joined (trailers ∷ items) = joined items
  joined (broken e ∷ items) = joined items

  abbrev pub is_whole : List (Item Error) → Bool
  is_whole [] = true
  is_whole (bytes b ∷ items) = is_whole items
  is_whole (trailers ∷ items) = is_whole items
  is_whole (broken e ∷ items) = false

  collect_from-joined :
      (max : ℕ) (collected : Text) (items : List (Item Error))
      → is_whole items ≡ true
      → length collected ≤ max
      → length (collected ++ joined items) ≤ usize_max
      → collect_from max collected items
        ≡ ok (take max (collected ++ joined items), ltb max (length (collected ++ joined items)))
  unfolding collect_from
  collect_from-joined max collected [] whole room fits =
      rw (append-nil collected) (ground (arith, take-all max collected room))
  collect_from-joined max collected (trailers ∷ items) whole room fits =
      collect_from-joined max collected items whole room fits
  collect_from-joined max collected (broken e ∷ items) whole room fits = cc whole
  collect_from-joined max collected (bytes b ∷ items) whole room fits =
      let shape = append_assoc collected b (joined items) in
      let long = length-append collected (b ++ joined items) in
      let inner = length-append b (joined items) in
      let grown = length-append collected b in
      let second = take-append_second max collected (b ++ joined items) room in
      let first = take-append_first (max - length collected) b (joined items) in
      elim (Bool-cases (ltb max (saturating_add (length collected) (length b)))) [
        | inl over ↦ ground arith
        | inr room_left ↦
            let rest =
              collect_from-joined max (collected ++ b) items whole (ground arith)
                (omega (arith, ap length shape)) in
            rw room_left (rest ∙ rw shape)
      ]

  -- A body that no error ends is collected up to `max` bytes, and reported truncated exactly when it
  -- is longer.
  pub collect_body-joined :
      (max : ℕ) (items : List (Item Error))
      → is_whole items ≡ true
      → length (joined items) ≤ usize_max
      → collect_body max items ≡ ok (take max (joined items), ltb max (length (joined items)))
  unfolding collect_body
  collect_body-joined max items whole fits =
      collect_from-joined max [] items whole (omega arith) fits
