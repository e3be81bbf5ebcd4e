-- ===== src/Proxy/Http/Laws.antt =====
-- What `parse_request` takes off a buffer, and that more bytes behind a request change nothing.
use aiautotest.Common.{
  ℕ, zero, suc, ◌+◌, ◌≤◌, ltb, Bool-cases, Option-cases, unwrap_or, ◌≡◌, refl, inl, inr, Option,
  none, some, List, [], ◌∷◌, ◌++◌, arith, length, take, drop, length-append, take-append-drop,
  length-drop, Text, starts_with, take-append_first, drop-append_first, length-starts_with,
}
use native.Mathlib.Nat.{zero-add}
use aiautotest.Proxy.Http.{
  finish_request, head_end_marker, Header, ParsedRequest, find_head_end, content_length,
  request_body, request_with, request_at, parse_request, split_crlf, is_utf8, split_whitespace,
  parse_header_lines,
}

module _ {ℓ} {A : Type ℓ} where
  take-drop_rest :
      (n k : ℕ) (xs : List A)
      → n + k ≤ length xs
      → take k (drop n xs) ++ drop (n + k) xs ≡ drop n xs
  take-drop_rest zero k xs h = rw (zero-add k, take-append-drop k xs)
  take-drop_rest (suc n) k [] h = absurd (omega arith)
  take-drop_rest (suc n) k (x ∷ xs) h =
      let shifted : suc n + k ≡ suc (n + k) = omega arith in
      rw shifted (take-drop_rest n k xs (omega arith))

starts_with-append :
    (p s more : Text) → length p ≤ length s → starts_with p (s ++ more) ≡ starts_with p s
starts_with-append [] s more h = refl
starts_with-append (a ∷ p) [] more h = absurd (omega arith)
starts_with-append (a ∷ p) (b ∷ s) more h = rw (starts_with-append p s more (omega arith))

find_head_end-bound : (s : Text) (n : ℕ) → find_head_end s ≡ some n → n + 4 ≤ length s
unfolding find_head_end
find_head_end-bound [] n h = cc h
find_head_end-bound (a ∷ s) n h = elim (Bool-cases (starts_with head_end_marker (a ∷ s))) [
  | inl e ↦ ground (arith, length-starts_with head_end_marker (a ∷ s) e)
  | inr e ↦ elim (Option-cases (find_head_end s)) [
    | inl none_later ↦ ground arith
    | inr (i, later) ↦ ground (arith, find_head_end-bound s i later)
  ]
]

find_head_end-append :
    (s more : Text) (n : ℕ) → find_head_end s ≡ some n → find_head_end (s ++ more) ≡ some n
unfolding find_head_end
find_head_end-append [] more n h = cc h
find_head_end-append (a ∷ s) more n h =
    let bound = find_head_end-bound (a ∷ s) n h in
    let same = starts_with-append head_end_marker (a ∷ s) more (omega (arith, bound)) in
    elim (Bool-cases (starts_with head_end_marker (a ∷ s))) [
      | inl e ↦ rw (same, e) (ground arith)
      | inr e ↦ elim (Option-cases (find_head_end s)) [
        | inl none_later ↦ ground arith
        | inr (i, later) ↦ rw (same, e, find_head_end-append s more i later) (ground arith)
      ]
    ]

-- What lies between the head and the end of what was consumed is the body.
request_body-rest :
    (start needed : ℕ) (buffer : Text) (body : Option Text)
    → request_body start needed buffer ≡ some body
    → start ≤ length buffer
    → (start + needed ≤ length buffer)
      × (unwrap_or body [] ++ drop (start + needed) buffer ≡ drop start buffer)
unfolding request_body
request_body-rest start needed buffer body h bound = elim (Bool-cases (ltb 0 needed)) [
  | inl e ↦ ground (arith, take-drop_rest start needed buffer)
  | inr e ↦ let none_needed : needed ≡ 0 = ground arith in ground arith
]

request_body-append :
    (start needed : ℕ) (buffer more : Text) (body : Option Text)
    → request_body start needed buffer ≡ some body
    → start ≤ length buffer
    → request_body start needed (buffer ++ more) ≡ some body
unfolding request_body
request_body-append start needed buffer more body h bound =
    let long = length-append buffer more in
    let behind = drop-append_first start buffer more bound in
    let left = length-drop start buffer in
    let same = take-append_first needed (drop start buffer) more in
    ground (arith, long, behind, left, same)

module _ (start : ℕ) (buffer : Text) (bound : start ≤ length buffer) where
  abbrev Consumes : ParsedRequest → Type 0
  Consumes p =
      (p.consumed ≤ length buffer)
      × (unwrap_or p.body [] ++ drop p.consumed buffer ≡ drop start buffer)

  finish_request-Consumes :
      (m t v : Text) (headers : List Header) (o : Option (Option Text)) (p : ParsedRequest)
      → request_body start (content_length headers) buffer ≡ o
      → finish_request m t v start headers o ≡ some p
      → Consumes p
  unfolding finish_request
  finish_request-Consumes m t v headers none p e h = cc h
  finish_request-Consumes m t v headers (some body) p e h =
      let rest = request_body-rest start (content_length headers) buffer body e bound in
      let consumed : start + content_length headers ≡ p.consumed = ground arith in
      let same : body ≡ p.body = ground arith in rw (← consumed, ← same) rest

  finish_request-append :
      (more m t v : Text) (headers : List Header) (o : Option (Option Text)) (p : ParsedRequest)
      → request_body start (content_length headers) buffer ≡ o
      → finish_request m t v start headers o ≡ some p
      → finish_request m t v start headers
          (request_body start (content_length headers) (buffer ++ more))
        ≡ some p
  unfolding finish_request
  finish_request-append more m t v headers none p e h = cc h
  finish_request-append more m t v headers (some body) p e h =
      rw (request_body-append start (content_length headers) buffer more body e bound) h

  request_with-Consumes :
      (words : List Text) (o : Option (List Header)) (p : ParsedRequest)
      → request_with words start buffer o ≡ some p
      → Consumes p
  unfolding request_with
  request_with-Consumes (m ∷ t ∷ v ∷ ws) (some headers) p h =
      finish_request-Consumes m t v headers _ p refl h
  request_with-Consumes (m ∷ t ∷ v ∷ ws) none p h = cc h
  request_with-Consumes (m ∷ t ∷ []) o p h = cc h
  request_with-Consumes (m ∷ []) o p h = cc h
  request_with-Consumes [] o p h = cc h

  request_with-append :
      (more : Text) (words : List Text) (o : Option (List Header)) (p : ParsedRequest)
      → request_with words start buffer o ≡ some p
      → request_with words start (buffer ++ more) o ≡ some p
  unfolding request_with
  request_with-append more (m ∷ t ∷ v ∷ ws) (some headers) p h =
      finish_request-append more m t v headers _ p refl h
  request_with-append more (m ∷ t ∷ v ∷ ws) none p h = cc h
  request_with-append more (m ∷ t ∷ []) o p h = cc h
  request_with-append more (m ∷ []) o p h = cc h
  request_with-append more [] o p h = cc h

request_at-append :
    (o : Option ℕ) (buffer more : Text) (p : ParsedRequest)
    → find_head_end buffer ≡ o
    → request_at o buffer ≡ some p
    → request_at o (buffer ++ more) ≡ some p
unfolding request_at
request_at-append none buffer more p e h = cc h
request_at-append (some n) buffer more p e h =
    let bound = find_head_end-bound buffer n e in
    let head = take-append_first n buffer more (omega (arith, bound)) in
    let parse =
      request_with-append (n + 4) buffer bound more
        (split_whitespace (split_crlf (take n buffer)).0)
        (parse_header_lines (split_crlf (take n buffer)).1) p in
    rw head (elim (Bool-cases (is_utf8 (take n buffer))) [
      | inl u ↦ rw (u, request_at) (parse (rw u at h))
      | inr u ↦ ground arith
    ])

-- Once `parse_request` returns a request, more bytes behind it change nothing of what it returns.
pub parse_request-append :
    (buffer more : Text) (p : ParsedRequest)
    → parse_request buffer ≡ some p
    → parse_request (buffer ++ more) ≡ some p
unfolding parse_request
parse_request-append buffer more p h = elim (Option-cases (find_head_end buffer)) [
  | inl e ↦ ground arith
  | inr (n, e) ↦
      rw (find_head_end-append buffer more n e)
        (request_at-append (some n) buffer more p e (rw e at h))
]

request_at-Consumes :
    (n : ℕ) (buffer : Text) (p : ParsedRequest)
    → (bound : n + 4 ≤ length buffer) → request_at (some n) buffer ≡ some p
    → Consumes (n + 4) buffer bound p
unfolding request_at
request_at-Consumes n buffer p bound h = elim (Bool-cases (is_utf8 (take n buffer))) [
  | inl u ↦
      request_with-Consumes (n + 4) buffer bound (split_whitespace (split_crlf (take n buffer)).0)
        (parse_header_lines (split_crlf (take n buffer)).1) p (rw u at h)
  | inr u ↦ ground arith
]

-- A request that `parse_request` returns lies in the buffer: the head ends at the first empty line,
-- what was consumed is no more than there is, and the body with what was not consumed is all that
-- stands behind the head.
pub parse_request-Consumes :
    (buffer : Text) (p : ParsedRequest)
    → parse_request buffer ≡ some p
    → (n : ℕ) × (find_head_end buffer ≡ some n)
      × (p.consumed ≤ length buffer)
      × (unwrap_or p.body [] ++ drop p.consumed buffer ≡ drop (n + 4) buffer)
unfolding parse_request
parse_request-Consumes buffer p h = elim (Option-cases (find_head_end buffer)) [
  | inl e ↦ ground arith
  | inr (n, e) ↦
      let taken = request_at-Consumes n buffer p (find_head_end-bound buffer n e) (rw e at h) in
      (n, e, taken.0, taken.1)
]
