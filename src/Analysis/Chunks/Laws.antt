-- ===== src/Analysis/Chunks/Laws.antt =====
-- How far the search of a page goes, and where the chunks that it finds stand in the page.
use aiautotest.Common.{
  ℕ, zero, suc, ◌+◌, ◌≤◌, ◌<◌, ◌==◌, Bool-cases, Option-cases, ◌≡◌, refl, sym, ap, subst, ◌∙◌, ◌⊎◌,
  inl, inr, true, Option, none, some, List, [], ◌∷◌, ◌++◌, append_assoc, arith, length, take, drop,
  take-append-drop, length-take, length-drop, Text, text, starts_with, contains_text, if-intro,
  length-starts_with,
}
use aiautotest.Workflow.Json.{Value}
use aiautotest.Analysis.Chunks.{
  Mode, outside, in_string, escaped, Step, go, close, underflow, closed, step, Scanned, ended,
  unclosed, overflowed, one_more, scan, balanced_bracket_end, needle, find_needle, Outcome, found,
  depth_overflow, out_of_fuel, add_chunk, chunk_of, search, extract_rsc_chunks,
}

-- The depth stays positive until the expression is closed.
abbrev IsOpen : Step → Type 0
IsOpen (go depth mode) = 0 < depth
IsOpen close = Unit
IsOpen underflow = ⊥

closed-IsOpen : (depth : ℕ) → 0 < depth → IsOpen (closed depth)
unfolding closed
closed-IsOpen zero h = absurd (omega arith)
closed-IsOpen (suc zero) h = tt
closed-IsOpen (suc (suc depth)) h = omega arith

step-IsOpen : (depth : ℕ) (mode : Mode) (byte : ℕ) → 0 < depth → IsOpen (step depth mode byte)
unfolding step
step-IsOpen depth escaped byte h = h
step-IsOpen depth in_string byte h =
    if-intro IsOpen (byte == b'\\') _ _ (λ e. h)
      (λ e.
        if-intro IsOpen (byte == b'"') (go depth outside) (go depth in_string) (λ f. h) (λ f. h))
step-IsOpen depth outside byte h =
    if-intro IsOpen (byte == b'"') (go depth in_string) _ (λ e. h)
      (λ e.
        if-intro IsOpen (byte == b'[') (go (suc depth) outside) _ (λ f. omega arith)
          (λ f.
            if-intro IsOpen (byte == b']') (closed depth) (go depth outside)
              (λ g. closed-IsOpen depth h) (λ g. h)))

abbrev Fits : Text → Scanned → Type 0
Fits s (ended n) = n ≤ length s
Fits s unclosed = Unit
Fits s overflowed = ⊥

one_more-Fits : (b : ℕ) (s : Text) (r : Scanned) → Fits s r → Fits (b ∷ s) (one_more r)
unfolding one_more
one_more-Fits b s (ended n) h = omega arith
one_more-Fits b s unclosed h = tt
one_more-Fits b s overflowed h = h

Step-cases :
    (k : Step)
    → ((depth : ℕ) × (mode : Mode) × (k ≡ go depth mode)) ⊎ ((k ≡ close) ⊎ (k ≡ underflow))
Step-cases (go depth mode) = inl (depth, mode, refl)
Step-cases close = inr (inl refl)
Step-cases underflow = inr (inr refl)

scan-Fits : (s : Text) (depth : ℕ) (mode : Mode) → 0 < depth → Fits s (scan depth mode s)
unfolding scan
scan-Fits [] depth mode h = tt
scan-Fits (b ∷ s) depth mode h =
    let is_open = step-IsOpen depth mode b h in
    elim (Step-cases (step depth mode b)) [
      | inl (depth', mode', e) ↦
          rw (e, scan) (one_more-Fits b s _ (scan-Fits s depth' mode' (subst IsOpen e is_open)))
      | inr (inl e) ↦ rw (e, scan) (omega arith)
      | inr (inr e) ↦ absurd (subst IsOpen e is_open)
    ]

balanced_bracket_end-Fits : (s : Text) → Fits s (balanced_bracket_end s)
unfolding balanced_bracket_end scan step
balanced_bracket_end-Fits [] = tt
balanced_bracket_end-Fits (b ∷ s) = elim (Bool-cases (b == b'[')) [
  | inl e ↦
      let bracket : b ≡ b'[' = ground arith in
      rw bracket (one_more-Fits b'[' s _ (scan-Fits s 1 outside (omega arith)))
  | inr e ↦ rw e tt
]

find_needle-bound : (s : Text) (n : ℕ) → find_needle s ≡ some n → n + length needle ≤ length s
unfolding find_needle
find_needle-bound [] n h = cc h
find_needle-bound (a ∷ s) n h = elim (Bool-cases (starts_with needle (a ∷ s))) [
  | inl e ↦ ground (arith, length-starts_with needle (a ∷ s) e)
  | inr e ↦ elim (Option-cases (find_needle s)) [
    | inl none_later ↦ ground arith
    | inr (i, later) ↦ ground (arith, find_needle-bound s i later)
  ]
]

Scanned-cases : (r : Scanned) → ((n : ℕ) × (r ≡ ended n)) ⊎ ((r ≡ unclosed) ⊎ (r ≡ overflowed))
Scanned-cases (ended n) = inl (n, refl)
Scanned-cases unclosed = inr (inl refl)
Scanned-cases overflowed = inr (inr refl)

starts_with-drop : (p s : Text) → starts_with p s ≡ true → s ≡ p ++ drop (length p) s
starts_with-drop [] s h = refl
starts_with-drop (a ∷ p) [] h = cc h
starts_with-drop (a ∷ p) (b ∷ s) h =
    let same : a ≡ b = ground arith in
    let rest = starts_with-drop p s (ground arith) in cc (same, rest)

-- What `find_needle` finds stands at its offset.
find_needle-splits :
    (s : Text) (n : ℕ)
    → find_needle s ≡ some n
    → s ≡ take n s ++ (needle ++ drop (n + length needle) s)
unfolding find_needle
find_needle-splits [] n h = cc h
find_needle-splits (c ∷ s) n h = elim (Bool-cases (starts_with needle (c ∷ s))) [
  | inl e ↦ let here : n ≡ 0 = ground arith in rw here (starts_with-drop needle (c ∷ s) e)
  | inr e ↦ elim (Option-cases (find_needle s)) [
    | inl none_later ↦ ground arith
    | inr (i, later) ↦
        let there : n ≡ suc i = ground arith in
        let shift : suc i + length needle ≡ suc (i + length needle) = omega arith in
        rw (there, shift) (ap (λ t. c ∷ t) (find_needle-splits s i later))
  ]
]

module _ {N : Type 0} (from_str : Text → Option (Value N)) where
  -- The chunks of a page, in order, each of a call of its own: the page goes on, behind any text, with
  -- the needle and a bracket expression that is the chunk's argument, and the chunks that follow come
  -- from the page behind it.
  pub data Comes : List Text → (page : Text) → Type 0 where
    no_more : (page : Text) → Comes [] page
    call :
        (before argument rest chunk : Text) (chunks : List Text)
        → balanced_bracket_end (argument ++ rest) ≡ ended (length argument)
        → chunk_of from_str argument ≡ some chunk
        → Comes chunks rest
        → Comes (chunk ∷ chunks) (before ++ (needle ++ (argument ++ rest)))

  Comes-append :
      (before page : Text) (chunks : List Text) → Comes chunks page → Comes chunks (before ++ page)
  Comes-append before _ _ (no_more page) = no_more (before ++ page)
  Comes-append before _ _ (call x argument rest chunk chunks ends is_chunk h) =
      subst (Comes (chunk ∷ chunks)) (append_assoc before x _)
        (call (before ++ x) argument rest chunk chunks ends is_chunk h)

  abbrev pub IsFound : Text → Outcome → Type 0
  IsFound page (found chunks) = Comes chunks page
  IsFound page depth_overflow = ⊥
  IsFound page out_of_fuel = ⊥

  skip-IsFound : (before page : Text) (r : Outcome) → IsFound page r → IsFound (before ++ page) r
  skip-IsFound before page (found chunks) h = Comes-append before page chunks h
  skip-IsFound before page depth_overflow h = h
  skip-IsFound before page out_of_fuel h = h

  add_chunk-IsFound :
      (before argument rest : Text) (o : Option Text) (r : Outcome)
      → balanced_bracket_end (argument ++ rest) ≡ ended (length argument)
      → chunk_of from_str argument ≡ o
      → IsFound rest r
      → IsFound (before ++ (needle ++ (argument ++ rest))) (add_chunk o r)
  unfolding add_chunk
  add_chunk-IsFound before argument rest none r ends is_chunk h =
      skip-IsFound before _ r (skip-IsFound needle _ r (skip-IsFound argument rest r h))
  add_chunk-IsFound before argument rest (some c) (found chunks) ends is_chunk h =
      call before argument rest c chunks ends is_chunk h
  add_chunk-IsFound before argument rest (some c) depth_overflow ends is_chunk h = h
  add_chunk-IsFound before argument rest (some c) out_of_fuel ends is_chunk h = h

  search-IsFound :
      (fuel : ℕ) (page : Text) → length page ≤ fuel → IsFound page (search from_str fuel page)
  unfolding search
  search-IsFound zero page h = elim (Option-cases (find_needle page)) [
    | inl e ↦ rw (e, search) (no_more page)
    | inr (n, e) ↦ absurd (omega (arith, find_needle-bound page n e))
  ]
  search-IsFound (suc fuel) page h = elim (Option-cases (find_needle page)) [
    | inl e ↦ rw (e, search) (no_more page)
    | inr (n, e) ↦
        let bound = find_needle-bound page n e in
        let splits = find_needle-splits page n e in
        let after = drop (n + length needle) page in
        let short = length-drop (n + length needle) page in
        let fits = balanced_bracket_end-Fits after in
        elim (Scanned-cases (balanced_bracket_end after)) [
          | inl (m, f) ↦
              let left = length-drop m after in
              let whole = take-append-drop m after in
              let within : m ≤ length after = subst (Fits after) f fits in
              let counted : length (take m after) ≡ m =
                omega (arith, length-take m after, within) in
              let rest =
                search-IsFound fuel (drop m after) (omega (arith, left, short, bound, h)) in
              rw (e, search)
                (rw (f, search)
                  (subst
                    (λ p. IsFound p (
                      add_chunk (chunk_of from_str (take m after))
                        (search from_str fuel (drop m after))))
                    (sym (splits ∙ ap (λ t. take n page ++ (needle ++ t)) (sym whole)))
                    (add_chunk-IsFound (take n page) (take m after) (drop m after) _ _
                      (ap balanced_bracket_end whole ∙ f ∙ ap ended (sym counted)) refl rest)))
          | inr (inl f) ↦
              let rest = search-IsFound fuel after (omega (arith, short, bound, h)) in
              rw (e, search)
                (rw (f, search)
                  (subst (λ p. IsFound p (search from_str fuel after)) (sym splits)
                    (skip-IsFound (take n page) _ _ (skip-IsFound needle after _ rest))))
          | inr (inr f) ↦ absurd (subst (Fits after) f fits)
        ]
  ]

  -- The search of a page ends, the depth of its brackets does not run below zero, and the chunks that it
  -- finds come, in order, each from a call of its own: a needle in the page, not before the end of the
  -- call before it, with a bracket expression behind it whose second element is the chunk's text.
  pub extract_rsc_chunks-IsFound : (body : Text) → IsFound body (extract_rsc_chunks from_str body)
  unfolding extract_rsc_chunks
  extract_rsc_chunks-IsFound body =
      if-intro (IsFound body) (contains_text (text "self.__next_f") body) _ (found [])
        (λ e. search-IsFound (length body) body (omega arith)) (λ e. no_more body)
