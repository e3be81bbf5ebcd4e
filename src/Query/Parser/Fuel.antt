-- ===== src/Query/Parser/Fuel.antt =====
-- A parse ends: parentheses make what stands in them shorter.
use aiautotest.Common.{
  ℕ, zero, suc, ◌≤◌, ◌<◌, ◌==◌, true, Option, none, some, List, [], ◌∷◌, Text, length,
  length-reverse, length-trim, reverse, Bool-cases, Option-cases, inl, inr, ◌≡◌, refl, arith,
  is_some, split, trim,
}
use aiautotest.Domain.Scope.{RegexEngine}
use aiautotest.Query.Condition.{Condition, Conditions, and_, or_}
use aiautotest.Query.Field.{Result, ok, err}
use aiautotest.Query.Parser.{
  Parsed, strip_suffix, strip_last, split_top_level, parse_group, parse_trimmed, parse_atom,
  and_then, parse_parts, join_parts, parse_split_parts, parse_separated, parse_and, parse_or,
  parse_line, cons_line, is_skipped, parse_lines, and_lines, parse,
}
use aiautotest.Query.Parser.Split.{AreWithin, split_top_level-AreWithin}

strip_last-length : (s inner : Text) → strip_last s ≡ some inner → length inner < length s
unfolding strip_last
strip_last-length [] inner h = ground (arith, h)
strip_last-length (c ∷ s) inner h = ground (arith, h, length-reverse s)

strip_suffix-length : (s inner : Text) → strip_suffix s ≡ some inner → length inner < length s
unfolding strip_suffix
strip_suffix-length s inner h =
    omega (arith, strip_last-length (reverse s) inner h, length-reverse s)

module _ (engine : RegexEngine) where
  open engine use {Regex}

  -- The parser ends on every text that is shorter than `n`; and on those of length `n` as well.
  Below : ℕ → (Text → Parsed engine) → Type 0
  Below n line = (s : Text) → length s < n → is_some (line s) ≡ true

  abbrev UpTo : ℕ → (Text → Parsed engine) → Type 0
  UpTo n line = (s : Text) → length s ≤ n → is_some (line s) ≡ true

  parse_trimmed-some :
      (n : ℕ) (line : Text → Parsed engine)
      → Below n line
      → (s : Text) → length s ≤ n
      → is_some (parse_trimmed engine line s) ≡ true
  unfolding parse_trimmed parse_group Below
  parse_trimmed-some n line h [] k = refl
  parse_trimmed-some n line h (c ∷ s) k = elim (Bool-cases (c == b'(')) [
    | inr e ↦ rw e refl
    | inl e ↦ rw e (elim (Option-cases (strip_suffix s)) [
      | inl q ↦ rw (q, parse_group) refl
      | inr (inner, q) ↦
          let shorter = strip_suffix-length s inner q in
          let trimmed = length-trim inner in rw (q, parse_group) (h (trim inner) (omega arith))
    ])
  ]

  parse_atom-some :
      (n : ℕ) (line : Text → Parsed engine) → Below n line → UpTo n (parse_atom engine line)
  unfolding parse_atom
  parse_atom-some n line h s k = parse_trimmed-some n line h (trim s) (omega (arith, length-trim s))

  and_then-some :
      (r : Parsed engine) (rest : Option (Option (Conditions Regex)))
      → is_some r ≡ true
      → is_some rest ≡ true
      → is_some (and_then engine r rest) ≡ true
  unfolding and_then
  and_then-some none rest k h = k
  and_then-some (some (err e)) rest k h = refl
  and_then-some (some (ok c)) none k h = h
  and_then-some (some (ok c)) (some none) k h = refl
  and_then-some (some (ok c)) (some (some cs)) k h = refl

  parse_parts-some :
      (n : ℕ) (parse : Text → Parsed engine)
      → UpTo n parse
      → (parts : List Text) → AreWithin n parts
      → is_some (parse_parts engine parse parts) ≡ true
  unfolding parse_parts
  parse_parts-some n p h [] k = refl
  parse_parts-some n p h (part ∷ parts) k =
      and_then-some (p part) (parse_parts engine p parts) (h part k.0)
        (parse_parts-some n p h parts k.1)

  join_parts-some :
      (join : Conditions Regex → Condition Regex) (whole : Parsed engine)
      (parts : Option (Option (Conditions Regex)))
      → is_some whole ≡ true
      → is_some parts ≡ true
      → is_some (join_parts engine join whole parts) ≡ true
  unfolding join_parts
  join_parts-some join whole none h k = k
  join_parts-some join whole (some none) h k = h
  join_parts-some join whole (some (some cs)) h k = refl

  parse_split_parts-some :
      (n : ℕ) (join : Conditions Regex → Condition Regex) (parse : Text → Parsed engine)
      → UpTo n parse
      → (input : Text) (parts : Text × List Text) → length input ≤ n
      → length parts.0 ≤ n
      → AreWithin n parts.1
      → is_some (parse_split_parts engine join parse input parts) ≡ true
  unfolding parse_split_parts
  parse_split_parts-some n join p h input (part, []) k a b = h input k
  parse_split_parts-some n join p h input (part, q ∷ qs) k a b =
      join_parts-some join (p input) (parse_parts engine p (part ∷ q ∷ qs)) (h input k)
        (parse_parts-some n p h (part ∷ q ∷ qs) (a, b))

  parse_separated-some :
      (n sep : ℕ) (join : Conditions Regex → Condition Regex) (parse : Text → Parsed engine)
      → UpTo n parse
      → UpTo n (parse_separated engine sep join parse)
  unfolding parse_separated
  parse_separated-some n sep join p h input k =
      let (a, b) = split_top_level-AreWithin input sep n k in
      parse_split_parts-some n join p h input (split_top_level input sep) k a b

  parse_or-some :
      (n : ℕ) (line : Text → Parsed engine) → Below n line → UpTo n (parse_or engine line)
  unfolding parse_or parse_and
  parse_or-some n line h =
      parse_separated-some n b'|' or_ (parse_and engine line)
        (parse_separated-some n b'&' and_ (parse_atom engine line) (parse_atom-some n line h))

  parse_line-some : (fuel : ℕ) → UpTo fuel (parse_line engine fuel)
  unfolding parse_line Below
  parse_line-some zero = parse_or-some 0 (λ inner. none) (λ s k. ground (arith, k))
  parse_line-some (suc fuel) =
      parse_or-some (suc fuel) (parse_line engine fuel)
        (λ s k. parse_line-some fuel s (omega arith))

  cons_line-some :
      (r : Parsed engine) (rest : Option (Result (Conditions Regex)))
      → is_some r ≡ true
      → is_some rest ≡ true
      → is_some (cons_line engine r rest) ≡ true
  unfolding cons_line
  cons_line-some none rest k h = k
  cons_line-some (some (err e)) rest k h = refl
  cons_line-some (some (ok c)) none k h = h
  cons_line-some (some (ok c)) (some (err e)) k h = refl
  cons_line-some (some (ok c)) (some (ok cs)) k h = refl

  parse_lines-some : (lines : List Text) → is_some (parse_lines engine lines) ≡ true
  unfolding parse_lines
  parse_lines-some [] = refl
  parse_lines-some (raw ∷ lines) = elim (Bool-cases (is_skipped engine (trim raw))) [
    | inl e ↦ rw e (parse_lines-some lines)
    | inr e ↦ rw e (
        cons_line-some (parse_line engine (length (trim raw)) (trim raw)) (parse_lines engine lines)
          (parse_line-some (length (trim raw)) (trim raw) (omega arith)) (parse_lines-some lines))
  ]

  and_lines-some :
      (r : Option (Result (Conditions Regex)))
      → is_some r ≡ true
      → is_some (and_lines engine r) ≡ true
  unfolding and_lines
  and_lines-some none h = h
  and_lines-some (some (err e)) h = refl
  and_lines-some (some (ok cs)) h = refl

  -- Every query has a condition or an error: no text makes the parser go on for ever, however deep its
  -- parentheses are.
  pub parse-ends : (query : Text) → is_some (parse engine query) ≡ true
  unfolding parse
  parse-ends query =
      let (line, lines) = split b'\n' query in
      and_lines-some (parse_lines engine ((split b'\n' query).0 ∷ (split b'\n' query).1))
        (parse_lines-some ((split b'\n' query).0 ∷ (split b'\n' query).1))
