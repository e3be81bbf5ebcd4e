-- ===== src/Query/Parser.antt =====
-- crates/query/src/parser.rs: HTTPQL. Lines are joined by "and"; within a line '|' and '&' separate
-- alternatives outside parentheses. A parse that runs out of fuel is `none`.
pub mod Split
pub mod Fuel
pub mod Lines
use aiautotest.Common.{
  ℕ, zero, suc, ◌+◌, ◌-◌, ◌^◌, ◌==◌, ltb, Bool, true, false, not, ◌&&◌, ◌||◌, Option, none, some,
  List, [], ◌∷◌, ◌++◌, Text, text, text_eq, strip_prefix, starts_with, trim, split, find_split,
  parse_digits, is_all_digits, is_empty_text, any, reverse, length, if◌then◌else◌,
}
use aiautotest.Domain.Scope.{RegexEngine}
use aiautotest.Query.Condition.{
  Condition, Conditions, nil, cons, and_, or_, equals, not_equals, gt, ge, lt, le, FieldName,
  QueryValue, text_value, number, ℤ, pos, regex_condition,
}
use aiautotest.Query.Field.{QueryError, invalid_line, unbalanced, Result, ok, err, parse_field_line}

-- The loop. The depth, an `i32`, is the number of opening less that of closing parentheses before.
opened : ℕ → ℕ → ℕ
opened c up = if c == b'(' then suc up else up

closed : ℕ → ℕ → ℕ
closed c down = if c == b')' then suc down else down

is_cut : (sep up down c : ℕ) → Bool
is_cut sep up down c = not (c == b'(') && (not (c == b')') && ((c == sep) && (up == down)))

unfoldable pub split_from : (sep up down : ℕ) → Text → Text × List Text
unfolding opened closed is_cut
split_from sep up down [] = ([], [])
split_from sep up down (c ∷ s) =
    let (part, parts) = split_from sep (opened c up) (closed c down) s in
    if is_cut sep up down c then ([], part ∷ parts) else (c ∷ part, parts)

unfoldable pub split_top_level : Text → ℕ → Text × List Text
unfolding split_from
split_top_level input sep = split_from sep 0 0 input

-- `str::strip_suffix` with one character.
strip_last : Text → Option Text
strip_last [] = none
strip_last (c ∷ s) = if c == b')' then some (reverse s) else none

unfoldable pub strip_suffix : Text → Option Text
unfolding strip_last
strip_suffix s = strip_last (reverse s)

module _ (engine : RegexEngine) where
  open engine use {Regex}

  abbrev pub Parsed : Type 0
  Parsed = Option (Result (Condition Regex))

  -- Inside of parentheses, `line` parses.
  parse_group : (Text → Parsed) → Text → Option Text → Parsed
  parse_group line atom none = some (err (unbalanced atom))
  parse_group line atom (some inner) = line (trim inner)

  parse_trimmed : (Text → Parsed) → Text → Parsed
  unfolding parse_group parse_field_line strip_suffix
  parse_trimmed line [] = some (err (invalid_line []))
  parse_trimmed line (c ∷ s) =
      if c == b'('
      then parse_group line (c ∷ s) (strip_suffix s)
      else some (parse_field_line engine (c ∷ s))

  unfoldable pub parse_atom : (Text → Parsed) → Text → Parsed
  unfolding parse_trimmed trim
  parse_atom line atom = parse_trimmed line (trim atom)

  -- The parts up to the first that fails: `some none` if one does.
  and_then : Parsed → Option (Option (Conditions Regex)) → Option (Option (Conditions Regex))
  and_then none rest = none
  and_then (some (err e)) rest = some none
  and_then (some (ok c)) none = none
  and_then (some (ok c)) (some none) = some none
  and_then (some (ok c)) (some (some cs)) = some (some (cons c cs))

  unfoldable pub parse_parts : (Text → Parsed) → List Text → Option (Option (Conditions Regex))
  unfolding and_then
  parse_parts parse [] = some (some nil)
  parse_parts parse (part ∷ parts) =
      let rest = parse_parts parse parts in and_then (parse part) rest

  -- The joined parts; the whole text as one part if a part fails, or if there is only one.
  join_parts :
      (Conditions Regex → Condition Regex) → Parsed → Option (Option (Conditions Regex)) → Parsed
  join_parts join whole none = none
  join_parts join whole (some none) = whole
  join_parts join whole (some (some cs)) = some (ok (join cs))

  unfoldable pub parse_split_parts :
      (Conditions Regex → Condition Regex) → (Text → Parsed) → Text → Text × List Text → Parsed
  unfolding join_parts parse_parts
  parse_split_parts join parse input (part, []) = parse input
  parse_split_parts join parse input (part, p ∷ ps) =
      join_parts join (parse input) (parse_parts parse (part ∷ p ∷ ps))

  unfoldable pub parse_separated :
      (sep : ℕ) → (Conditions Regex → Condition Regex) → (Text → Parsed) → Text → Parsed
  unfolding parse_split_parts split_top_level
  parse_separated sep join parse input =
      parse_split_parts join parse input (split_top_level input sep)

  unfoldable pub parse_and : (Text → Parsed) → Text → Parsed
  unfolding parse_separated parse_atom
  parse_and line input = parse_separated b'&' and_ (parse_atom line) input

  unfoldable pub parse_or : (Text → Parsed) → Text → Parsed
  unfolding parse_separated parse_and
  parse_or line input = parse_separated b'|' or_ (parse_and line) input

  -- `parse_line`; `fuel` bounds how deep parentheses stand in one another.
  unfoldable pub parse_line : (fuel : ℕ) → Text → Parsed
  unfolding parse_or
  parse_line zero line = parse_or (λ inner. none) line
  parse_line (suc fuel) line = parse_or (parse_line fuel) line

  -- The conditions of the lines before the first that fails.
  cons_line : Parsed → Option (Result (Conditions Regex)) → Option (Result (Conditions Regex))
  cons_line none rest = none
  cons_line (some (err e)) rest = some (err e)
  cons_line (some (ok c)) none = none
  cons_line (some (ok c)) (some (err e)) = some (err e)
  cons_line (some (ok c)) (some (ok cs)) = some (ok (cons c cs))

  is_skipped : Text → Bool
  is_skipped [] = true
  is_skipped (c ∷ s) = c == b'#'

  unfoldable pub parse_lines : List Text → Option (Result (Conditions Regex))
  unfolding cons_line is_skipped parse_line trim
  parse_lines [] = some (ok nil)
  parse_lines (raw ∷ lines) =
      let rest = parse_lines lines in
      let line = trim raw in
      if is_skipped line then rest else cons_line (parse_line (length line) line) rest

  and_lines : Option (Result (Conditions Regex)) → Parsed
  and_lines none = none
  and_lines (some (err e)) = some (err e)
  and_lines (some (ok cs)) = some (ok (and_ cs))

  unfoldable pub parse : Text → Parsed
  unfolding and_lines parse_lines split
  parse query = let (line, lines) = split b'\n' query in and_lines (parse_lines (line ∷ lines))
