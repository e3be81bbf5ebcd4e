-- ===== src/Query/Parser/Lines.antt =====
-- A query of several lines is the conjunction of its lines.
use aiautotest.Common.{
  ℕ, ◌&&◌, Option, none, some, List, [], ◌∷◌, ◌++◌, Text, split, trim, length, ◌≡◌, refl, ap, ◌∙◌,
  arith, Bool-cases, inl, inr,
}
use aiautotest.Domain.Scope.{RegexEngine}
use aiautotest.Domain.Flow.{HttpFlow}
use aiautotest.Query.Condition.{Condition, Conditions, nil, cons, and_, matches, all_match}
use aiautotest.Query.Field.{Result, ok, err}
use aiautotest.Query.Parser.{
  Parsed, parse_line, cons_line, is_skipped, parse_lines, and_lines, parse,
}

abbrev all_parts : ℕ → Text → List Text
all_parts sep s = (split sep s).0 ∷ (split sep s).1

split-append :
    (sep : ℕ) (s t : Text) → all_parts sep (s ++ sep ∷ t) ≡ all_parts sep s ++ all_parts sep t
unfolding split
split-append sep [] t = ground arith
split-append sep (c ∷ s) t = ground (arith, split-append sep s t)

module _ (engine : RegexEngine) where
  open engine use {Regex}

  append : Conditions Regex → Conditions Regex → Conditions Regex
  append nil ds = ds
  append (cons c cs) ds = cons c (append cs ds)

  all_match-append :
      (cs ds : Conditions Regex) (f : HttpFlow)
      → all_match engine (append cs ds) f ≡ (all_match engine cs f && all_match engine ds f)
  unfolding append all_match
  all_match-append nil ds f = refl
  all_match-append (cons c cs) ds f = ground (arith, all_match-append cs ds f)

  -- One group of lines, then another: the first failure is the result.
  append_lines :
      Option (Result (Conditions Regex))
      → Option (Result (Conditions Regex))
      → Option (Result (Conditions Regex))
  unfolding append
  append_lines none rest = none
  append_lines (some (err e)) rest = some (err e)
  append_lines (some (ok cs)) none = none
  append_lines (some (ok cs)) (some (err e)) = some (err e)
  append_lines (some (ok cs)) (some (ok ds)) = some (ok (append cs ds))

  append_lines-nil :
      (rest : Option (Result (Conditions Regex))) → rest ≡ append_lines (some (ok nil)) rest
  unfolding append_lines append
  append_lines-nil none = refl
  append_lines-nil (some (err e)) = refl
  append_lines-nil (some (ok ds)) = refl

  cons_line-append_lines :
      (r : Parsed engine) (x y : Option (Result (Conditions Regex)))
      → cons_line engine r (append_lines x y) ≡ append_lines (cons_line engine r x) y
  unfolding cons_line append_lines append
  cons_line-append_lines none x y = refl
  cons_line-append_lines (some (err e)) x y = refl
  cons_line-append_lines (some (ok c)) none y = refl
  cons_line-append_lines (some (ok c)) (some (err e)) y = refl
  cons_line-append_lines (some (ok c)) (some (ok cs)) none = refl
  cons_line-append_lines (some (ok c)) (some (ok cs)) (some (err e)) = refl
  cons_line-append_lines (some (ok c)) (some (ok cs)) (some (ok ds)) = refl

  parse_lines-append :
      (ls ms : List Text)
      → parse_lines engine (ls ++ ms) ≡ append_lines (parse_lines engine ls) (parse_lines engine ms)
  unfolding parse_lines
  parse_lines-append [] ms = append_lines-nil (parse_lines engine ms)
  parse_lines-append (raw ∷ ls) ms =
      let r = parse_line engine (length (trim raw)) (trim raw) in
      elim (Bool-cases (is_skipped engine (trim raw))) [
        | inl e ↦ rw e (parse_lines-append ls ms)
        | inr e ↦ rw e (
            ap (cons_line engine r) (parse_lines-append ls ms)
            ∙ cons_line-append_lines r (parse_lines engine ls) (parse_lines engine ms))
      ]

  and_lines-ok :
      (r : Option (Result (Conditions Regex))) (c : Condition Regex)
      → and_lines engine r ≡ some (ok c)
      → (cs : Conditions Regex) × ((r ≡ some (ok cs)) × (c ≡ and_ cs))
  unfolding and_lines
  and_lines-ok none c h = ground (arith, h)
  and_lines-ok (some (err e)) c h = ground (arith, h)
  and_lines-ok (some (ok cs)) c h = (cs, (refl, ground (arith, h)))

  -- Two queries that parse, one below the other, parse as a query that matches the flows that both match.
  pub parse-lines :
      (a b : Text) (ca cb : Condition Regex)
      → parse engine a ≡ some (ok ca)
      → parse engine b ≡ some (ok cb)
      → (c : Condition Regex) × ((parse engine (a ++ b'\n' ∷ b) ≡ some (ok c))
          × ((f : HttpFlow) → matches engine c f ≡ (matches engine ca f && matches engine cb f)))
  unfolding parse and_lines append_lines matches
  parse-lines a b ca cb h k =
      let (cs, (r, ea)) = and_lines-ok (parse_lines engine (all_parts b'\n' a)) ca h in
      let (ds, (q, eb)) = and_lines-ok (parse_lines engine (all_parts b'\n' b)) cb k in
      let both =
        ap (parse_lines engine) (split-append b'\n' a b)
        ∙ parse_lines-append (all_parts b'\n' a) (all_parts b'\n' b)
        ∙ ap (λ x. append_lines x (parse_lines engine (all_parts b'\n' b))) r
        ∙ ap (append_lines (some (ok cs))) q in
      (
        and_ (append cs ds),
        (ap (and_lines engine) both, λ f. rw (ea, eb) (all_match-append cs ds f)),
      )
