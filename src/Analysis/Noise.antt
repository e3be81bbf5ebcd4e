-- ===== src/Analysis/Noise.antt =====
-- crates/analysis/src/noise.rs: the flows that are kept for analysis. The crate regex is a parameter,
-- and so are the two lists of compiled patterns.
pub mod Laws
use aiautotest.Common.{
  ℕ, ◌+◌, if◌then◌else◌, is_some, unwrap_or, Bool, not, ◌||◌, Option, none, some, List, [], ◌∷◌,
  ◌++◌, any, filter, Text, text, contains, lookup, insert, remove, to_ascii_lowercase,
}
use aiautotest.Domain.Flow.{HttpFlow, HttpMethod, as_str}
use aiautotest.Domain.Scope.{RegexEngine, strip_query}

module _ (engine : RegexEngine) (host_patterns path_patterns : List engine.Regex) where
  open engine use {is_match}

  unfoldable pub is_noise_host : (host : Text) → Bool
  unfolding to_ascii_lowercase
  is_noise_host host = any (λ re. is_match re (to_ascii_lowercase host)) host_patterns

  unfoldable pub is_noise_path : (path : Text) → Bool
  unfolding strip_query
  is_noise_path path = any (λ re. is_match re (strip_query path)) path_patterns

  unfoldable pub is_noise : (host path : Text) → Bool
  unfolding is_noise_host is_noise_path
  is_noise host path = is_noise_host host || is_noise_path path

  unfoldable pub filter_noise : List HttpFlow → List HttpFlow
  unfolding is_noise
  filter_noise flows = filter (λ f. not (is_noise f.host f.path)) flows

  unfoldable pub key : HttpFlow → Text
  unfolding strip_query as_str
  key f = as_str f.method ++ (text ":" ++ strip_query f.path)

  -- The loop of `filter_for_analysis`, from the keys seen so far; what it pushes comes in order.
  unfoldable pub filter_from : (seen : List Text) → List HttpFlow → List HttpFlow
  unfolding is_noise key contains
  filter_from seen [] = []
  filter_from seen (f ∷ flows) =
      let skipped = filter_from seen flows in
      let kept = filter_from (key f ∷ seen) flows in
      if is_noise f.host f.path
      then skipped
      else if contains (key f) seen
      then skipped
      else f ∷ kept

  unfoldable pub filter_for_analysis : List HttpFlow → List HttpFlow
  unfolding filter_from
  filter_for_analysis flows = filter_from [] flows

  pub record Counting : Type 0 where
    pub counts : List (Text × ℕ)
    pub first : List (Text × HttpFlow)
    pub order : List Text

  -- One flow that is no noise.
  unfoldable pub count_flow : HttpFlow → Counting → Counting
  unfolding key insert lookup contains
  count_flow f c =
      let counted = insert (key f) (unwrap_or (lookup (key f) c.counts) 0 + 1) c.counts in
      if is_some (lookup (key f) c.first) then record c { counts = counted } else record c {
        counts = counted;
        first = insert (key f) f c.first;
        order = c.order ++ key f ∷ [];
      }

  unfoldable pub count_flows : List HttpFlow → Counting → Counting
  unfolding count_flow is_noise
  count_flows [] c = c
  count_flows (f ∷ flows) c =
      count_flows flows (if is_noise f.host f.path then c else count_flow f c)

cons_counted : HttpFlow × ℕ → Option (List (HttpFlow × ℕ)) → Option (List (HttpFlow × ℕ))
cons_counted x none = none
cons_counted x (some xs) = some (x ∷ xs)

counted_with :
    Option ℕ → Option HttpFlow → Option (List (HttpFlow × ℕ)) → Option (List (HttpFlow × ℕ))
unfolding cons_counted
counted_with (some count) (some flow) rest = cons_counted (flow, count) rest
counted_with _ _ rest = none

-- The keys in order, each with its flow, which is taken out of the map; `none` is the panic on a key
-- that a map does not have.
unfoldable pub take_counted :
    (order : List Text)
    → (counts : List (Text × ℕ)) → (first : List (Text × HttpFlow)) → Option (List (HttpFlow × ℕ))
unfolding counted_with lookup remove
take_counted [] counts first = some []
take_counted (k ∷ ks) counts first =
    counted_with (lookup k counts) (lookup k first) (take_counted ks counts (remove k first))

unfoldable pub filter_for_analysis_with_counts :
    (engine : RegexEngine)
    → (host_patterns path_patterns : List engine.Regex) → List HttpFlow
    → Option (List (HttpFlow × ℕ))
unfolding take_counted count_flows
filter_for_analysis_with_counts engine host_patterns path_patterns flows =
    let c =
      count_flows engine host_patterns path_patterns flows
        (record { counts = []; first = []; order = [] }) in
    take_counted c.order c.counts c.first
