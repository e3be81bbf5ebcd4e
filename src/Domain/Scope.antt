-- ===== src/Domain/Scope.antt =====
-- crates/domain/src/scope.rs: the filter on hosts and paths that the proxy and the scanner share.
-- The regex crate is a parameter: a type of compiled patterns, its compiler and its matcher.
pub mod Laws
use aiautotest.Common.{
  ℕ, Bool, true, false, not, ◌&&◌, Option, none, some, List, [], ◌∷◌, Text, text, any, ◌==◌,
  if◌then◌else◌,
}

pub record RegexEngine : Type 1 where
  pub Regex : Type 0
  -- `Regex::new`; `none` is its error.
  pub new_regex : Text → Option Regex
  pub is_match : Regex → Text → Bool

pub record ScopeConfig : Type 0 where
  pub include_hosts : List Text
  pub exclude_hosts : List Text
  pub include_paths : List Text
  pub exclude_paths : List Text

abbrev pub is_empty {ℓ} : {A : Type ℓ} → List A → Bool
is_empty [] = true
is_empty (x ∷ xs) = false

-- `path.split('?').next()`: what stands before the first '?'.
unfoldable pub strip_query : Text → Text
strip_query [] = []
strip_query (c ∷ path) = let rest = strip_query path in if c == b'?' then [] else c ∷ rest

module _ (engine : RegexEngine) where
  open engine use {Regex, new_regex, is_match}

  pub record ScopeFilter : Type 0 where
    pub include_hosts : List Regex
    pub exclude_hosts : List Regex
    pub include_paths : List Regex
    pub exclude_paths : List Regex

  infixl 5 ◌>>=◌
  abbrev ◌>>=◌ : {A B : Type 0} → Option A → (A → Option B) → Option B
  none >>= k = none
  some a >>= k = k a

  -- The first pattern that does not compile is the error.
  unfoldable pub compile : List Text → Option (List Regex)
  compile [] = some []
  compile (pattern ∷ patterns) = do
    re ← new_regex pattern
    rest ← compile patterns
    some (re ∷ rest)

  unfoldable pub new : ScopeConfig → Option ScopeFilter
  unfolding compile
  new config = do
    include_hosts ← compile config.include_hosts
    exclude_hosts ← compile config.exclude_hosts
    include_paths ← compile config.include_paths
    exclude_paths ← compile config.exclude_paths
    some (record {
      include_hosts = include_hosts;
      exclude_hosts = exclude_hosts;
      include_paths = include_paths;
      exclude_paths = exclude_paths;
    })

  unfoldable pub host_matches : ScopeFilter → Text → Bool
  host_matches filter host =
      if not (is_empty filter.exclude_hosts) && any (λ re. is_match re host) filter.exclude_hosts
      then false
      else (if not (is_empty filter.include_hosts)
          then any (λ re. is_match re host) filter.include_hosts
          else true)

  unfoldable pub path_matches : ScopeFilter → Text → Bool
  path_matches filter path =
      let path_no_query = strip_query path in
      if not (is_empty filter.exclude_paths)
        && any (λ re. is_match re path_no_query) filter.exclude_paths
      then false
      else (if not (is_empty filter.include_paths)
          then any (λ re. is_match re path_no_query) filter.include_paths
          else true)

  unfoldable pub should_capture : ScopeFilter → Text → Text → Bool
  should_capture filter host path = host_matches filter host && path_matches filter path
