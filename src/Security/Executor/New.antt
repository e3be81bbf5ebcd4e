-- ===== src/Security/Executor/New.antt =====
-- The executor that `with_events` makes.
use aiautotest.Common.{ℕ, ◌≡◌, refl, ◌⊎◌, inl, inr, Bool, Option, none, some, filter, Text}
use aiautotest.Domain.Scope.{RegexEngine, ScopeFilter, new}
use aiautotest.Scanner.Budget
use aiautotest.Scanner.Budget.{BudgetTracker, try_take}
use aiautotest.Security.Mutate.{Crates}
use aiautotest.Security.Executor.{
  Scan, SecurityExecutor, SecurityRunConfig, ScanError, with_filter, with_allowlist, with_events,
  require_allowlist,
}

-- A new executor: its configuration is the given one, and its budget has all of `max_requests`.
abbrev pub IsNew :
    (crates : Crates) (to_lowercase : Text → Text) (parse_url : Text → Option (Text × Text))
    (engine : RegexEngine) (scan : Text → Scan)
    → SecurityRunConfig
    → SecurityExecutor crates to_lowercase parse_url engine scan ⊎ ScanError
    → Type 0
IsNew crates to_lowercase parse_url engine scan config (inl ex) =
    (ex.config ≡ config) × (ex.budget.remaining ≡ config.max_requests)
IsNew crates to_lowercase parse_url engine scan config (inr error) = Unit

module _ (crates : Crates) (to_lowercase : Text → Text) (parse_url : Text → Option (Text × Text))
    (engine : RegexEngine) (scan : Text → Scan) (config : SecurityRunConfig) (has_gate : Bool)
    (now : ℕ) where
  with_filter-IsNew :
      (filter : Option (ScopeFilter engine))
      → IsNew crates to_lowercase parse_url engine scan config
          (with_filter crates to_lowercase parse_url engine scan config has_gate now filter)
  unfolding with_filter Budget.new
  with_filter-IsNew none = tt
  with_filter-IsNew (some filter) = (refl, refl)

  with_allowlist-IsNew :
      (error : Option ScanError)
      → IsNew crates to_lowercase parse_url engine scan config
          (with_allowlist crates to_lowercase parse_url engine scan config has_gate now error)
  unfolding with_allowlist
  with_allowlist-IsNew (some error) = tt
  with_allowlist-IsNew none = with_filter-IsNew (new engine config.scope)

  -- An executor that is made has the given configuration and a budget of `max_requests` slots.
  with_events-IsNew :
      IsNew crates to_lowercase parse_url engine scan config
        (with_events crates to_lowercase parse_url engine scan config has_gate now)
  unfolding with_events
  with_events-IsNew = with_allowlist-IsNew (require_allowlist config.scope)
