-- ===== src/Domain/Scope/Laws.antt =====
-- What passes the filter, and which configurations make one.
use aiautotest.Common.{
  ◌≡◌, ◌≢◌, refl, ◌⊎◌, ◌↔◌, inl, inr, Bool, true, false, not, ◌&&◌, none, some, List, [], ◌∷◌, ◌++◌,
  Text, any, All, Any, any→All, All→any, any→Any, Any→any, arith, if◌then◌else◌, Option-cases,
}
use aiautotest.Domain.Scope.{
  RegexEngine, ScopeConfig, ScopeFilter, is_empty, strip_query, compile, new, host_matches,
  path_matches, should_capture,
}

-- No pattern of the first list matches, and some pattern of the second does, unless it is empty.
abbrev pub Passes {ℓ} : {A : Type ℓ} → (A → Bool) → List A → List A → Type ℓ
Passes p exclude include =
    All (λ re. p re ≡ false) exclude × ((include ≡ []) ⊎ Any (λ re. p re ≡ true) include)

passes : {A : Type 0} → (A → Bool) → List A → List A → Bool
passes p exclude include =
    if not (is_empty exclude) && any p exclude
    then false
    else (if not (is_empty include) then any p include else true)

not-is_empty-any :
    {A : Type 0} (p : A → Bool) (xs : List A) → (not (is_empty xs) && any p xs) ≡ any p xs
not-is_empty-any p [] = refl
not-is_empty-any p (x ∷ xs) = refl

include_iff :
    {A : Type 0} (p : A → Bool) (xs : List A)
    → ((if not (is_empty xs) then any p xs else true) ≡ true)
      ↔ ((xs ≡ []) ⊎ Any (λ re. p re ≡ true) xs)
include_iff p [] = ((λ h. inl refl), λ h. refl)
include_iff p (x ∷ xs) =
    ((λ h. inr (any→Any p (x ∷ xs) h)), elim [ inl h ↦ cc | inr h ↦ Any→any p (x ∷ xs) h ])

passes_iff :
    {A : Type 0} (p : A → Bool) (exclude include : List A)
    → (passes p exclude include ≡ true) ↔ Passes p exclude include
unfolding passes
passes_iff p exclude include = (
  (λ h. (
    any→All p exclude (ground (arith, not-is_empty-any p exclude)),
    (include_iff p include).0 (ground arith),
  )),
  λ h. rw (not-is_empty-any p exclude, All→any p exclude h.0) ((include_iff p include).1 h.1),
)

strip_query-append : (path query : Text) → strip_query (path ++ b'?' ∷ query) ≡ strip_query path
unfolding strip_query
strip_query-append [] query = refl
strip_query-append (c ∷ path) query = rw (strip_query-append path query)

module _ (engine : RegexEngine) where
  open engine use {Regex, new_regex, is_match}

  -- A pair is captured exactly when no exclusion matches and each non-empty list of inclusions has a
  -- match, for the host and for the path without its query.
  pub should_capture_iff :
      (filter : ScopeFilter engine) (host path : Text)
      → (should_capture engine filter host path ≡ true) ↔ (
          Passes (λ re. is_match re host) filter.exclude_hosts filter.include_hosts
          × Passes (λ re. is_match re (strip_query path)) filter.exclude_paths filter.include_paths)
  unfolding should_capture host_matches path_matches passes
  should_capture_iff filter host path =
      let hosts = passes_iff (λ re. is_match re host) filter.exclude_hosts filter.include_hosts in
      let paths =
        passes_iff (λ re. is_match re (strip_query path)) filter.exclude_paths
          filter.include_paths in
      ((λ h. (hosts.0 (ground arith), paths.0 (ground arith))), λ h. rw (hosts.1 h.0) (paths.1 h.1))

  -- The query string has no say: paths that agree up to the first '?' are captured alike.
  pub should_capture-query :
      (filter : ScopeFilter engine) (host path query : Text)
      → should_capture engine filter host (path ++ b'?' ∷ query)
        ≡ should_capture engine filter host path
  unfolding should_capture path_matches
  should_capture-query filter host path query = rw (strip_query-append path query)

  abbrev pub Compiles : Text → Type 0
  Compiles pattern = (re : Regex) × (new_regex pattern ≡ some re)

  compile_sound :
      (patterns : List Text) (res : List Regex)
      → compile engine patterns ≡ some res
      → All Compiles patterns
  unfolding compile
  compile_sound [] res h = tt
  compile_sound (pattern ∷ patterns) res h = elim (Option-cases (new_regex pattern)) [
    | inl e ↦ absurd (ground arith)
    | inr (re, e) ↦ elim (Option-cases (compile engine patterns)) [
      | inl f ↦ absurd (ground arith)
      | inr (rest, f) ↦ ((re, e), compile_sound patterns rest f)
    ]
  ]

  compile_complete :
      (patterns : List Text)
      → All Compiles patterns
      → (res : List Regex) × (compile engine patterns ≡ some res)
  unfolding compile
  compile_complete [] h = ([], refl)
  compile_complete (pattern ∷ patterns) ((re, e), h) =
      let (rest, f) = compile_complete patterns h in (re ∷ rest, rw (e, f))

  abbrev pub AllCompile : ScopeConfig → Type 0
  AllCompile config =
      All Compiles config.include_hosts
      × All Compiles config.exclude_hosts
      × All Compiles config.include_paths
      × All Compiles config.exclude_paths

  -- A configuration makes a filter exactly when every pattern of its four lists compiles.
  pub new-is_some_iff :
      (config : ScopeConfig)
      → ((filter : ScopeFilter engine) × (new engine config ≡ some filter)) ↔ AllCompile config
  unfolding new
  new-is_some_iff config = (
    (λ (filter, h). (
      made config.include_hosts (ground arith),
      made config.exclude_hosts (ground arith),
      made config.include_paths (ground arith),
      made config.exclude_paths (ground arith),
    )),
    λ h.
        let (a, e) = compile_complete config.include_hosts h.0 in
        let (b, f) = compile_complete config.exclude_hosts h.1 in
        let (c, g) = compile_complete config.include_paths h.2 in
        let (d, i) = compile_complete config.exclude_paths h.3 in
        (
          record { include_hosts = a; exclude_hosts = b; include_paths = c; exclude_paths = d },
          rw (e, f, g, i),
        ),
  )
    where
      made : (patterns : List Text) → compile engine patterns ≢ none → All Compiles patterns
      made patterns h = elim (Option-cases (compile engine patterns)) [
        | inl e ↦ absurd (h e)
        | inr (res, e) ↦ compile_sound patterns res e
      ]
