-- ===== src/Proxy/Rules/Laws.antt =====
-- Changes of the list of rules, and the rules of one direction.
use mathlib.Core.List.{map-append}
use aiautotest.Common.{
  true, false, not, ◌&&◌, Option, none, some, List, [], ◌∷◌, ◌++◌, Text, text_eq, map, filter,
  if◌then◌else◌, arith, ◌≡◌, refl, sym, ap, ◌∙◌, Bool-cases, inl, inr,
}
use aiautotest.Domain.Rules.{RuleDirection, same_direction, MatchRule}
use aiautotest.Proxy.Rules.{
  Crates, CompiledRule, MatchReplaceEngine, compile_rule, matches, apply_headers, apply_body,
  apply_url, new, add_rule, remove_rule, rewrite_headers, rewrite_body, rewrite_url,
  apply_to_request_headers, apply_to_response_headers, apply_to_body, apply_to_url,
}

pub data Operation : Type 0 where
  adds : (rule : MatchRule) → Operation
  removes : (name : Text) → Operation

-- What an operation does to the list of rules.
abbrev pub edit : Operation → List MatchRule → List MatchRule
edit (adds rule) rules = rules ++ rule ∷ []
edit (removes name) rules = filter (λ rule. not (text_eq rule.name name)) rules

abbrev pub edit_all : List Operation → List MatchRule → List MatchRule
edit_all [] rules = rules
edit_all (op ∷ ops) rules = edit_all ops (edit op rules)

abbrev pub of_direction : RuleDirection → List MatchRule → List MatchRule
of_direction direction rules = filter (λ rule. same_direction rule.direction direction) rules

module _ (crates : Crates) where
  open crates use {HeaderMap}

  abbrev pub step : Operation → MatchReplaceEngine crates → MatchReplaceEngine crates
  step (adds rule) e = add_rule crates rule e
  step (removes name) e = remove_rule crates name e

  abbrev pub run : List Operation → MatchReplaceEngine crates → MatchReplaceEngine crates
  run [] e = e
  run (op ∷ ops) e = run ops (step op e)

  step-new :
      (op : Operation) (rules : List MatchRule)
      → step op (new crates rules) ≡ new crates (edit op rules)
  unfolding new add_rule remove_rule
  step-new (adds rule) rules = rw (map-append (compile_rule crates) rules (rule ∷ [])) refl
  step-new (removes name) rules = refl

  -- An engine that rules were added to and removed from is the engine made anew from the list of
  -- rules that these operations leave: its compiled rules are never behind its rules.
  pub run-new :
      (ops : List Operation) (rules : List MatchRule)
      → run ops (new crates rules) ≡ new crates (edit_all ops rules)
  run-new [] rules = refl
  run-new (op ∷ ops) rules = ap (run ops) (step-new op rules) ∙ run-new ops (edit op rules)

  going : RuleDirection → List (CompiledRule crates) → List (CompiledRule crates)
  going d rules = filter (λ rule. same_direction rule.direction d) rules

  going-compile :
      (d : RuleDirection) (rules : List MatchRule)
      → going d (map (compile_rule crates) rules) ≡ map (compile_rule crates) (of_direction d rules)
  unfolding going compile_rule
  going-compile d [] = refl
  going-compile d (r ∷ rules) = ground (arith, going-compile d rules)

  going-keeps :
      (d : RuleDirection) (r : CompiledRule crates) (rules : List (CompiledRule crates))
      → same_direction r.direction d ≡ true
      → going d (r ∷ rules) ≡ r ∷ going d rules
  unfolding going
  going-keeps d r rules e = rw e refl

  going-skips :
      (d : RuleDirection) (r : CompiledRule crates) (rules : List (CompiledRule crates))
      → same_direction r.direction d ≡ false
      → going d (r ∷ rules) ≡ going d rules
  unfolding going
  going-skips d r rules e = rw e refl

  headers-going :
      (d : RuleDirection) (rules : List (CompiledRule crates)) (path : Text) (body : Option Text)
      (h : HeaderMap)
      → rewrite_headers crates d rules path body h
        ≡ rewrite_headers crates d (going d rules) path body h
  unfolding rewrite_headers going
  headers-going d [] path body h = refl
  headers-going d (r ∷ rules) path body h =
      let next : HeaderMap =
        if same_direction r.direction d && matches crates r.condition h path body
        then apply_headers crates r.action h
        else h in
      elim (Bool-cases (same_direction r.direction d)) [
        | inl e ↦
            headers-going d rules path body next
            ∙ ap (λ rs. rewrite_headers crates d rs path body h) (sym (going-keeps d r rules e))
        | inr e ↦
            let same : next ≡ h = rw e refl in
            ap (rewrite_headers crates d rules path body) same
            ∙ headers-going d rules path body h
            ∙ ap (λ rs. rewrite_headers crates d rs path body h) (sym (going-skips d r rules e))
      ]

  body-going :
      (d : RuleDirection) (rules : List (CompiledRule crates)) (h : HeaderMap) (path body : Text)
      → rewrite_body crates d rules h path body ≡ rewrite_body crates d (going d rules) h path body
  unfolding rewrite_body going
  body-going d [] h path body = refl
  body-going d (r ∷ rules) h path body =
      let next : Text =
        if same_direction r.direction d && matches crates r.condition h path (some body)
        then apply_body crates r.action body
        else body in
      elim (Bool-cases (same_direction r.direction d)) [
        | inl e ↦
            body-going d rules h path next
            ∙ ap (λ rs. rewrite_body crates d rs h path body) (sym (going-keeps d r rules e))
        | inr e ↦
            let same : next ≡ body = rw e refl in
            ap (rewrite_body crates d rules h path) same
            ∙ body-going d rules h path body
            ∙ ap (λ rs. rewrite_body crates d rs h path body) (sym (going-skips d r rules e))
      ]

  url-going :
      (rules : List (CompiledRule crates)) (h : HeaderMap) (path : Text) (body : Option Text)
      (url : Text)
      → rewrite_url crates rules h path body url
        ≡ rewrite_url crates (going RuleDirection.request rules) h path body url
  unfolding rewrite_url going
  url-going [] h path body url = refl
  url-going (r ∷ rules) h path body url =
      let next : Text =
        if same_direction r.direction RuleDirection.request
          && matches crates r.condition h path body
        then apply_url crates r.action url
        else url in
      elim (Bool-cases (same_direction r.direction RuleDirection.request)) [
        | inl e ↦
            url-going rules h path body next
            ∙ ap (λ rs. rewrite_url crates rs h path body url)
                (sym (going-keeps RuleDirection.request r rules e))
        | inr e ↦
            let same : next ≡ url = rw e refl in
            ap (rewrite_url crates rules h path body) same
            ∙ url-going rules h path body url
            ∙ ap (λ rs. rewrite_url crates rs h path body url)
                (sym (going-skips RuleDirection.request r rules e))
      ]

  -- An engine rewrites the headers and the URL of a request as the engine of its request rules
  -- does, the headers of a response as the engine of its response rules does, and a body of either
  -- direction as the engine of that direction's rules: no rule acts on the other direction.
  pub apply-of_direction :
      (rules : List MatchRule) (d : RuleDirection) (h : HeaderMap) (path content url : Text)
      (body : Option Text)
      → (apply_to_request_headers crates (new crates rules) h path body
          ≡ apply_to_request_headers crates
              (new crates (of_direction RuleDirection.request rules))
              h
              path
              body)
        × (apply_to_response_headers crates (new crates rules) h path
            ≡ apply_to_response_headers crates
                (new crates (of_direction RuleDirection.response rules))
                h
                path)
        × (apply_to_body crates (new crates rules) content d h path
            ≡ apply_to_body crates (new crates (of_direction d rules)) content d h path)
        × (apply_to_url crates (new crates rules) url h path body
            ≡ apply_to_url crates
                (new crates (of_direction RuleDirection.request rules))
                url
                h
                path
                body)
  unfolding new apply_to_request_headers apply_to_response_headers apply_to_body apply_to_url
  apply-of_direction rules d h path content url body =
      let all = map (compile_rule crates) rules in
      (
        headers-going RuleDirection.request all path body h
            ∙ ap (λ rs. rewrite_headers crates RuleDirection.request rs path body h)
                (going-compile RuleDirection.request rules),
        headers-going RuleDirection.response all path none h
            ∙ ap (λ rs. rewrite_headers crates RuleDirection.response rs path none h)
                (going-compile RuleDirection.response rules),
        body-going d all h path content
            ∙ ap (λ rs. rewrite_body crates d rs h path content) (going-compile d rules),
        url-going all h path body url
            ∙ ap (λ rs. rewrite_url crates rs h path body url)
                (going-compile RuleDirection.request rules),
      )
