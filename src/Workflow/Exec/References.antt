-- ===== src/Workflow/Exec/References.antt =====
-- References to the output of a node.
use aiautotest.Common.{
  ℕ, if◌then◌else◌, ◌≡◌, refl, ap, ◌∙◌, Bool, true, false, none, some, [], ◌++◌, Text, text,
  text_eq, strip_prefix, lookup, trim, split, find_split, eq_ignore_ascii_case,
}
use aiautotest.Workflow.Json.{Value, null, bool, number, object, field, end, get_field}
use aiautotest.Workflow.Contract.{AssertConfig, ConditionConfig, assert, condition, delay, NodeKind}
use aiautotest.Workflow.Exec.State.{
  Outside, WorkflowError, Result, ok, err, RunState, M, ◌>>=◌, return, fail, lift, node,
}
use aiautotest.Workflow.Exec.Values.{
  resolve_source, trimmed_source, split_source, output_path, walk, ok_or, key_lookup, compare,
}
use aiautotest.Workflow.Exec.Values.{◌>>=◌ as ◌>>?◌}
use aiautotest.Workflow.Exec.Nodes.{
  run_assert, run_condition, run_delay, run_kind, node_result, source_value, assert_message, sleep,
}

module _ (out : Outside) where
  open out use {N, W}

  -- The outputs that an assert, a condition and a delay leave, and that of a node that failed.
  data IsPlain : Value N → Type 0 where
    of_null : IsPlain null
    of_bool : (b : Bool) → IsPlain (bool b)
    of_delay : (ms : N) → IsPlain (object (field (text "ms") (number ms) end))

  plain-key_lookup : (v : Value N) → IsPlain v → key_lookup out v (text "output") ≡ none
  unfolding key_lookup get_field text_eq eq_ignore_ascii_case
  plain-key_lookup _ of_null = refl
  plain-key_lookup _ (of_bool b) = refl
  plain-key_lookup _ (of_delay ms) = refl

  -- An assert, a condition or a delay.
  pub data IsPlainKind : NodeKind N → Type 0 where
    assert_kind : (config : AssertConfig N) → IsPlainKind (assert config)
    condition_kind : (config : ConditionConfig N) → IsPlainKind (condition config)
    delay_kind : (ms : ℕ) → IsPlainKind (delay ms)

  abbrev PlainResult : Result (Value N) → Type 0
  PlainResult (ok v) = IsPlain v
  PlainResult (err e) = Unit

  -- What a step brings does not matter when all that follows it leaves a plain output.
  continued :
      (A : Type 0) (f : A → M N W (Value N)) (s : RunState N W) (r : Result A × RunState N W)
      → ((a : A) (s' : RunState N W) → PlainResult (f a s').0)
      → PlainResult (((λ _. r) >>= f) s).0
  continued A f s (ok a, s') h = h a s'
  continued A f s (err e, s') h = tt

  after-PlainResult :
      (A : Type 0) (m : M N W A) (f : A → M N W (Value N)) (s : RunState N W)
      → ((a : A) (s' : RunState N W) → PlainResult (f a s').0)
      → PlainResult ((m >>= f) s).0
  after-PlainResult A m f s h = continued A f s (m s) h

  -- The end of an assert.
  asserted : AssertConfig N → Text → Value N → Bool → M N W (Value N)
  asserted config id value passed =
      if passed then return (bool true) else fail (node id (assert_message out config value))

  asserted-PlainResult :
      (config : AssertConfig N) (id : Text) (value : Value N) (passed : Bool) (s : RunState N W)
      → PlainResult (asserted config id value passed s).0
  unfolding asserted
  asserted-PlainResult config id value true s = of_bool true
  asserted-PlainResult config id value false s = tt

  run_kind-PlainResult :
      (base_url id : Text) (kind : NodeKind N) (s : RunState N W)
      → IsPlainKind kind
      → PlainResult (run_kind out base_url id kind s).0
  unfolding run_kind run_assert run_condition run_delay asserted
  run_kind-PlainResult base_url id _ s (assert_kind config) =
      after-PlainResult (Value N) (source_value out config.source config.path)
        (λ value.
          lift (compare out config.operator value config.expected) >>= asserted config id value)
        s
        (λ value s'.
          after-PlainResult Bool (lift (compare out config.operator value config.expected))
            (asserted config id value) s' (asserted-PlainResult config id value))
  run_kind-PlainResult base_url id _ s (condition_kind config) =
      after-PlainResult (Value N) (source_value out config.source config.path)
        (λ value.
          lift (compare out config.operator value config.value) >>= λ passed. return (bool passed))
        s
        (λ value s'.
          after-PlainResult Bool (lift (compare out config.operator value config.value))
            (λ passed. return (bool passed)) s' (λ passed s''. of_bool passed))
  run_kind-PlainResult base_url id _ s (delay_kind ms) =
      after-PlainResult Unit (sleep out ms)
        (λ _. return (object (field (text "ms") (number (out.number ms)) end))) s
        (λ slept s'. of_delay (out.number ms))

  node_result-IsPlain :
      (id : Text) (r : Result (Value N)) → PlainResult r → IsPlain (node_result out id r).output
  unfolding node_result
  node_result-IsPlain id (ok v) h = h
  node_result-IsPlain id (err e) h = of_null

  -- A source that is, after trimming, `head.output` does not resolve when `head` has the result of an
  -- assert, a condition or a delay, from whatever state it ran and whether it failed or not, and when
  -- the source does not begin with `var.`: the path is looked up in the output itself, which has no
  -- such key.
  pub output-unresolved :
      (base_url raw head id : Text) (kind : NodeKind N) (before s : RunState N W)
      → IsPlainKind kind
      → strip_prefix (text "var.") (trim raw) ≡ none
      → find_split b'.' (trim raw) ≡ (head, some (text "output"))
      → lookup head s.node_results
        ≡ some (node_result out id (run_kind out base_url id kind before).0)
      → resolve_source out raw s
        ≡ err (WorkflowError.node [] (text "source path not found: " ++ trim raw))
  unfolding resolve_source trimmed_source split_source output_path walk split
  output-unresolved base_url raw head id kind before s plain no_var parts found =
      let result = (run_kind out base_url id kind before).0 in
      ap (trimmed_source out (trim raw) s) no_var
      ∙ ap (split_source out (trim raw) s) parts
      ∙ ap (output_path out (trim raw) s (text "output")) found
      ∙ ap (λ v. ok_or v (text "source path not found: " ++ trim raw) >>? walk out (trim raw) [])
          (plain-key_lookup (node_result out id result).output
            (node_result-IsPlain id result (run_kind-PlainResult base_url id kind before plain)))
