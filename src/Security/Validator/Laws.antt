-- ===== src/Security/Validator/Laws.antt =====
-- Which plans are valid.
use aiautotest.Common.{
  map, length, All, IsDistinct, ◌↔◌, text_eq_iff, refl, sym, ap, ◌∙◌, ◌≤◌, ltb, Bool, true, false,
  not, ◌&&◌, List, [], ◌∷◌, ◌++◌, Text, text, contains, starts_with, trim, is_empty_text, arith,
  ◌≡◌,
}
use aiautotest.Security.{SecurityTest, SecurityTestPlan}
use aiautotest.Security.Validator.{
  tests_errors, validate_plan, base_url_errors, is_valid, ids_after, no_tests, too_many_tests,
  unknown_flaw, empty_method, is_empty, when, allowed_flaws, id_errors, path_errors, test_errors,
}

is_empty-append : {A : Type 0} (xs ys : List A) → is_empty (xs ++ ys) ≡ (is_empty xs && is_empty ys)
is_empty-append [] ys = refl
is_empty-append (x ∷ xs) ys = refl

is_empty-when : {A : Type 0} (b : Bool) (a : A) → is_empty (when b a) ≡ not b
is_empty-when true a = refl
is_empty-when false a = refl

-- What a test needs, apart from an id of its own.
pub record IsSound (t : SecurityTest) : Type 0 where
  pub named : is_empty_text (trim t.id) ≡ false
  pub known : contains t.flaw allowed_flaws ≡ true
  pub has_method : is_empty_text (trim t.target.method) ≡ false
  pub has_path : is_empty_text (trim t.target.path) ≡ false
  pub absolute : starts_with (text "/") t.target.path ≡ true

id_errors-empty :
    (ids : List Text) (id : Text)
    → is_empty (id_errors ids id) ≡ (not (is_empty_text (trim id)) && not (contains id ids))
unfolding id_errors
id_errors-empty ids id = ground arith

path_errors-empty :
    (id path : Text)
    → is_empty (path_errors id path)
      ≡ (not (is_empty_text (trim path)) && starts_with (text "/") path)
unfolding path_errors
path_errors-empty id path = ground arith

-- The test of `IsSound`.
sound : SecurityTest → Bool
sound t =
    not (is_empty_text (trim t.id))
    && (contains t.flaw allowed_flaws
        && (not (is_empty_text (trim t.target.method))
            && (not (is_empty_text (trim t.target.path)) && starts_with (text "/") t.target.path)))

sound_iff : (t : SecurityTest) → (sound t ≡ true) ↔ IsSound t
unfolding sound
sound_iff t = (
  (λ h. record {
    named = ground (arith, h);
    known = ground (arith, h);
    has_method = ground (arith, h);
    has_path = ground (arith, h);
    absolute = ground (arith, h);
  }),
  λ s. ground (arith, s.named, s.known, s.has_method, s.has_path, s.absolute),
)

test_errors-empty :
    (ids : List Text) (t : SecurityTest)
    → is_empty (test_errors ids t) ≡ (sound t && not (contains t.id ids))
unfolding test_errors sound
test_errors-empty ids t = ground (
  arith,
  id_errors-empty ids t.id,
  path_errors-empty t.id t.target.path,
  is_empty-append (id_errors ids t.id) (
      when (not (contains t.flaw allowed_flaws)) (unknown_flaw t.id t.flaw)
      ++ (when (is_empty_text (trim t.target.method)) (empty_method t.id)
          ++ path_errors t.id t.target.path)),
)

-- None of the ids is in the set.
Apart : List Text → List SecurityTest → Type 0
Apart ids ts = All (λ t. contains t.id ids ≡ false) ts

Apart-cons :
    (id : Text) (ids : List Text) (ts : List SecurityTest)
    → Apart (id ∷ ids) ts
    → (contains id (map SecurityTest.id ts) ≡ false) × Apart ids ts
unfolding Apart contains
Apart-cons id ids [] a = (refl, tt)
Apart-cons id ids (t ∷ ts) a =
    let (new, rest) = Apart-cons id ids ts a.1 in
    (
      ground (arith, a.0, new, text_eq_iff id t.id, text_eq_iff t.id id),
      (ground (arith, a.0), rest),
    )

cons-Apart :
    (id : Text) (ids : List Text) (ts : List SecurityTest)
    → contains id (map SecurityTest.id ts) ≡ false
    → Apart ids ts
    → Apart (id ∷ ids) ts
unfolding Apart contains
cons-Apart id ids [] h a = tt
cons-Apart id ids (t ∷ ts) h a = (
  ground (arith, h, a.0, text_eq_iff id t.id, text_eq_iff t.id id),
  cons-Apart id ids ts (ground (arith, h)) a.1,
)

Accepted : List Text → List SecurityTest → Type 0
Accepted ids ts = All IsSound ts × (IsDistinct (map SecurityTest.id ts) × Apart ids ts)

tests_errors-accepts :
    (ids : List Text) (ts : List SecurityTest)
    → is_empty (tests_errors ids ts) ≡ true
    → Accepted ids ts
unfolding tests_errors ids_after Accepted Apart sound
tests_errors-accepts ids [] h = (tt, (tt, tt))
tests_errors-accepts ids (t ∷ ts) h =
    let split = is_empty-append (test_errors ids t) (tests_errors (ids_after ids t.id) ts) in
    let here = test_errors-empty ids t in
    let fine : sound t ≡ true = ground (arith, h, split, here) in
    let s = (sound_iff t).0 fine in
    let next : ids_after ids t.id ≡ t.id ∷ ids = rw (s.named) refl in
    let more : is_empty (tests_errors (t.id ∷ ids) ts) ≡ true =
      ap (λ x. is_empty (tests_errors x ts)) (sym next) ∙ ground (arith, h, split) in
    let (sounds, (distinct, apart)) = tests_errors-accepts (t.id ∷ ids) ts more in
    let (new, rest) = Apart-cons t.id ids ts apart in
    ((s, sounds), ((new, distinct), (ground (arith, h, split, here), rest)))

accepts-tests_errors :
    (ids : List Text) (ts : List SecurityTest)
    → Accepted ids ts
    → is_empty (tests_errors ids ts) ≡ true
unfolding tests_errors ids_after Accepted Apart
accepts-tests_errors ids [] h = refl
accepts-tests_errors ids (t ∷ ts) ((s, sounds), ((new, distinct), (fresh, apart))) =
    let split = is_empty-append (test_errors ids t) (tests_errors (ids_after ids t.id) ts) in
    let here = test_errors-empty ids t in
    let fine = (sound_iff t).1 s in
    let next : ids_after ids t.id ≡ t.id ∷ ids = rw (s.named) refl in
    let more =
      ap (λ x. is_empty (tests_errors x ts)) next
      ∙ accepts-tests_errors (t.id ∷ ids) ts
          (sounds, (distinct, cons-Apart t.id ids ts new apart)) in
    ground (arith, split, here, fine, fresh, more)

module _ (is_url : Text → Bool) where
  pub record IsRunnable (plan : SecurityTestPlan) : Type 0 where
    pub base_named : is_empty_text (trim plan.base_url) ≡ false
    pub base_url : is_url plan.base_url ≡ true
    pub some_tests : 1 ≤ length plan.tests
    pub few_tests : length plan.tests ≤ 25
    pub sound : All IsSound plan.tests
    pub distinct : IsDistinct (map SecurityTest.id plan.tests)

  errors-empty :
      (plan : SecurityTestPlan)
      → is_valid (validate_plan is_url plan) ≡ (
          is_empty (base_url_errors is_url plan.base_url)
          && (not (is_empty plan.tests)
              && (not (ltb 25 (length plan.tests)) && is_empty (tests_errors [] plan.tests))))
  unfolding validate_plan is_valid
  errors-empty plan =
      let base = base_url_errors is_url plan.base_url in
      let none_given = when (is_empty plan.tests) no_tests in
      let many = when (ltb 25 (length plan.tests)) too_many_tests in
      let each = tests_errors [] plan.tests in
      ground (
        arith,
        is_empty-append base (none_given ++ (many ++ each)),
        is_empty-append none_given (many ++ each),
        is_empty-append many each,
        is_empty-when (is_empty plan.tests) no_tests,
        is_empty-when (ltb 25 (length plan.tests)) too_many_tests,
      )

  has_tests : (ts : List SecurityTest) → (is_empty ts ≡ false) ↔ (1 ≤ length ts)
  has_tests [] = ((λ h. ground (arith, h)), λ h. ground (arith, h))
  has_tests (t ∷ ts) = ((λ h. omega arith), λ h. refl)

  nothing-Apart : (ts : List SecurityTest) → Apart [] ts
  unfolding Apart contains
  nothing-Apart [] = tt
  nothing-Apart (t ∷ ts) = (refl, nothing-Apart ts)

  -- A plan is valid exactly when its base URL is a URL that is not blank, it has between 1 and 25
  -- tests, their ids are distinct, and each test has an id that is not blank, one of the allowed
  -- flaws, a method that is not blank, and a path that is not blank and begins with '/'.
  pub validate_plan_iff :
      (plan : SecurityTestPlan) → (is_valid (validate_plan is_url plan) ≡ true) ↔ IsRunnable plan
  unfolding base_url_errors Accepted
  validate_plan_iff plan =
      let all = errors-empty plan in
      let counted = has_tests plan.tests in
      (
        (λ h.
            let (sounds, (distinct, apart)) =
              tests_errors-accepts [] plan.tests (ground (arith, h, all)) in
            record {
              base_named = ground (arith, h, all);
              base_url = ground (arith, h, all);
              some_tests = counted.0 (ground (arith, h, all));
              few_tests = ground (arith, h, all);
              sound = sounds;
              distinct = distinct;
            }),
        λ v.
            let each =
              accepts-tests_errors [] plan.tests
                (v.sound, (v.distinct, nothing-Apart plan.tests)) in
            let given = counted.1 v.some_tests in
            ground (arith, all, each, given, v.base_named, v.base_url, v.few_tests),
      )
