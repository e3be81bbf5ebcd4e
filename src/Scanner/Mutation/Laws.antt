-- ===== src/Scanner/Mutation/Laws.antt =====
-- The nested loops, beside all combinations.
use aiautotest.Common.{
  ℕ, zero, suc, ◌*◌, ◌%◌, ◌^◌, ◌≤◌, leb, Bool, true, false, List, [], ◌∷◌, ◌++◌, append_assoc,
  append-nil, Text, length, length-append, take, map, arith, ◌≡◌, refl, sym, ap, subst, ◌∙◌,
  Bool-cases, inl, inr,
}
use aiautotest.Domain.Flow.{HttpFlow}
use aiautotest.Scanner.Payloads.{PayloadTemplate}
use aiautotest.Scanner.Mutation.{
  Outside, AnalyzedParam, Mutation, mutate, push_templates, push_skills, push_params,
  unless_returned, mutations_for,
}

take-all : {A : Type 0} (n : ℕ) (xs : List A) → length xs ≤ n → take n xs ≡ xs
take-all zero [] h = refl
take-all zero (x ∷ xs) h = ground (arith, h)
take-all (suc n) [] h = refl
take-all (suc n) (x ∷ xs) h = ap (λ ys. x ∷ ys) (take-all n xs (omega (arith, h)))

take-append : {A : Type 0} (xs ys : List A) → take (length xs) (xs ++ ys) ≡ xs
take-append [] ys = refl
take-append (x ∷ xs) ys = ap (λ zs. x ∷ zs) (take-append xs ys)

-- How a loop that would push all of `whole` ends: with all of it, or with as much as the cap.
abbrev Ends : {A : Type 0} → ℕ → List A → Bool × List A → Type 0
Ends cap whole (false, out) = (out ≡ whole) × (length out ≤ cap)
Ends {A} cap whole (true, out) = (length out ≡ cap) × ((rest : List A) × (out ++ rest ≡ whole))

Ends-take :
    {A : Type 0} (cap : ℕ) (whole : List A) (r : Bool × List A)
    → Ends cap whole r
    → r.1 ≡ take cap whole
Ends-take cap whole (false, out) (e, le) =
    e ∙ sym (take-all cap whole (subst (λ xs. length xs ≤ cap) e le))
Ends-take cap whole (true, out) (e, (rest, q)) =
    sym (take-append out rest) ∙ ap (λ n. take n (out ++ rest)) e ∙ ap (take cap) q

module _ (out : Outside) where
  open out use {N, payloads_for}

  abbrev pub of_skill : HttpFlow → AnalyzedParam N → Text → List (Mutation N)
  of_skill flow param skill = map (mutate out flow param skill) (payloads_for skill)

  abbrev pub of_param : HttpFlow → AnalyzedParam N → List Text → List (Mutation N)
  of_param flow param [] = []
  of_param flow param (skill ∷ skills) = of_skill flow param skill ++ of_param flow param skills

  -- Every payload of every skill in every parameter.
  abbrev pub all_mutations : HttpFlow → List (AnalyzedParam N) → List Text → List (Mutation N)
  all_mutations flow [] skills = []
  all_mutations flow (param ∷ params) skills =
      of_param flow param skills ++ all_mutations flow params skills

  unless_returned-Ends :
      (cap : ℕ) (first more : List (Mutation N)) (r : Bool × List (Mutation N))
      (next : List (Mutation N) → Bool × List (Mutation N))
      → Ends cap first r
      → ((pushed : List (Mutation N))
          → length pushed ≤ cap
          → Ends cap (pushed ++ more) (next pushed))
      → Ends cap (first ++ more) (unless_returned out r next)
  unless_returned-Ends cap first more (true, pushed) next (e, (rest, q)) h =
      (e, (rest ++ more, sym (append_assoc pushed rest more) ∙ ap (λ xs. xs ++ more) q))
  unless_returned-Ends cap first more (false, pushed) next (e, le) h =
      subst (λ xs. Ends cap (xs ++ more) (next pushed)) e (h pushed le)

  push_templates-Ends :
      (cap : ℕ) (flow : HttpFlow) (param : AnalyzedParam N) (skill : Text)
      (ts : List PayloadTemplate) (pushed : List (Mutation N))
      → length pushed ≤ cap
      → Ends cap
          (pushed ++ map (mutate out flow param skill) ts)
          (push_templates out cap flow param skill ts pushed)
  unfolding push_templates
  push_templates-Ends cap flow param skill [] pushed le = (sym (append-nil pushed), le)
  push_templates-Ends cap flow param skill (t ∷ ts) pushed le =
      let m = mutate out flow param skill t in
      let ms = map (mutate out flow param skill) ts in
      elim (Bool-cases (leb cap (length pushed))) [
        | inl full ↦ rw full (ground (arith, full, le), (m ∷ ms, refl))
        | inr room ↦ rw room (
            subst
              (λ whole.
                Ends cap whole (push_templates out cap flow param skill ts (pushed ++ m ∷ [])))
              (append_assoc pushed (m ∷ []) ms)
              (push_templates-Ends cap flow param skill ts (pushed ++ m ∷ [])
                (ground (arith, room, length-append pushed (m ∷ [])))))
      ]

  push_skills-Ends :
      (cap : ℕ) (flow : HttpFlow) (param : AnalyzedParam N) (skills : List Text)
      (pushed : List (Mutation N))
      → length pushed ≤ cap
      → Ends cap
          (pushed ++ of_param flow param skills)
          (push_skills out cap flow param skills pushed)
  unfolding push_skills
  push_skills-Ends cap flow param [] pushed le = (sym (append-nil pushed), le)
  push_skills-Ends cap flow param (skill ∷ skills) pushed le =
      let first = push_templates out cap flow param skill (payloads_for skill) pushed in
      subst
        (λ whole.
          Ends cap whole (unless_returned out first (push_skills out cap flow param skills)))
        (append_assoc pushed (of_skill flow param skill) (of_param flow param skills))
        (unless_returned-Ends cap (pushed ++ of_skill flow param skill) (of_param flow param skills)
          first (push_skills out cap flow param skills)
          (push_templates-Ends cap flow param skill (payloads_for skill) pushed le)
          (push_skills-Ends cap flow param skills))

  push_params-Ends :
      (cap : ℕ) (flow : HttpFlow) (params : List (AnalyzedParam N)) (skills : List Text)
      (pushed : List (Mutation N))
      → length pushed ≤ cap
      → Ends cap
          (pushed ++ all_mutations flow params skills)
          (push_params out cap flow params skills pushed)
  unfolding push_params
  push_params-Ends cap flow [] skills pushed le = (sym (append-nil pushed), le)
  push_params-Ends cap flow (param ∷ params) skills pushed le =
      let first = push_skills out cap flow param skills pushed in
      subst
        (λ whole.
          Ends cap whole (unless_returned out first (push_params out cap flow params skills)))
        (append_assoc pushed (of_param flow param skills) (all_mutations flow params skills))
        (unless_returned-Ends cap (pushed ++ of_param flow param skills)
          (all_mutations flow params skills) first (push_params out cap flow params skills)
          (push_skills-Ends cap flow param skills pushed le)
          (push_params-Ends cap flow params skills))

  -- The mutations of a flow are the first of all combinations of a parameter, a skill and one of its
  -- payloads, in the order of the three loops, up to limit_per_param times the number of parameters
  -- (modulo 2^64) in all: no parameter has a limit of its own.
  pub mutations_for-take :
      (limit_per_param : ℕ) (flow : HttpFlow) (params : List (AnalyzedParam N)) (skills : List Text)
      → mutations_for out limit_per_param flow params skills
        ≡ take ((limit_per_param * length params) % 2 ^ 64) (all_mutations flow params skills)
  unfolding mutations_for
  mutations_for-take limit_per_param flow params skills =
      let cap = (limit_per_param * length params) % 2 ^ 64 in
      Ends-take cap (all_mutations flow params skills) (push_params out cap flow params skills [])
        (push_params-Ends cap flow params skills [] (omega arith))
