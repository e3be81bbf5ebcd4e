-- ===== src/Analysis/Noise/Laws.antt =====
-- Which requests are kept for analysis.
use aiautotest.Common.{
  Bool-cases, ◌≡◌, refl, inl, inr, not, ◌&&◌, List, [], ◌∷◌, map, arith, Text, text_eq_iff,
  text_eq_refl, contains, IsDistinct,
}
use aiautotest.Domain.Flow.{HttpFlow}
use aiautotest.Domain.Scope.{RegexEngine}
use aiautotest.Analysis.Noise.{is_noise, filter_noise, key, filter_from, filter_for_analysis}

module _ (engine : RegexEngine) (host_patterns path_patterns : List engine.Regex) where
  -- The methods and paths of flows.
  abbrev pub keys : List HttpFlow → List Text
  keys flows = map (key engine host_patterns path_patterns) flows

  filter_from-contains :
      (k : Text) (seen : List Text) (flows : List HttpFlow)
      → contains k (keys (filter_from engine host_patterns path_patterns seen flows)) ≡ (
          contains k (keys (filter_noise engine host_patterns path_patterns flows))
          && not (contains k seen))
  unfolding filter_from filter_noise contains
  filter_from-contains k seen [] = refl
  filter_from-contains k seen (f ∷ flows) =
      let kf = key engine host_patterns path_patterns f in
      let same = text_eq_iff kf k in
      elim (Bool-cases (is_noise engine host_patterns path_patterns f.host f.path)) [
        | inl noise ↦ rw noise (filter_from-contains k seen flows)
        | inr clean ↦ elim (Bool-cases (contains kf seen)) [
          | inl known ↦
              let rest = filter_from-contains k seen flows in
              rw (clean, known) (ground (arith, rest, same, known))
          | inr fresh ↦
              let rest = filter_from-contains k (kf ∷ seen) flows in
              rw (clean, fresh) (ground (arith, rest, same, fresh))
        ]
      ]

  filter_from-IsDistinct :
      (seen : List Text) (flows : List HttpFlow)
      → IsDistinct (keys (filter_from engine host_patterns path_patterns seen flows))
  unfolding filter_from contains
  filter_from-IsDistinct seen [] = tt
  filter_from-IsDistinct seen (f ∷ flows) =
      let kf = key engine host_patterns path_patterns f in
      elim (Bool-cases (is_noise engine host_patterns path_patterns f.host f.path)) [
        | inl noise ↦ rw noise (filter_from-IsDistinct seen flows)
        | inr clean ↦ elim (Bool-cases (contains kf seen)) [
          | inl known ↦ rw (clean, known) (filter_from-IsDistinct seen flows)
          | inr fresh ↦
              let rest = filter_from-contains kf (kf ∷ seen) flows in
              rw (clean, fresh)
                (ground (arith, rest, text_eq_refl kf), filter_from-IsDistinct (kf ∷ seen) flows)
        ]
      ]

  -- No method and path is kept twice, and those kept are exactly those of the flows that are no noise.
  pub filter_for_analysis-keys :
      (flows : List HttpFlow)
      → IsDistinct (keys (filter_for_analysis engine host_patterns path_patterns flows))
        × ((k : Text)
            → contains k (keys (filter_for_analysis engine host_patterns path_patterns flows))
              ≡ contains k (keys (filter_noise engine host_patterns path_patterns flows)))
  unfolding filter_for_analysis contains
  filter_for_analysis-keys flows =
      (filter_from-IsDistinct [] flows, λ k. ground (arith, filter_from-contains k [] flows))
