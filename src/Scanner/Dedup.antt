-- ===== src/Scanner/Dedup.antt =====
-- crates/scanner/src/dedup.rs: drops requests that were already dispatched. The set is emptied when it
-- has reached its limit, which is at least 1.
use aiautotest.Common.{
  IsDistinct, ℕ, ◌+◌, ◌≤◌, ◌<◌, ◌≡◌, refl, Bool, true, false, ◌||◌, List, [], ◌∷◌, Text, length,
  arith, leb, max, if◌then◌else◌, contains, text_eq_refl, map, not, ◌∙◌, text_eq, text_eq_iff,
}
use aiautotest.Scanner.Request.{HttpRequest, fingerprint}

abbrev pub default_dedup_limit : ℕ
default_dedup_limit = 100000

pub record RequestDedup : Type 0 where
  pub seen : List Text
  pub enabled : Bool
  pub limit : ℕ

unfoldable pub with_limit : Bool → ℕ → RequestDedup
with_limit enabled limit = record { seen = []; enabled = enabled; limit = max limit 1 }

unfoldable pub new : Bool → RequestDedup
unfolding with_limit
new enabled = with_limit enabled default_dedup_limit

-- Whether the fingerprint is new, under the lock.
unfoldable pub see : Text → RequestDedup → RequestDedup × Bool
see print d =
    if contains print d.seen
    then (d, false)
    else (record d { seen = print ∷ (if leb d.limit (length d.seen) then [] else d.seen) }, true)

unfoldable pub first_seen : (Text → Text) → HttpRequest → RequestDedup → RequestDedup × Bool
unfolding see
first_seen md5_hex r d = if not d.enabled then (d, true) else see (fingerprint md5_hex r) d

-- No text stands twice in the list.
pub record IsValid (d : RequestDedup) : Type 0 where
  pub positive : 0 < d.limit
  pub bounded : length d.seen ≤ d.limit
  pub distinct : IsDistinct d.seen

module _ (md5_hex : Text → Text) (r : HttpRequest) (d : RequestDedup) where
  -- From a set within its limit and without repetition, `first_seen` leaves one, on every branch.
  pub first_seen-IsValid : IsValid d → IsValid (first_seen md5_hex r d).0
  unfolding first_seen contains
  first_seen-IsValid v = ground arith

  -- With deduplication on, a request that comes twice in a row is not let through the second time,
  -- whatever the limit.
  pub first_seen_twice :
      d.enabled ≡ true → (first_seen md5_hex r (first_seen md5_hex r d).0).1 ≡ false
  unfolding first_seen contains
  first_seen_twice e = ground (arith, text_eq_refl (fingerprint md5_hex r))

-- A run of requests, oldest first.
unfoldable pub feed : (Text → Text) → List HttpRequest → RequestDedup → RequestDedup
feed md5_hex [] d = d
feed md5_hex (r ∷ rs) d = feed md5_hex rs (first_seen md5_hex r d).0

module _ (md5_hex : Text → Text) where
  first_seen-contains :
      (r : HttpRequest) (d : RequestDedup) (k : Text)
      → d.enabled ≡ true
      → length d.seen < d.limit
      → contains k (first_seen md5_hex r d).0.seen
        ≡ (text_eq (fingerprint md5_hex r) k || contains k d.seen)
  unfolding first_seen contains
  first_seen-contains r d k e h = ground (arith, text_eq_iff (fingerprint md5_hex r) k)

  first_seen-keeps :
      (r : HttpRequest) (d : RequestDedup)
      → ((first_seen md5_hex r d).0.enabled ≡ d.enabled)
        × ((first_seen md5_hex r d).0.limit ≡ d.limit)
        × (length (first_seen md5_hex r d).0.seen ≤ length d.seen + 1)
  unfolding first_seen
  first_seen-keeps r d = (ground arith, ground arith, ground arith)

  feed-contains :
      (rs : List HttpRequest) (d : RequestDedup) (k : Text)
      → d.enabled ≡ true
      → length d.seen + length rs ≤ d.limit
      → contains k (feed md5_hex rs d).seen
        ≡ (contains k (map (fingerprint md5_hex) rs) || contains k d.seen)
  unfolding feed contains
  feed-contains [] d k e h = refl
  feed-contains (r ∷ rs) d k e h =
      let (same, limit, grows) = first_seen-keeps r d in
      let later = feed-contains rs (first_seen md5_hex r d).0 k (same ∙ e) (omega arith) in
      let now = first_seen-contains r d k e (omega arith) in ground arith

  feed-enabled :
      (rs : List HttpRequest) (d : RequestDedup) → (feed md5_hex rs d).enabled ≡ d.enabled
  unfolding feed
  feed-enabled [] d = refl
  feed-enabled (r ∷ rs) d = feed-enabled rs (first_seen md5_hex r d).0 ∙ (first_seen-keeps r d).0

  -- As long as no more requests have come than the limit allows, the set is an exact memory: a request
  -- is let through exactly when none before it had its fingerprint.
  pub first_seen-feed :
      (rs : List HttpRequest) (r : HttpRequest) (limit : ℕ)
      → length rs ≤ limit
      → (first_seen md5_hex r (feed md5_hex rs (with_limit true limit))).1
        ≡ not (contains (fingerprint md5_hex r) (map (fingerprint md5_hex) rs))
  unfolding first_seen with_limit contains
  first_seen-feed rs r limit h =
      let d = with_limit true limit in
      let print = fingerprint md5_hex r in
      ground (arith, feed-enabled rs d, feed-contains rs d print refl (omega arith))
