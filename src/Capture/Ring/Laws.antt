-- ===== src/Capture/Ring/Laws.antt =====
-- The ring holds the newest items, and never more than its capacity.
use aiautotest.Common.{
  ℕ, suc, ◌-◌, ◌≤◌, ◌<◌, ◌≡◌, refl, ◌∙◌, ap, List, [], ◌∷◌, ◌++◌, length, length-append, drop,
  arith, Bool-cases, false, sym, append-nil, ltb, ltb→lt, leb, le→leb, inl, inr, append_assoc,
}
use aiautotest.Capture.Ring.{RingBuffer, push, push_all}

-- The last `n` items of a list.
abbrev pub last {ℓ} : {T : Type ℓ} → ℕ → List T → List T
last n xs = drop (length xs - n) xs

module _ {ℓ} {T : Type ℓ} where
  push_all-capacity : (xs : List T) (b : RingBuffer T) → (push_all xs b).capacity ≡ b.capacity
  unfolding push_all push
  push_all-capacity [] b = refl
  push_all-capacity (x ∷ xs) b = push_all-capacity xs (push x b)

  last_short : (n : ℕ) (xs : List T) → length xs ≤ n → last n xs ≡ xs
  last_short n xs h = let e : length xs - n ≡ 0 = omega arith in rw e

  last-cons : (n : ℕ) (x : T) (xs : List T) → n ≤ length xs → last n (x ∷ xs) ≡ last n xs
  last-cons n x xs h = let e : suc (length xs) - n ≡ suc (length xs - n) = omega arith in rw e

  push-full :
      (x y : T) (ys : List T) (n : ℕ)
      → n ≤ suc (length ys)
      → push x (record { items = y ∷ ys; capacity = n })
        ≡ record { items = ys ++ x ∷ []; capacity = n }
  unfolding push
  push-full x y ys n h = rw (le→leb n (suc (length ys)) h)

  push-room :
      (x : T) (xs : List T) (n : ℕ)
      → length xs < n
      → push x (record { items = xs; capacity = n }) ≡ record { items = xs ++ x ∷ []; capacity = n }
  unfolding push
  push-room x xs n h = let e : leb n (length xs) ≡ false = ground arith in rw e

  push_all-last_from :
      (xs items : List T) (n : ℕ)
      → 0 < n
      → length items ≤ n
      → (push_all xs (record { items = items; capacity = n })).items ≡ last n (items ++ xs)
  unfolding push_all
  push_all-last_from [] items n h k = rw append-nil (sym (last_short n items k))
  push_all-last_from (x ∷ xs) [] n h k =
      rw (push-room x [] n h, push_all) (push_all-last_from xs (x ∷ []) n h h)
  push_all-last_from (x ∷ xs) (y ∷ ys) n h k =
      let grown = length-append ys (x ∷ []) in
      let total = length-append ys (x ∷ xs) in
      elim (Bool-cases (ltb (suc (length ys)) n)) [
        | inl room ↦
            let lt = ltb→lt (suc (length ys)) n room in
            rw (push-room x (y ∷ ys) n lt, push_all)
              (push_all-last_from xs (y ∷ (ys ++ x ∷ [])) n h (omega arith)
                ∙ ap (λ zs. last n (y ∷ zs)) (append_assoc ys (x ∷ []) xs))
        | inr full ↦
            rw (push-full x y ys n (ground arith), push_all)
              (push_all-last_from xs (ys ++ x ∷ []) n h (omega arith)
                ∙ ap (last n) (append_assoc ys (x ∷ []) xs)
                ∙ sym (last-cons n y (ys ++ x ∷ xs) (ground arith)))
      ]

  -- From any state within its capacity, what a run of pushes leaves is the newest items of the old
  -- content and the pushed ones together, as many as the capacity allows.
  pub push_all-last :
      (xs : List T) (b : RingBuffer T)
      → 0 < b.capacity
      → length b.items ≤ b.capacity
      → (push_all xs b).items ≡ last b.capacity (b.items ++ xs)
  push_all-last xs b h k = push_all-last_from xs b.items b.capacity h k
