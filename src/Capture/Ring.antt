-- ===== src/Capture/Ring.antt =====
-- crates/capture/src/ring.rs: a bounded log that forgets its oldest items. The lock is held for the
-- whole of each method, so a method is one step. The head of the list is the front of the deque.
pub mod Laws
use aiautotest.Common.{
  ℕ, zero, suc, Bool, ◌≡◌, Option, none, some, List, [], ◌∷◌, ◌++◌, length, leb, ◌==◌,
  if◌then◌else◌,
}

pub record RingBuffer {ℓ} (T : Type ℓ) : Type ℓ where
  pub items : List T
  pub capacity : ℕ

module _ {ℓ} {T : Type ℓ} where
  -- The constructor's assertion fails at capacity 0.
  unfoldable pub new : ℕ → Option (RingBuffer T)
  new zero = none
  new (suc c) = some (record { items = []; capacity = suc c })

  unfoldable pub pop_front : List T → List T
  pop_front [] = []
  pop_front (x ∷ xs) = xs

  unfoldable pub push : T → RingBuffer T → RingBuffer T
  unfolding pop_front
  push item b =
      let kept = if leb b.capacity (length b.items) then pop_front b.items else b.items in
      record b { items = kept ++ item ∷ [] }

  unfoldable pub len : RingBuffer T → ℕ
  len b = length b.items

  unfoldable pub is_empty : RingBuffer T → Bool
  unfolding len
  is_empty b = len b == 0

  unfoldable pub clear : RingBuffer T → RingBuffer T
  clear b = record b { items = [] }

  unfoldable pub snapshot : RingBuffer T → List T
  snapshot b = b.items

  -- A run of pushes, oldest first.
  unfoldable pub push_all : List T → RingBuffer T → RingBuffer T
  push_all [] b = b
  push_all (x ∷ xs) b = push_all xs (push x b)
