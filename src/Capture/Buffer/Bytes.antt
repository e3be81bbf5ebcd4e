-- ===== src/Capture/Buffer/Bytes.antt =====
-- The bytes that a queue really holds, and the eviction loop against them.
use aiautotest.Common.{
  ℕ, zero, suc, ◌+◌, ◌%◌, ◌^◌, ◌≤◌, ◌≡◌, refl, ◌⊎◌, inl, inr, List, [], ◌∷◌, ◌++◌, true, length,
  drop, arith, usize_max, Bool-cases,
}
use aiautotest.Domain.Flow.{HttpFlow, size_bytes}
use aiautotest.Domain.Flow.Laws.{size_bytes-min}
use aiautotest.Capture.Buffer.{FlowBuffer, evict, fits, fetch_sub}

unfoldable pub total_bytes : List HttpFlow → ℕ
total_bytes [] = 0
total_bytes (f ∷ queue) = size_bytes f + total_bytes queue

pub total_bytes-append :
    (xs ys : List HttpFlow) → total_bytes (xs ++ ys) ≡ total_bytes xs + total_bytes ys
unfolding total_bytes
total_bytes-append [] ys = omega arith
total_bytes-append (f ∷ xs) ys = omega (arith, total_bytes-append xs ys)

pub size_bytes-le : (f : HttpFlow) → size_bytes f ≤ usize_max
size_bytes-le f = omega (arith, size_bytes-min f)

-- The loop leaves a suffix of the queue, and the bytes of that suffix.
pub evict-suffix :
    (b : FlowBuffer) (incoming : ℕ) (queue : List HttpFlow) (bytes n : ℕ)
    → bytes ≡ total_bytes queue % 2 ^ 64
    → (k : ℕ) × ((evict b incoming queue bytes n).0 ≡ drop k queue)
      × ((evict b incoming queue bytes n).2 ≡ n + k)
      × (k ≤ length queue)
      × ((evict b incoming queue bytes n).1 ≡ total_bytes (drop k queue) % 2 ^ 64)
      × (((evict b incoming queue bytes n).0 ≡ [])
          ⊎ (fits b
                (length (evict b incoming queue bytes n).0)
                (evict b incoming queue bytes n).1
                incoming
              ≡ true))
unfolding evict total_bytes
evict-suffix b incoming [] bytes n h = (0, refl, omega arith, omega arith, h, inl refl)
evict-suffix b incoming (f ∷ queue) bytes n h =
    elim (Bool-cases (fits b (suc (length queue)) bytes incoming)) [
      | inl stop ↦ (0, rw stop, rw stop (omega arith), omega arith, rw stop h, inr (rw stop stop))
      | inr more ↦
          let (k, kept, count, bound, left, end) =
            evict-suffix b incoming queue (fetch_sub bytes (size_bytes f)) (n + 1) (omega arith) in
          (suc k, rw more kept, rw more (omega arith), omega arith, rw more left, rw more end)
    ]

pub total_bytes-drop-le :
    (k : ℕ) (queue : List HttpFlow) → total_bytes (drop k queue) ≤ total_bytes queue
unfolding total_bytes
total_bytes-drop-le zero queue = omega arith
total_bytes-drop-le (suc k) [] = omega arith
total_bytes-drop-le (suc k) (f ∷ queue) = omega (arith, total_bytes-drop-le k queue)
