-- ===== src/Proxy/Http/Chunks/Laws.antt =====
-- How long chunks are, and what of a body `decode_chunked` reads.
use aiautotest.Common.{
  ℕ, zero, suc, ◌+◌, ◌≤◌, ◌<◌, ◌≡◌, refl, subst, ◌≢◌, ◌⊎◌, inl, inr, Option, none, some, [], ◌∷◌,
  ◌++◌, arith, length, take, drop, length-append, length-take, length-drop, Text,
}
use aiautotest.Proxy.Http.Chunks.{
  Chunk, bad, last, payload, Outcome, decoded, malformed, out_of_fuel, find_crlf, skip_crlf,
  read_payload, read_sized, read_line, read_chunk, read_size, decode_loop, decode_chunked,
}

-- Both parts of a chunk lie behind its size line.
abbrev FitsIn : Text → Chunk → Type 0
FitsIn body (payload bytes rest) = length bytes + length rest < length body
FitsIn body bad = Unit
FitsIn body last = Unit

length-skip_crlf : (s : Text) → length (skip_crlf s) ≤ length s
unfolding skip_crlf
length-skip_crlf [] = omega arith
length-skip_crlf (a ∷ []) = ground arith
length-skip_crlf (a ∷ b ∷ s) = ground arith

read_payload-FitsIn :
    (size : ℕ) (rest body : Text) → length rest < length body → FitsIn body (read_payload size rest)
unfolding read_payload
read_payload-FitsIn size rest body h =
    let front = length-take size rest in
    let back = length-drop size rest in
    ground (arith, length-skip_crlf (drop size rest), front, back)

read_sized-FitsIn :
    (o : Option ℕ) (rest body : Text) → length rest < length body → FitsIn body (read_sized o rest)
unfolding read_sized
read_sized-FitsIn none rest body h = tt
read_sized-FitsIn (some size) rest body h = read_payload-FitsIn size rest body h

read_line-FitsIn : (o : Option ℕ) (body : Text) → body ≢ [] → FitsIn body (read_line o body)
unfolding read_line
read_line-FitsIn none body h = tt
read_line-FitsIn (some i) [] h = absurd (h refl)
read_line-FitsIn (some i) (c ∷ s) h =
    let cut = length-drop (i + 2) (c ∷ s) in
    read_sized-FitsIn (read_size (take i (c ∷ s))) (drop (i + 2) (c ∷ s)) (c ∷ s)
      (omega (arith, cut))

read_chunk-FitsIn : (c : ℕ) (s : Text) → FitsIn (c ∷ s) (read_chunk (c ∷ s))
unfolding read_chunk
read_chunk-FitsIn c s = read_line-FitsIn (find_crlf (c ∷ s)) (c ∷ s) (λ e. cc e)

Chunk-cases :
    (k : Chunk)
    → (k ≡ bad) ⊎ ((k ≡ last) ⊎ ((bytes : Text) × (rest : Text) × (k ≡ payload bytes rest)))
Chunk-cases bad = inl refl
Chunk-cases last = inr (inl refl)
Chunk-cases (payload bytes rest) = inr (inr (bytes, rest, refl))

-- The result holds at most `size` bytes.
abbrev pub Within : ℕ → Outcome → Type 0
Within size (decoded body) = length body ≤ size
Within size malformed = Unit
Within size out_of_fuel = ⊥

Within-le : (a b : ℕ) (o : Outcome) → a ≤ b → Within a o → Within b o
Within-le a b (decoded body) h w = omega arith
Within-le a b malformed h w = tt
Within-le a b out_of_fuel h w = absurd w

decode_loop-Within :
    (fuel : ℕ) (done rest : Text)
    → length rest ≤ fuel
    → Within (length done + length rest) (decode_loop fuel done rest)
unfolding decode_loop
decode_loop-Within fuel done [] h = omega arith
decode_loop-Within zero done (c ∷ s) h = ground arith
decode_loop-Within (suc fuel) done (c ∷ s) h = elim (Chunk-cases (read_chunk (c ∷ s))) [
  | inl e ↦ rw (e, decode_loop) tt
  | inr (inl e) ↦ rw (e, decode_loop) (omega arith)
  | inr (inr (bytes, rest, e)) ↦
      let fits = subst (FitsIn (c ∷ s)) e (read_chunk-FitsIn c s) in
      let long = length-append done bytes in
      let later = decode_loop-Within fuel (done ++ bytes) rest (omega (arith, fits)) in
      rw (e, decode_loop) (Within-le _ _ _ (omega (arith, fits, long)) later)
]

-- `decode_chunked` ends on every body, and what it returns is no longer than the body.
pub decode_chunked-Within : (body : Text) → Within (length body) (decode_chunked body)
unfolding decode_chunked
decode_chunked-Within body =
    Within-le _ _ _ (omega arith) (decode_loop-Within (length body) [] body (omega arith))
