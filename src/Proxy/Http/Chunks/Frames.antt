-- ===== src/Proxy/Http/Chunks/Frames.antt =====
-- Chunk framing as a sender writes it, and its reading by `decode_chunked`.
use aiautotest.Common.{
  ℕ, zero, suc, ◌+◌, ◌≤◌, ◌<◌, ◌==◌, ◌≡◌, refl, sym, ap, ◌∙◌, Bool, true, not, some, List, [], ◌∷◌,
  ◌++◌, append_assoc, append-nil, arith, length, take, drop, all, length-append, All, Text,
}
use aiautotest.Proxy.Http.Chunks.{
  last, payload, decoded, find_crlf, skip_crlf, read_payload, read_sized, read_line, read_chunk,
  read_size, decode_loop, decode_chunked,
}

-- A size line, which may have white space, extensions and any case of the digits, and its bytes.
pub record Frame : Type 0 where
  pub line : Text
  pub bytes : Text

abbrev pub crlf : Text → Text
crlf rest = b'\r' ∷ b'\n' ∷ rest

abbrev pub is_line : Text → Bool
is_line line = all (λ c. not (c == b'\r')) line

-- The line has no carriage return and gives the number of the bytes, of which there are some.
pub record IsFrame (f : Frame) : Type 0 where
  pub one_line : is_line f.line ≡ true
  pub size_given : read_size f.line ≡ some (length f.bytes)
  pub some_bytes : 0 < length f.bytes

unfoldable pub encode : (frames : List Frame) → (end : Text) → Text
encode [] end = end
encode (f ∷ fs) end = f.line ++ crlf (f.bytes ++ crlf (encode fs end))

unfoldable pub contents : List Frame → Text
contents [] = []
contents (f ∷ fs) = f.bytes ++ contents fs

find_crlf-line :
    (line rest : Text) → is_line line ≡ true → find_crlf (line ++ crlf rest) ≡ some (length line)
unfolding find_crlf
find_crlf-line [] rest h = refl
find_crlf-line (a ∷ []) rest h = ground arith
find_crlf-line (a ∷ b ∷ s) rest h = ground (arith, find_crlf-line (b ∷ s) rest)

module _ {ℓ} {A : Type ℓ} where
  take-append : (xs ys : List A) → take (length xs) (xs ++ ys) ≡ xs
  take-append [] ys = refl
  take-append (x ∷ xs) ys = rw (take-append xs ys)

  drop-append : (xs ys : List A) → drop (length xs) (xs ++ ys) ≡ ys
  drop-append [] ys = refl
  drop-append (x ∷ xs) ys = drop-append xs ys

  drop-append_two :
      (xs : List A) (a b : A) (ys : List A) → drop (length xs + 2) (xs ++ a ∷ b ∷ ys) ≡ ys
  drop-append_two [] a b ys = refl
  drop-append_two (x ∷ xs) a b ys =
      let shifted : suc (length xs) + 2 ≡ suc (length xs + 2) = omega arith in
      rw (shifted, drop-append_two xs a b ys)

read_line-line :
    (line rest : Text)
    → read_line (some (length line)) (line ++ crlf rest) ≡ read_sized (read_size line) rest
unfolding read_line
read_line-line line rest = rw (take-append line (crlf rest), drop-append_two line b'\r' b'\n' rest)

read_payload-frame :
    (bytes rest : Text)
    → 0 < length bytes
    → read_payload (length bytes) (bytes ++ crlf rest) ≡ payload bytes rest
unfolding read_payload skip_crlf
read_payload-frame bytes rest h =
    let long = length-append bytes (crlf rest) in
    ground (arith, take-append bytes (crlf rest), drop-append bytes (crlf rest), long)

read_chunk-frame :
    (f : Frame) (rest : Text)
    → IsFrame f
    → read_chunk (f.line ++ crlf (f.bytes ++ crlf rest)) ≡ payload f.bytes rest
unfolding read_chunk
read_chunk-frame f rest h =
    rw
      (
        find_crlf-line f.line (f.bytes ++ crlf rest) h.one_line,
        read_line-line f.line (f.bytes ++ crlf rest),
        h.size_given,
        read_sized,
      )
      (read_payload-frame f.bytes rest h.some_bytes)

decode_loop-payload :
    (fuel : ℕ) (done body bytes rest : Text)
    → read_chunk body ≡ payload bytes rest
    → decode_loop (suc fuel) done body ≡ decode_loop fuel (done ++ bytes) rest
unfolding decode_loop read_chunk read_line
decode_loop-payload fuel done [] bytes rest e = cc e
decode_loop-payload fuel done (c ∷ s) bytes rest e = rw (e, decode_loop)

decode_loop-last :
    (fuel : ℕ) (done body : Text)
    → read_chunk body ≡ last
    → decode_loop (suc fuel) done body ≡ decoded done
unfolding decode_loop
decode_loop-last fuel done [] e = refl
decode_loop-last fuel done (c ∷ s) e = rw (e, decode_loop)

decode_loop-encode :
    (frames : List Frame) (end : Text) (fuel : ℕ) (done : Text)
    → All IsFrame frames
    → length (encode frames end) ≤ fuel
    → ((n : ℕ) (all : Text) → length end ≤ n → decode_loop n all end ≡ decoded all)
    → decode_loop fuel done (encode frames end) ≡ decoded (done ++ contents frames)
unfolding encode contents
decode_loop-encode [] end fuel done fs enough ends =
    ends fuel done enough ∙ ap decoded (sym (append-nil done))
decode_loop-encode (f ∷ frames) end zero done fs enough ends =
    absurd (omega (arith, length-append f.line (crlf (f.bytes ++ crlf (encode frames end)))))
decode_loop-encode (f ∷ frames) end (suc fuel) done fs enough ends =
    let outer = length-append f.line (crlf (f.bytes ++ crlf (encode frames end))) in
    let inner = length-append f.bytes (crlf (encode frames end)) in
    let first = decode_loop-payload fuel done _ _ _ (read_chunk-frame f (encode frames end) fs.0) in
    let others =
      decode_loop-encode frames end fuel (done ++ f.bytes) fs.1 (omega (arith, outer, inner))
        ends in
    first ∙ others ∙ ap decoded (append_assoc done f.bytes (contents frames))

module _ (line trailer : Text) (one_line : is_line line ≡ true)
    (zero_size : read_size line ≡ some 0) where
  read_chunk-end : read_chunk (line ++ crlf trailer) ≡ last
  unfolding read_chunk read_payload
  read_chunk-end =
      rw (find_crlf-line line trailer one_line, read_line-line line trailer, zero_size, read_sized)

  decode_loop-end :
      (n : ℕ) (all : Text)
      → length (line ++ crlf trailer) ≤ n
      → decode_loop n all (line ++ crlf trailer) ≡ decoded all
  decode_loop-end zero all h = absurd (omega (arith, length-append line (crlf trailer)))
  decode_loop-end (suc n) all h = decode_loop-last n all _ read_chunk-end

-- Frames with correct sizes, then a line whose size is zero and anything behind it, decode to the
-- frames' bytes, one after the other.
pub decode_chunked-encode :
    (frames : List Frame) (line trailer : Text)
    → All IsFrame frames
    → is_line line ≡ true
    → read_size line ≡ some 0
    → decode_chunked (encode frames (line ++ crlf trailer)) ≡ decoded (contents frames)
unfolding decode_chunked
decode_chunked-encode frames line trailer fs one_line zero_size =
    decode_loop-encode frames (line ++ crlf trailer) _ [] fs (omega arith)
      (decode_loop-end line trailer one_line zero_size)

-- The same frames decode to the same bytes when the body is cut off behind the last of them.
pub decode_chunked-cut :
    (frames : List Frame)
    → All IsFrame frames
    → decode_chunked (encode frames []) ≡ decoded (contents frames)
unfolding decode_chunked decode_loop
decode_chunked-cut frames fs = decode_loop-encode frames [] _ [] fs (omega arith) (λ n all h. refl)
