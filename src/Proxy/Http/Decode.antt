-- ===== src/Proxy/Http/Decode.antt =====
-- crates/proxy/src/http/decode.rs: the decompression of a body, up to a length. The crates flate2
-- and brotli are parameters. `max` is less than `usize::MAX`.
use aiautotest.Common.{
  ℕ, zero, suc, ◌+◌, max, ltb, leb, if◌then◌else◌, Bool-cases, unwrap_or, ◌≡◌, refl, ◌∙◌, inl, inr,
  Bool, false, ◌&&◌, Option, none, some, List, [], ◌∷◌, arith, length, take, find, Text, text,
  text_eq, to_ascii_lowercase, eq_ignore_ascii_case, take-all,
}
use aiautotest.Proxy.Http.{Header}

-- What a decoder yields when it is read to the end: its bytes, and whether an error follows them.
pub record Reading : Type 0 where
  pub bytes : Text
  pub fails : Bool

pub record Decoders : Type 0 where
  pub gzip_decoder : Text → Reading
  pub brotli_decoder : Text → Reading
  pub zlib_decoder : Text → Reading

value_of : Option Header → Text
unfolding to_ascii_lowercase
value_of none = []
value_of (some header) = to_ascii_lowercase header.value

unfoldable pub content_encoding : List Header → Text
unfolding value_of eq_ignore_ascii_case
content_encoding headers =
    value_of (find (λ h. eq_ignore_ascii_case h.name (text "content-encoding")) headers)

-- `reader.take(limit).read_to_end(..).ok()`: an error behind the limit is not met.
unfoldable pub read_limited : (limit : ℕ) → Reading → Option Text
read_limited limit r =
    if leb limit (length r.bytes)
    then some (take limit r.bytes)
    else if r.fails
    then none
    else some r.bytes

module _ (decoders : Decoders) where
  open decoders use {gzip_decoder, brotli_decoder, zlib_decoder}

  unfoldable pub inflate_gzip : (body : Text) → (max : ℕ) → Option Text
  unfolding read_limited
  inflate_gzip body max = read_limited (max + 1) (gzip_decoder body)

  unfoldable pub inflate_brotli : (body : Text) → (max : ℕ) → Option Text
  unfolding read_limited
  inflate_brotli body max = read_limited (max + 1) (brotli_decoder body)

  unfoldable pub inflate_zlib : (body : Text) → (max : ℕ) → Option Text
  unfolding read_limited
  inflate_zlib body max = read_limited (max + 1) (zlib_decoder body)

  unfoldable pub inflated : (body encoding : Text) → (max : ℕ) → Text
  unfolding inflate_gzip inflate_brotli inflate_zlib
  inflated body encoding max =
      if text_eq encoding (text "br")
      then unwrap_or (inflate_brotli body max) body
      else if text_eq encoding (text "gzip")
      then unwrap_or (inflate_gzip body max) body
      else if text_eq encoding (text "deflate")
      then unwrap_or (inflate_zlib body max) body
      else body

  unfoldable pub decode_body : (body encoding : Text) → (max : ℕ) → Text
  unfolding inflated
  decode_body body encoding max =
      let decoded = inflated body encoding max in
      if ltb max (length decoded) then take max decoded else decoded

  -- The decoder for an encoding, when there is one.
  abbrev pub decoder_for : (encoding : Text) → Option (Text → Reading)
  decoder_for encoding =
      if text_eq encoding (text "br")
      then some brotli_decoder
      else if text_eq encoding (text "gzip")
      then some gzip_decoder
      else if text_eq encoding (text "deflate")
      then some zlib_decoder
      else none

  -- All that the decoder yields, or the body if there is no decoder or it fails within the cap.
  abbrev pub whole : (body : Text) → (max : ℕ) → Option (Text → Reading) → Text
  whole body max none = body
  whole body max (some decoder) =
      if (decoder body).fails && leb (length (decoder body).bytes) max
      then body
      else (decoder body).bytes

take-take {ℓ} : {A : Type ℓ} (n : ℕ) (xs : List A) → take n (take (suc n) xs) ≡ take n xs
take-take zero xs = refl
take-take (suc n) [] = refl
take-take (suc n) (x ∷ xs) = rw (take-take n xs)

abbrev capped : ℕ → Text → Text
capped max decoded = if ltb max (length decoded) then take max decoded else decoded

capped_lem : (max : ℕ) (decoded : Text) → capped max decoded ≡ take max decoded
capped_lem max decoded = ground (arith, take-all max decoded)

-- Reading one byte past the cap is enough to know what is cut.
take-read_limited :
    (max : ℕ) (body : Text) (r : Reading)
    → take max (unwrap_or (read_limited (max + 1) r) body)
      ≡ take max (if r.fails && leb (length r.bytes) max then body else r.bytes)
unfolding read_limited
take-read_limited max body r =
    let next : max + 1 ≡ suc max = omega arith in
    rw next (elim (Bool-cases (leb (suc max) (length r.bytes))) [
      | inl long ↦
          let over : leb (length r.bytes) max ≡ false = ground arith in
          ground (arith, take-take max r.bytes)
      | inr short ↦ ground arith
    ])

module _ (decoders : Decoders) where
  take-inflated :
      (body encoding : Text) (max : ℕ)
      → take max (inflated decoders body encoding max)
        ≡ take max (whole decoders body max (decoder_for decoders encoding))
  unfolding inflated
  take-inflated body encoding max = elim (Bool-cases (text_eq encoding (text "br"))) [
    | inl br ↦ rw br (take-read_limited max body (decoders.brotli_decoder body))
    | inr no_br ↦ elim (Bool-cases (text_eq encoding (text "gzip"))) [
      | inl gzip ↦ rw (no_br, gzip) (take-read_limited max body (decoders.gzip_decoder body))
      | inr no_gzip ↦ elim (Bool-cases (text_eq encoding (text "deflate"))) [
        | inl zlib ↦
            rw (no_br, no_gzip, zlib) (take-read_limited max body (decoders.zlib_decoder body))
        | inr other ↦ rw (no_br, no_gzip, other)
      ]
    ]
  ]

  -- The decoded body is the first `max` bytes of all that the decoder for its encoding yields, or of
  -- the body as it came when there is no such decoder or it fails before the cap is passed. It is about
  -- the code where `max` is less than `usize::MAX`, since the numbers here do not overflow.
  pub decode_body-take :
      (body encoding : Text) (max : ℕ)
      → decode_body decoders body encoding max
        ≡ take max (whole decoders body max (decoder_for decoders encoding))
  unfolding decode_body
  decode_body-take body encoding max =
      capped_lem max (inflated decoders body encoding max) ∙ take-inflated body encoding max
