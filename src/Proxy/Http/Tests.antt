-- ===== src/Proxy/Http/Tests.antt =====
-- Runs of the HTTP code, most of them tests of the source, and its theorems at concrete inputs.
use aiautotest.Common.{
  ℕ, ◌+◌, ◌≤◌, ◌≡◌, refl, true, false, none, some, List, [], ◌∷◌, ◌++◌, arith, length, take, drop,
  All, Text, text, text_eq, text_le, set_insert,
}
use aiautotest.Proxy.Http.{
  content_length, ParsedRequest, parse_request, parse_response, find_head_end,
}
use aiautotest.Proxy.Http.Laws.{parse_request-append, parse_request-Consumes}
use aiautotest.Proxy.Http.Chunks.{decode_chunked, decoded, read_size}
use aiautotest.Proxy.Http.Chunks.Frames.{
  Frame, IsFrame, crlf, encode, contents, decode_chunked-encode,
}
use aiautotest.Proxy.Http.Chunks.Laws.{Within, decode_chunked-Within}
use aiautotest.Proxy.Http.Decode.{Decoders, decode_body, decoder_for, whole, decode_body-take}
use aiautotest.Proxy.Http.Cookies.{cookie_names}
use aiautotest.Proxy.Http.Utf8.{from_utf8_lossy}

abbrev login : Text
login = text "POST /api/login HTTP/1.1\r\nHost: example.com\r\nContent-Length: 5\r\n\r\nhello"

abbrev login_request : ParsedRequest
login_request = record {
  method = text "POST";
  target = text "/api/login";
  version = text "HTTP/1.1";
  headers =
      record { name = text "Host"; value = text "example.com" }
      ∷ record { name = text "Content-Length"; value = text "5" }
      ∷ [];
  body = some (text "hello");
  consumed = length login;
}

request_with_content_length : parse_request login ≡ some login_request
unfolding parse_request content_length text_eq
request_with_content_length = refl

incomplete_request :
    parse_request (text "POST /api/login HTTP/1.1\r\nContent-Length: 10\r\n\r\nhi") ≡ none
unfolding parse_request content_length text_eq
incomplete_request = refl

-- The bytes behind the body, here the start of a second request, stay in the buffer.
parse_request-append_example : parse_request (login ++ text "GET / HT") ≡ some login_request
parse_request-append_example =
    parse_request-append login (text "GET / HT") login_request request_with_content_length

parse_request-Consumes_example :
    (n : ℕ) × (find_head_end login ≡ some n)
    × (length login ≤ length login)
    × (text "hello" ++ drop (length login) login ≡ drop (n + 4) login)
parse_request-Consumes_example =
    parse_request-Consumes login login_request request_with_content_length

abbrev chunked_response : Text
chunked_response =
    text
      "HTTP/1.1 200 OK\r\nTransfer-Encoding: chunked\r\n\r\n5\r\nhello\r\n6\r\n world\r\n0\r\n\r\n"

response_chunked :
    parse_response chunked_response
    ≡ some (record {
      version = text "HTTP/1.1";
      status = 200;
      reason = text "OK";
      headers = record { name = text "Transfer-Encoding"; value = text "chunked" } ∷ [];
      body = some (text "hello world");
      head_len = 47;
    })
unfolding parse_response content_length text_eq
response_chunked = refl

-- A chunk with an extension, and one whose size is written in capitals.
abbrev two_frames : List Frame
two_frames =
    record { line = text "5;a=b"; bytes = text "hello" }
    ∷ record { line = text " B "; bytes = text " wide world" }
    ∷ []

two_frames-IsFrame : All IsFrame two_frames
unfolding read_size
two_frames-IsFrame =
    let first : IsFrame (record { line = text "5;a=b"; bytes = text "hello" }) = record {
      one_line = refl;
      size_given = refl;
      some_bytes = omega arith;
    } in
    (first, (record { one_line = refl; size_given = refl; some_bytes = omega arith }, tt))

zero_size : read_size (text "0") ≡ some 0
unfolding read_size
zero_size = refl

decode_chunked-encode_example :
    decode_chunked (encode two_frames (text "0" ++ crlf (text "\r\n")))
    ≡ decoded (contents two_frames)
decode_chunked-encode_example =
    decode_chunked-encode two_frames (text "0") (text "\r\n") two_frames-IsFrame refl zero_size

decode_chunked-Within_example : Within 13 (decode_chunked (text "5\r\nhello\r\n0\r\n"))
decode_chunked-Within_example = decode_chunked-Within (text "5\r\nhello\r\n0\r\n")

-- A body that is cut off behind a chunk is decoded without an error.
cut_off : decode_chunked (text "5\r\nhello\r\n") ≡ decoded (text "hello")
unfolding decode_chunked
cut_off = refl

-- A decoder that doubles its input, and one that fails behind it.
abbrev sample_decoders : Decoders
sample_decoders = record {
  gzip_decoder = λ body. record { bytes = body ++ body; fails = false };
  brotli_decoder = λ body. record { bytes = body ++ body; fails = true };
  zlib_decoder = λ body. record { bytes = []; fails = true };
}

decode_body-take_example :
    decode_body sample_decoders (text "abcd") (text "br") 6
    ≡ take 6 (whole sample_decoders (text "abcd") 6 (decoder_for sample_decoders (text "br")))
decode_body-take_example = decode_body-take sample_decoders (text "abcd") (text "br") 6

-- The error lies behind the cap, so it is not met.
cut_before_error : decode_body sample_decoders (text "abcd") (text "br") 6 ≡ text "abcdab"
unfolding decode_body text_eq
cut_before_error = refl

failed_decompress : decode_body sample_decoders (text "abcd") (text "deflate") 6 ≡ text "abcd"
unfolding decode_body text_eq
failed_decompress = refl

request_cookies :
    cookie_names (record { name = text "Cookie"; value = text "a=1; b=2; session=abc" } ∷ []) false
    ≡ text "a" ∷ text "b" ∷ text "session" ∷ []
unfolding cookie_names text_eq set_insert text_le
request_cookies = refl

replaced_byte : from_utf8_lossy (97 ∷ 195 ∷ 98 ∷ []) ≡ 97 ∷ 239 ∷ 191 ∷ 189 ∷ 98 ∷ []
unfolding from_utf8_lossy
replaced_byte = refl
