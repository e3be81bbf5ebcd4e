-- ===== src/Proxy/Relay.antt =====
-- crates/proxy/src/server.rs: the response body that is relayed to the client while a capped copy of
-- it is captured, the collection of a body, the request head, and the tunnel diagnostics. `Ctx` is
-- `FlowCaptureCtx`, and the calls of `spawn_capture` are kept in order.
pub mod Laws
pub mod Bounds
pub mod Errors
pub mod Collect
mod Tests
use aiautotest.Common.{
  ℕ, ◌+◌, ◌-◌, ◌*◌, ltb, leb, if◌then◌else◌, is_some, Bool, true, false, ◌||◌, Option, none, some,
  List, [], ◌∷◌, ◌++◌, length, take, Text, text, contains, split, to_ascii_lowercase,
}
use aiautotest.Proxy.Http.{find_head_end}
use aiautotest.Proxy.Http.Utf8.{from_utf8_lossy}

abbrev pub max_head_bytes : ℕ
max_head_bytes = 64 * 1024

-- What the upstream body answers to a poll. A frame may have no data, as one of trailers.
pub data Poll : Type 0 where
  frame : Option Text → Poll
  failed finished pending : Poll

-- `CapturedBody` is `captured` with `truncated`.
pub record TeeBody (Ctx : Type 0) : Type 0 where
  pub captured : Text
  pub truncated : Bool
  pub max_capture : ℕ
  pub expected : Option ℕ
  pub done : Bool
  pub ctx : Option Ctx
  pub spawned : List (Ctx × Text)

reaches : ℕ → Option ℕ → Bool
reaches len none = false
reaches len (some expected) = leb expected len

module _ {Ctx : Type 0} where
  unfoldable pub new : (max_capture : ℕ) → (expected : Option ℕ) → Option Ctx → TeeBody Ctx
  new max_capture expected ctx = record {
    captured = [];
    truncated = false;
    max_capture = max_capture;
    expected = expected;
    done = false;
    ctx = ctx;
    spawned = [];
  }

  spawn_capture : Option Ctx → Text → List (Ctx × Text) → List (Ctx × Text)
  spawn_capture none body spawned = spawned
  spawn_capture (some ctx) body spawned = spawned ++ (ctx, body) ∷ []

  taken_body : Option Ctx → Text → Text
  taken_body none body = body
  taken_body (some ctx) body = []

  unfoldable pub finalize : TeeBody Ctx → TeeBody Ctx
  unfolding spawn_capture taken_body
  finalize b = if b.done then b else record b {
    captured = taken_body b.ctx b.captured;
    done = true;
    ctx = none;
    spawned = spawn_capture b.ctx b.captured b.spawned;
  }

  unfoldable pub capture_frame : (bytes : Text) → TeeBody Ctx → TeeBody Ctx
  unfolding finalize reaches
  capture_frame bytes b =
      let room = b.max_capture - length b.captured in
      let cut = record b { captured = b.captured ++ take room bytes; truncated = true } in
      let grown = record b { captured = b.captured ++ bytes } in
      if b.done
      then b
      else if ltb room (length bytes)
      then finalize cut
      else if reaches (length grown.captured) b.expected
      then finalize grown
      else grown

  -- The frame that the client gets, and whether the poll ends the body.
  unfoldable pub poll_frame : Poll → TeeBody Ctx → TeeBody Ctx × Poll
  unfolding capture_frame finalize
  poll_frame (frame (some bytes)) b = (capture_frame bytes b, frame (some bytes))
  poll_frame (frame none) b = (b, frame none)
  poll_frame failed b = (b, finished)
  poll_frame finished b = (finalize b, finished)
  poll_frame pending b = (b, pending)

  -- The polls of a connection, one after the other, and what the client gets.
  unfoldable pub run : List Poll → TeeBody Ctx → TeeBody Ctx × List Poll
  unfolding poll_frame
  run [] b = (b, [])
  run (p ∷ ps) b =
      let (b', answer) = poll_frame p b in let (end, answers) = run ps b' in (end, answer ∷ answers)

-- `head.split(b' ')`, and its tokens read as text.
unfoldable pub first_token : (head : Text) → Text
unfolding split from_utf8_lossy
first_token head = from_utf8_lossy (split b' ' head).0

second_part : List Text → Text
unfolding from_utf8_lossy
second_part [] = []
second_part (token ∷ tokens) = from_utf8_lossy token

unfoldable pub second_token : (head : Text) → Text
unfolding split second_part
second_token head = second_part (split b' ' head).1

-- The loop of `read_head` over the chunks that the socket gives; an empty chunk is the end. The
-- buffer stays as it is while the socket gives nothing.
unfoldable pub read_head : (chunks : List Text) → (buffer : Text) → Text
unfolding find_head_end
read_head [] buffer = buffer
read_head ([] ∷ chunks) buffer = buffer
read_head ((c ∷ chunk) ∷ chunks) buffer =
    let grown = buffer ++ (c ∷ chunk) in
    let later = read_head chunks grown in
    if is_some (find_head_end grown) || ltb max_head_bytes (length grown) then grown else later

abbrev hop_by_hop : List Text
hop_by_hop =
    text "connection"
    ∷ text "proxy-connection"
    ∷ text "keep-alive"
    ∷ text "proxy-authenticate"
    ∷ text "proxy-authorization"
    ∷ text "te"
    ∷ text "trailer"
    ∷ text "transfer-encoding"
    ∷ text "upgrade"
    ∷ []

unfoldable pub is_hop_by_hop : (name : Text) → Bool
unfolding contains to_ascii_lowercase
is_hop_by_hop name = contains (to_ascii_lowercase name) hop_by_hop
