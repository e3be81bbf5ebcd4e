-- ===== src/Proxy/Relay/Errors.antt =====
-- `TunnelErrorReporter` of crates/proxy/src/server.rs. A moment is its milliseconds on the clock,
-- which does not run backwards.
use aiautotest.Common.{
  ℕ, ◌+◌, ◌-◌, ◌≤◌, ◌<◌, ltb, leb, if◌then◌else◌, Bool-cases, ◌≡◌, ◌∙◌, inl, inr, Bool, true, false,
  Option, none, some, List, [], ◌∷◌, arith, length, Text, text_eq_refl, lookup, insert,
  lookup-insert, text_eq_iff, text_eq,
}

abbrev pub tunnel_error_cooldown : ℕ
tunnel_error_cooldown = 30000

abbrev pub max_tunnel_error_keys : ℕ
max_tunnel_error_keys = 512

abbrev pub Reported : Type 0
Reported = List (Text × ℕ)

is_recent : (now : ℕ) → Option ℕ → Bool
is_recent now none = false
is_recent now (some last) = ltb (now - last) tunnel_error_cooldown

unfoldable pub cleared : Reported → Reported
cleared reported = if leb max_tunnel_error_keys (length reported) then [] else reported

unfoldable pub should_report : (now : ℕ) → (message : Text) → Reported → Reported × Bool
unfolding is_recent cleared lookup insert
should_report now message reported =
    let kept = cleared reported in
    if is_recent now (lookup message kept) then (kept, false) else (insert message now kept, true)

length-insert-le : (k : Text) (v : ℕ) (m : Reported) → length (insert k v m) ≤ length m + 1
unfolding insert
length-insert-le k v [] = omega arith
length-insert-le k v ((j, w) ∷ m) = ground (arith, length-insert-le k v m)

-- The reporter never holds more than 512 messages.
pub should_report-length :
    (now : ℕ) (message : Text) (reported : Reported)
    → length (should_report now message reported).0 ≤ max_tunnel_error_keys
unfolding should_report cleared
should_report-length now message reported =
    ground (arith, length-insert-le message now (cleared reported))

should_report-inserts :
    (now : ℕ) (message : Text) (reported : Reported)
    → (should_report now message reported).1 ≡ true
    → (should_report now message reported).0 ≡ insert message now (cleared reported)
unfolding should_report
should_report-inserts now message reported h =
    elim (Bool-cases (is_recent now (lookup message (cleared reported)))) [
      | inl recent ↦ cc (rw recent at h)
      | inr old ↦ rw old
    ]

should_report-holds :
    (now : ℕ) (message : Text) (reported : Reported)
    → (should_report now message reported).1 ≡ true
    → lookup message (should_report now message reported).0 ≡ some now
should_report-holds now message reported first =
    rw (should_report-inserts now message reported first)
      (lookup-insert message message now (cleared reported) ∙ rw (text_eq_refl message))

-- What the reporter says of a message that it holds.
should_report-held :
    (now later : ℕ) (message : Text) (m : Reported)
    → lookup message m ≡ some now
    → later < now + tunnel_error_cooldown
    → (should_report later message m).1 ≡ leb max_tunnel_error_keys (length m)
unfolding should_report cleared lookup
should_report-held now later message m held soon =
    elim (Bool-cases (leb max_tunnel_error_keys (length m))) [
      | inl full ↦ rw full
      | inr room ↦
          let recent : ltb (later - now) tunnel_error_cooldown ≡ true = ground arith in
          rw (room, held, recent)
    ]

-- The calls of `should_report` one after the other.
unfoldable pub report_all : List (ℕ × Text) → Reported → Reported
unfolding should_report
report_all [] m = m
report_all ((now, message) ∷ calls) m = report_all calls (should_report now message m).0

-- The calls come before the end of the cooldown of a report at `now`, and none of them finds the
-- reporter full.
abbrev pub IsRoomy : (now : ℕ) → List (ℕ × Text) → Reported → Type 0
IsRoomy now [] m = Unit
IsRoomy now ((at, message) ∷ calls) m =
    (at < now + tunnel_error_cooldown)
    × (length m < max_tunnel_error_keys)
    × IsRoomy now calls (should_report at message m).0

should_report-keeps :
    (now at : ℕ) (message other : Text) (m : Reported)
    → lookup message m ≡ some now
    → at < now + tunnel_error_cooldown
    → length m < max_tunnel_error_keys
    → lookup message (should_report at other m).0 ≡ some now
unfolding should_report cleared is_recent
should_report-keeps now at message other m held soon room =
    let roomy : leb max_tunnel_error_keys (length m) ≡ false = ground arith in
    elim (Bool-cases (is_recent at (lookup other m))) [
      | inl recent ↦ rw (roomy, recent) held
      | inr old ↦ elim (Bool-cases (text_eq other message)) [
        | inl same ↦
            let named : other ≡ message = ground (arith, text_eq_iff other message) in
            let recent : ltb (at - now) tunnel_error_cooldown ≡ true = ground arith in
            let known : is_recent at (lookup other m) ≡ true = rw (named, held) recent in
            absurd (ground (arith, known, old))
        | inr differ ↦ rw (roomy, old) (lookup-insert other message at m ∙ rw differ held)
      ]
    ]

report_all-keeps :
    (now : ℕ) (message : Text) (calls : List (ℕ × Text)) (m : Reported)
    → lookup message m ≡ some now
    → IsRoomy now calls m
    → lookup message (report_all calls m) ≡ some now
unfolding report_all
report_all-keeps now message [] m held h = held
report_all-keeps now message ((at, other) ∷ calls) m held (soon, room, h) =
    report_all-keeps now message calls (should_report at other m).0
      (should_report-keeps now at message other m held soon room) h

-- A message that was reported is kept back when it comes again within the cooldown, whatever was
-- reported in between, as long as no call in between found the reporter full. If the repeat itself
-- finds it full, everything is forgotten and the message is reported again.
pub should_report-repeat :
    (now later : ℕ) (message : Text) (reported : Reported) (calls : List (ℕ × Text))
    → (should_report now message reported).1 ≡ true
    → IsRoomy now calls (should_report now message reported).0
    → later < now + tunnel_error_cooldown
    → (should_report later message (report_all calls (should_report now message reported).0)).1
      ≡ leb max_tunnel_error_keys (length (report_all calls (should_report now message reported).0))
should_report-repeat now later message reported calls first roomy soon =
    let m = (should_report now message reported).0 in
    should_report-held now later message (report_all calls m)
      (report_all-keeps now message calls m (should_report-holds now message reported first) roomy)
      soon
