-- ===== src/Proxy/Intercept.antt =====
-- crates/proxy/src/intercept.rs: `InterceptController`. The channels are numbered as `enqueue` opens
-- them. `answers` holds what `wait_for_decision` returns on each channel that has an answer: the
-- decision that was sent, or the unchanged item where the sender was dropped.
use aiautotest.Common.{
  ℕ, suc, ◌+◌, ◌==◌, Bool, true, false, not, ◌&&◌, Option, none, some, List, [], ◌∷◌, ◌++◌, Text,
  text_eq, length, map, filter, find, lookup, insert, remove,
}
pub mod Laws

pub record InterceptHeader : Type 0 where
  pub name : Text
  pub value : Text

pub record InterceptEntry : Type 0 where
  pub id : Text
  pub kind : Text
  pub method : Text
  pub url : Text
  pub status : Option ℕ
  pub reason : Option Text
  pub headers : List InterceptHeader
  pub body : Text
  pub body_len : ℕ
  pub timestamp : ℕ

pub record InterceptEdit : Type 0 where
  pub method : Text
  pub url : Text
  pub status : Option ℕ
  pub reason : Option Text
  pub headers : List InterceptHeader
  pub body : Text

pub data InterceptDecision : Type 0 where
  forwarded : Option InterceptEdit → InterceptDecision
  dropped : InterceptDecision

-- The sender is gone once it was used.
pub record Pending : Type 0 where
  pub tx : Option ℕ

pub record InterceptController : Type 0 where
  pub enabled : Bool
  pub intercept_requests : Bool
  pub intercept_responses : Bool
  pub pending : List (Text × Pending)
  pub queue : List InterceptEntry
  pub channels : ℕ
  pub answers : List (ℕ × InterceptDecision)

-- `Default::default`.
unfoldable pub init : InterceptController
init = record {
  enabled = false;
  intercept_requests = true;
  intercept_responses = true;
  pending = [];
  queue = [];
  channels = 0;
  answers = [];
}

unfoldable pub set_enabled : Bool → InterceptController → InterceptController
set_enabled enabled s = record s { enabled = enabled }

unfoldable pub set_intercept_requests : Bool → InterceptController → InterceptController
set_intercept_requests enabled s = record s { intercept_requests = enabled }

unfoldable pub set_intercept_responses : Bool → InterceptController → InterceptController
set_intercept_responses enabled s = record s { intercept_responses = enabled }

unfoldable pub should_intercept_request : InterceptController → Bool
should_intercept_request s = s.enabled && s.intercept_requests

unfoldable pub should_intercept_response : InterceptController → Bool
should_intercept_response s = s.enabled && s.intercept_responses

-- The answer on the channel of an entry, if its sender is there.
unfoldable pub send : InterceptDecision → Pending → List (ℕ × InterceptDecision)
send decision p = elim p.tx [ none ↦ [] | some c ↦ (c, decision) ∷ [] ]

-- The map's insertion drops an entry that had the same id.
unfoldable pub drop_old : Option Pending → List (ℕ × InterceptDecision)
unfolding send
drop_old none = []
drop_old (some p) = send (forwarded none) p

-- `enqueue` under the lock of the map, and then under the lock of the list.
unfoldable pub register : InterceptEntry → InterceptController → InterceptController
unfolding drop_old insert lookup
register entry s = record s {
  pending = insert entry.id (record { tx = some s.channels }) s.pending;
  channels = suc s.channels;
  answers = s.answers ++ drop_old (lookup entry.id s.pending);
}

unfoldable pub show : InterceptEntry → InterceptController → InterceptController
show entry s = record s { queue = s.queue ++ entry ∷ [] }

-- Both with no other task between them: the new state and the receiver.
unfoldable pub enqueue : InterceptEntry → InterceptController → InterceptController × ℕ
unfolding register show
enqueue entry s = (show entry (register entry s), s.channels)

light : InterceptEntry → InterceptEntry
light entry = record entry { body = [] }

unfoldable pub list : InterceptController → List InterceptEntry
unfolding light
list s = map light s.queue

unfoldable pub get : Text → InterceptController → Option InterceptEntry
get id s = find (λ entry. text_eq entry.id id) s.queue

unfoldable pub len : InterceptController → ℕ
len s = length s.pending

unfoldable pub is_empty : InterceptController → Bool
unfolding len
is_empty s = len s == 0

-- What `forward` and `drop_item` share: the entry leaves both collections, and its task is answered.
unfoldable pub decide_found :
    Text → InterceptDecision → Option Pending → InterceptController → InterceptController × Bool
unfolding send remove
decide_found id decision none s = (s, false)
decide_found id decision (some p) s = (
  record s {
    pending = remove id s.pending;
    answers = s.answers ++ send decision p;
    queue = filter (λ entry. not (text_eq entry.id id)) s.queue;
  },
  true,
)

unfoldable pub decide : Text → InterceptDecision → InterceptController → InterceptController × Bool
unfolding decide_found lookup
decide id decision s = decide_found id decision (lookup id s.pending) s

unfoldable pub forward :
    Text → Option InterceptEdit → InterceptController → InterceptController × Bool
unfolding decide
forward id edit s = decide id (forwarded edit) s

unfoldable pub drop_item : Text → InterceptController → InterceptController × Bool
unfolding decide
drop_item id s = decide id dropped s

unfoldable pub send_all : InterceptDecision → List (Text × Pending) → List (ℕ × InterceptDecision)
unfolding send
send_all decision [] = []
send_all decision ((id, p) ∷ m) = send decision p ++ send_all decision m

unfoldable pub clear_all : InterceptController → InterceptController
unfolding send_all
clear_all s = record s {
  pending = [];
  queue = [];
  answers = s.answers ++ send_all dropped s.pending;
}
