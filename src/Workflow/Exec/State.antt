-- ===== src/Workflow/Exec/State.antt =====
-- The run state, the errors, and what the engine asks of the outside. Node results leave out their
-- duration. `on_node` is the list of the results that it was called with.
use aiautotest.Common.{
  ℕ, zero, suc, ◌+◌, ◌/◌, ◌%◌, Bool, Option, List, [], ◌∷◌, ◌++◌, Text, text, ltb, if◌then◌else◌,
  insert, remove,
}
use aiautotest.Workflow.Json.{Value}
use aiautotest.Scanner.Request.{HttpRequest, PortError}

-- What comes of one request within its timeout.
pub data Sent : Type 0 where
  response : (status : ℕ) → (headers : List (Text × Text)) → (body : Text) → Sent
  failed : PortError → Sent
  timed_out : Sent

-- serde_json, the regex crate, the HTTP client, the cancellation token, and the parts of `str` and
-- `f64` that need tables or floats. `W` is the world that the client and the token belong to;
-- the pauses between two sends change nothing in it.
pub record Outside : Type 1 where
  pub N : Type 0
  pub W : Type 0
  pub send : HttpRequest → W → Sent × W
  pub is_cancelled : W → Bool × W
  -- A sleep of some milliseconds against the token: whether the token came first.
  pub sleep_or_cancelled : ℕ → W → Bool × W
  pub number_eq : N → N → Bool
  -- `json!` of an unsigned integer.
  pub number : ℕ → N
  -- `number(left) > number(right)` on the `f64` that `number` of the source makes of a JSON number or
  -- of a text (`none` stands for 0.0).
  pub Float : Type 0
  pub as_f64 : N → Option Float
  pub parse_f64 : Text → Option Float
  pub zero_f64 : Float
  pub gt : Float → Float → Bool
  pub from_str : Text → Option (Value N)
  pub to_string : Value N → Text
  pub to_uppercase : Text → Text
  -- The regex replacement of each `{{ name }}` in a template.
  pub replace_all : (Text → Text) → Text → Text
  pub from_utf8_lossy : Text → Text

pub data WorkflowError : Type 0 where
  node : (node_id message : Text) → WorkflowError
  cancelled : WorkflowError
  transport : Text → WorkflowError

unfoldable pub error_to_string : WorkflowError → Text
error_to_string (node node_id message) = text "node " ++ (node_id ++ (text ": " ++ message))
error_to_string cancelled = text "workflow cancelled"
error_to_string (transport message) = text "transport error: " ++ message

pub record NodeResult (N : Type 0) : Type 0 where
  pub node_id : Text
  pub ok : Bool
  pub output : Value N
  pub error : Option Text

pub record RunState (N W : Type 0) : Type 0 where
  pub vars : List (Text × Value N)
  pub node_results : List (Text × NodeResult N)
  pub on_node : List (NodeResult N)
  pub world : W

pub data Result (A : Type 0) : Type 0 where
  ok : A → Result A
  err : WorkflowError → Result A

-- The decimal form of a number, in at most `fuel` digits; 20 are enough for 64 bits.
show_digits : ℕ → ℕ → Text
show_digits zero n = []
show_digits (suc fuel) n =
    let rest = show_digits fuel (n / 10) in
    if ltb n 10 then (b'0' + n) ∷ [] else rest ++ (b'0' + n % 10) ∷ []

unfoldable pub show : ℕ → Text
unfolding show_digits
show n = show_digits 20 n

abbrev pub M : Type 0 → Type 0 → Type 0 → Type 0
M N W A = RunState N W → Result A × RunState N W

module _ {N W : Type 0} where
  infixl 5 ◌>>=◌ ◌>>◌
  abbrev pub ◌>>=◌ : {A B : Type 0} → M N W A → (A → M N W B) → M N W B
  ◌>>=◌ m f s = let (r, s') = m s in elim r [ ok a ↦ f a s' | err e ↦ (err e, s') ]

  abbrev pub ◌>>◌ : {B : Type 0} → M N W Unit → M N W B → M N W B
  m >> k = m >>= λ _. k

  abbrev pub return : {A : Type 0} → A → M N W A
  return a s = (ok a, s)

  abbrev pub fail : {A : Type 0} → WorkflowError → M N W A
  fail e s = (err e, s)

  abbrev pub lift : {A : Type 0} → Result A → M N W A
  lift r s = (r, s)

  abbrev pub get_state : M N W (RunState N W)
  get_state s = (ok s, s)

  -- A step that reads the state.
  abbrev pub read : {A : Type 0} → (RunState N W → Result A) → M N W A
  read f s = (f s, s)

  abbrev pub insert_var : Text → Value N → M N W Unit
  insert_var name v s = (ok tt, record s { vars = insert name v s.vars })

  abbrev pub remove_var : Text → M N W Unit
  remove_var name s = (ok tt, record s { vars = remove name s.vars })

  -- The result is inserted into the run's results and given to the callback.
  unfoldable pub emit : NodeResult N → M N W Unit
  emit r s = (
    ok tt,
    record s { node_results = insert r.node_id r s.node_results; on_node = s.on_node ++ r ∷ [] },
  )

unfoldable pub check_cancelled : (out : Outside) → M out.N out.W Unit
check_cancelled out s =
    let (cancelled_, world) = out.is_cancelled s.world in
    (if cancelled_ then err cancelled else ok tt, record s { world = world })
