-- ===== src/Scanner/Mutation/Path.antt =====
-- crates/scanner/src/mutation_engine.rs: a value is put at a dotted path of a JSON document.
pub mod Laws
use aiautotest.Common.{
  ℕ, zero, suc, ◌-◌, ◌==◌, leb, Bool, true, false, Option, none, some, List, [], ◌∷◌, ◌++◌, Text,
  text, length, get_elem?, is_empty_text, parse_usize, unwrap_or, if◌then◌else◌,
}
use aiautotest.Workflow.Json.{
  Value, Items, Fields, null, bool, number, string, array, object, nil, cons, end, field, items,
  get_field, insert_field,
}

pub data PathSegment : Type 0 where
  key : Text → PathSegment
  index : ℕ → PathSegment

-- The segment that the buffered characters make.
key_of : Text → List PathSegment
key_of [] = []
key_of (c ∷ buffer) = key (c ∷ buffer) ∷ []

index_of : Option ℕ → List PathSegment
index_of none = []
index_of (some i) = index i ∷ []

-- Between brackets the index is collected, elsewhere the buffer.
record Reading : Type 0 where
  pub bracket : Option Text
  pub buffer : Text

read_char : Reading → ℕ → List PathSegment × Reading
unfolding key_of index_of parse_usize
read_char r c = elim (r.bracket) [
  | none ↦
      if c == b'.'
      then (key_of r.buffer, record { bracket = none; buffer = [] })
      else (if c == b'['
          then (key_of r.buffer, record { bracket = some []; buffer = [] })
          else ([], record { bracket = none; buffer = r.buffer ++ c ∷ [] }))
  | some digits ↦
      if c == b']'
      then (index_of (parse_usize digits), record { bracket = none; buffer = [] })
      else ([], record { bracket = some (digits ++ c ∷ []); buffer = [] })
]

-- A bracket that is not closed ends with the text.
read_end : Option Text → Text → List PathSegment
unfolding key_of index_of parse_usize
read_end none buffer = key_of buffer
read_end (some digits) buffer = index_of (parse_usize digits)

read_path : Reading → Text → List PathSegment
unfolding read_char read_end
read_path r [] = read_end r.bracket r.buffer
read_path r (c ∷ path) = let (out, next) = read_char r c in out ++ read_path next path

unfoldable pub parse_path : Text → List PathSegment
unfolding read_path
parse_path path = read_path (record { bracket = none; buffer = [] }) path

module _ {N : Type 0} where
  -- `array.resize(size, Null)` where the array is shorter.
  unfoldable pub resize : (size : ℕ) → Items N → Items N
  resize zero vs = vs
  resize (suc n) nil = cons null (resize n nil)
  resize (suc n) (cons v vs) = cons v (resize n vs)

  -- `array[i] = value`, where there is an `i`.
  unfoldable pub put_item : ℕ → Value N → Items N → Items N
  put_item i value nil = nil
  put_item zero value (cons v vs) = cons value vs
  put_item (suc i) value (cons v vs) = cons v (put_item i value vs)

  unfoldable pub apply_leaf : PathSegment → Value N → Value N → Value N
  unfolding insert_field put_item
  apply_leaf (key k) value (object fs) = object (insert_field k value fs)
  apply_leaf (index i) value (array vs) = array (put_item i value vs)
  apply_leaf _ value current = current

  -- What `descend` refers to, an empty object or a null where nothing was there.
  unfoldable pub child_field : Text → Fields N → Value N
  unfolding get_field
  child_field k fs = unwrap_or (get_field k fs) (object end)

  unfoldable pub child_item : ℕ → Items N → Value N
  child_item i vs = unwrap_or (get_elem? (items vs) i) null

  -- The loop over the segments. The child that `descend` refers to is changed in its place, where
  -- it was created if need be.
  unfoldable pub set_segments : List PathSegment → Value N → Value N → Value N
  unfolding apply_leaf child_field child_item insert_field put_item resize
  set_segments [] value current = current
  set_segments (s ∷ []) value current = apply_leaf s value current
  set_segments (key k ∷ s ∷ rest) value (object fs) =
      object (insert_field k (set_segments (s ∷ rest) value (child_field k fs)) fs)
  set_segments (index i ∷ s ∷ rest) value (array vs) =
      array (put_item i (set_segments (s ∷ rest) value (child_item i vs)) (resize (suc i) vs))
  set_segments _ value current = current

  unfoldable pub set_json_path : Value N → Text → Value N → Value N
  unfolding parse_path set_segments
  set_json_path root path value = set_segments (parse_path path) value root
