-- ===== src/Workflow/Json.antt =====
-- The JSON values of serde_json that the workflow crate matches on. Numbers are a parameter. An object
-- is the list of its fields in key order.
use aiautotest.Common.{
  ℕ, Bool, true, false, ◌&&◌, Option, none, some, List, [], ◌∷◌, Text, text_eq, text_le, get_elem?,
  if◌then◌else◌,
}

mutual
  pub data Value (N : Type 0) : Type 0 where
    null : Value N
    bool : Bool → Value N
    number : N → Value N
    string : Text → Value N
    array : Items N → Value N
    object : Fields N → Value N

  pub data Items (N : Type 0) : Type 0 where
    nil : Items N
    cons : Value N → Items N → Items N

  pub data Fields (N : Type 0) : Type 0 where
    end : Fields N
    field : Text → Value N → Fields N → Fields N

module _ {N : Type 0} where
  abbrev pub items : Items N → List (Value N)
  items nil = []
  items (cons v vs) = v ∷ items vs

  abbrev pub fields : Fields N → List (Text × Value N)
  fields end = []
  fields (field k v fs) = (k, v) ∷ fields fs

  -- `Value::get` with a key and with an index.
  unfoldable pub get_field : Text → Fields N → Option (Value N)
  get_field key end = none
  get_field key (field k v fs) = if text_eq k key then some v else get_field key fs

  unfoldable pub get_key : Text → Value N → Option (Value N)
  unfolding get_field
  get_key key (object fs) = get_field key fs
  get_key key _ = none

  unfoldable pub get_index : ℕ → Value N → Option (Value N)
  get_index i (array vs) = get_elem? (items vs) i
  get_index i _ = none

  -- `Map::insert`, in key order.
  unfoldable pub insert_field : Text → Value N → Fields N → Fields N
  insert_field key value end = field key value end
  insert_field key value (field k v fs) =
      let rest = insert_field key value fs in
      if text_eq k key
      then field key value fs
      else (if text_le key k then field key value (field k v fs) else field k v rest)

  unfoldable pub as_bool : Value N → Option Bool
  as_bool (bool b) = some b
  as_bool _ = none

module _ {N : Type 0} (number_eq : N → N → Bool) where
  unfoldable mutual
    pub value_eq : Value N → Value N → Bool
    value_eq null null = true
    value_eq (bool true) (bool b) = b
    value_eq (bool false) (bool true) = false
    value_eq (bool false) (bool false) = true
    value_eq (number a) (number b) = number_eq a b
    value_eq (string s) (string t) = text_eq s t
    value_eq (array vs) (array ws) = items_eq vs ws
    value_eq (object fs) (object gs) = fields_eq fs gs
    value_eq _ _ = false

    pub items_eq : Items N → Items N → Bool
    items_eq nil nil = true
    items_eq (cons v vs) (cons w ws) = value_eq v w && items_eq vs ws
    items_eq _ _ = false

    pub fields_eq : Fields N → Fields N → Bool
    fields_eq end end = true
    fields_eq (field k v fs) (field l w gs) = text_eq k l && (value_eq v w && fields_eq fs gs)
    fields_eq _ _ = false
